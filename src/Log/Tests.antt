-- ===== src/Log/Tests.antt =====
-- Tests of the log.
use openeuler_ummu.Base.{ℕ, zero, suc, ◌-◌, ◌≤◌, ◌<◌, ◌≡◌, refl, arith, some, [], ◌∷◌, length}
use openeuler_ummu.Log.{Text, Libc, Call, syslog, codes, vlog_level_max, log_at}
use openeuler_ummu.Log.Level.{Strtol, pos, byte, ummu_get_log_level}
use openeuler_ummu.Log.Bounds.{IsSnprintf, OneBelow, ummu_get_log_level-OneBelow}

abbrev cut : ℕ → Text → Text
cut zero s = []
cut (suc n) [] = []
cut (suc n) (x ∷ s) = x ∷ cut n s

length-cut : (n : ℕ) (s : Text) → length (cut n s) ≤ n
length-cut zero s = omega arith
length-cut (suc n) [] = omega arith
length-cut (suc n) (x ∷ s) = omega (arith, length-cut n s)

-- a library that prints the format alone
abbrev plain : Libc
plain = record {
  getpid = 7;
  snprintf = λ size format args. (some (length format), cut (size - 1) format);
}

plain-IsSnprintf : IsSnprintf plain
plain-IsSnprintf = record {
  bounded = λ size format args h. omega (arith, h, length-cut (size - 1) format);
}

abbrev digit : Strtol
digit (b ∷ s) = (pos (b - 48), 0)
digit [] = (pos 0, 0)

abbrev hello : Call
hello = record { function = codes "f"; line = 1; format = codes "hello"; args = [] }

hello_logged : log_at plain 6 3 hello ≡ syslog 3 (codes "[%d]%s|%s[%d]|%s") ∷ []
unfolding log_at
hello_logged = refl

hello_dropped : log_at plain 6 7 hello ≡ []
unfolding log_at
hello_dropped = refl

-- the level of a file that holds the digit 3, and of one that holds no level
level_three : (ummu_get_log_level plain digit (byte 51)).0 ≡ 3
unfolding ummu_get_log_level
level_three = refl

level_nine : (ummu_get_log_level plain digit (byte 57)).0 ≡ 6
unfolding ummu_get_log_level
level_nine = refl

ummu_get_log_level-OneBelow_example :
    let (g, out) = ummu_get_log_level plain digit (byte 51) in (g < vlog_level_max) × OneBelow g out
ummu_get_log_level-OneBelow_example =
    ummu_get_log_level-OneBelow plain plain-IsSnprintf digit (byte 51)
