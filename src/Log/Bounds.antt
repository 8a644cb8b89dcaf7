-- ===== src/Log/Bounds.antt =====
-- What a call of the log writes, and what is written while the level is read.
use openeuler_ummu.Base.{ℕ, ◌≤◌, ◌<◌, ◌≡◌, arith, List, [], ◌∷◌, ltb, Bool-cases, inl, inr, length}
use openeuler_ummu.Log.{
  Text, Libc, Arg, Call, Written, syslog, printf, vlog_level_max, new_format, log_at, ummu_log,
  ummu_log_drop, max_log_len,
}
use openeuler_ummu.Log.Level.{
  Long, pos, negsuc, LevelFile, closed, empty, byte, Strtol, level_of, ummu_get_log_level,
}

-- `snprintf` as documented: at most `size - 1` characters are in the buffer.
pub record IsSnprintf (c : Libc) : Type 0 where
  pub bounded :
      (size : ℕ) (format : Text) (args : List Arg)
      → 0 < size
      → length ((c.snprintf size format args).1) < size

-- At most one line, and none above the level of logging: to syslog, at this level and shorter than the
-- buffer, or on the standard output.
abbrev pub OneLine : ℕ → ℕ → List Written → Type 0
OneLine g level [] = Unit
OneLine g level (syslog l msg ∷ []) = (level ≤ g) × (l ≡ level) × (length msg < max_log_len)
OneLine g level (printf format args ∷ []) = level ≤ g
OneLine g level (a ∷ b ∷ rest) = ⊥

-- The same, at any level up to this one.
abbrev pub OneBelow : ℕ → List Written → Type 0
OneBelow g [] = Unit
OneBelow g (syslog l msg ∷ []) = (l ≤ g) × (length msg < max_log_len)
OneBelow g (printf format args ∷ []) = Unit
OneBelow g (a ∷ b ∷ rest) = ⊥

level_of-lt : (r : Long × ℕ) → level_of r < vlog_level_max
unfolding level_of
level_of-lt (pos n, errno) = ground arith
level_of-lt (negsuc n, errno) = omega arith

module _ (c : Libc) (h : IsSnprintf c) where
  ummu_log-OneLine :
      (g level : ℕ) (call : Call) → level ≤ g → OneLine g level (ummu_log c level call)
  unfolding ummu_log
  ummu_log-OneLine g level call le =
      ground (arith, h.bounded max_log_len (new_format c call).1 call.args (omega arith))

  -- A call of the log writes at most one line, and nothing above the level of logging.
  pub log_at-OneLine : (g level : ℕ) (call : Call) → OneLine g level (log_at c g level call)
  unfolding log_at ummu_log_drop
  log_at-OneLine g level call = elim (Bool-cases (ltb g level)) [
    | inl e ↦ rw e tt
    | inr e ↦ rw e (ummu_log-OneLine g level call (ground arith))
  ]

  line_below :
      (g level : ℕ) (call : Call)
      → OneLine g level (log_at c g level call)
      → OneBelow g (log_at c g level call)
  line_below g level call one = below_one (log_at c g level call) one
    where
      below_one : (out : List Written) → OneLine g level out → OneBelow g out
      below_one [] o = tt
      below_one (syslog l msg ∷ []) (le, e, s) = (omega (arith, le, e), s)
      below_one (printf format args ∷ []) o = tt
      below_one (a ∷ b ∷ rest) o = o

  -- With an `snprintf` as documented, whatever the file of the log level holds and whatever `strtol`
  -- makes of it: the level of logging that is set is one of the eight, and at most one line is written
  -- meanwhile: to syslog, at a level that is not above the one set and with less than MAX_LOG_LEN
  -- characters, or on the standard output.
  pub ummu_get_log_level-OneBelow :
      (strtol : Strtol) (file : LevelFile)
      → let (g, out) = ummu_get_log_level c strtol file in (g < vlog_level_max) × OneBelow g out
  unfolding ummu_get_log_level
  ummu_get_log_level-OneBelow strtol closed =
      (omega arith, line_below 6 4 _ ((log_at-OneLine 6 4 _)))
  ummu_get_log_level-OneBelow strtol empty =
      (omega arith, line_below 6 3 _ ((log_at-OneLine 6 3 _)))
  ummu_get_log_level-OneBelow strtol (byte b) =
      let r = strtol (b ∷ 0 ∷ 0 ∷ []) in
      (level_of-lt r, line_below (level_of r) 6 _ ((log_at-OneLine (level_of r) 6 _)))
