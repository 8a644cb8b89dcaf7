-- ===== src/Log/Level.antt =====
-- `ummu_get_log_level` of ummu_main.c: the level of logging is read from a file.
use openeuler_ummu.Base.{ℕ, ◌==◌, ltb, ◌&&◌, if◌then◌else◌, List, [], ◌∷◌}
use openeuler_ummu.Log.{
  Text, codes, Libc, num, Call, Written, vlog_level_err, vlog_level_warning, vlog_level_info,
  vlog_level_max, log_at,
}

-- a `long`: `pos n` is n, `negsuc n` is -(n + 1)
pub data Long : Type 0 where
  pos : ℕ → Long
  negsuc : ℕ → Long

-- The file as `fopen` and `fread` find it: `closed` if it does not open, `empty` if no byte is read.
pub data LevelFile : Type 0 where
  closed : LevelFile
  empty : LevelFile
  byte : ℕ → LevelFile

-- What `strtol` with base 10 gives for the text in a buffer: the value and `errno`.
abbrev pub Strtol : Type 0
Strtol = Text → Long × ℕ

-- the value read, if it is one of the levels
unfoldable pub level_of : Long × ℕ → ℕ
level_of (pos n, errno) = if (errno == 0) && ltb n vlog_level_max then n else vlog_level_info
level_of (negsuc n, errno) = vlog_level_info

abbrev level_call : ℕ → Text → ℕ → Call
level_call line format level = record {
  function = codes "ummu_get_log_level";
  line = line;
  format = format;
  args = num level ∷ [];
}

-- `g_loglevel` afterwards, and what is logged. The buffer has three bytes, of which one is read.
unfoldable pub ummu_get_log_level : Libc → Strtol → LevelFile → ℕ × List Written
unfolding level_of log_at
ummu_get_log_level c strtol closed = (
  vlog_level_info,
  log_at c vlog_level_info vlog_level_warning
      (level_call 44 (codes "Use UMMU default loglevel = %u.\n") vlog_level_info),
)
ummu_get_log_level c strtol empty = (
  vlog_level_info,
  log_at c vlog_level_info vlog_level_err (
      level_call 49 (codes "Read ummu_log_level failed, use default loglevel = %u.\n")
        vlog_level_info),
)
ummu_get_log_level c strtol (byte b) =
    let level = level_of (strtol (b ∷ 0 ∷ 0 ∷ [])) in
    (level, log_at c level vlog_level_info (level_call 60 (codes "UMMU log level = %u.\n") level))
