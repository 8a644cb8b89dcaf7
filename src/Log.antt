-- ===== src/Log.antt =====
-- ummu_log.h: a log line is put together, cut to the buffers' size and handed to syslog. Texts are
-- lists of character codes.
pub mod Level
pub mod Bounds
mod Tests
use Prim.Native.Char.{code}
use Prim.Native.String.{String}
use openeuler_ummu.Base.{
  ℕ, ◌+◌, ltb, leb, ◌||◌, if◌then◌else◌, Bool, Option, none, some, List, [], ◌∷◌,
}

abbrev pub Text : Type 0
Text = List ℕ

abbrev pub codes : String → Text
codes String.[] = []
codes (String.◌∷◌ c s) = code c ∷ codes s

-- what follows a format
pub data Arg : Type 0 where
  num : ℕ → Arg
  str : Text → Arg

-- The C library: `snprintf size format args` gives the value returned, `none` for one below 0, and what
-- is in the buffer. `vsnprintf` is the same function on a `va_list`.
pub record Libc : Type 0 where
  pub getpid : ℕ
  pub snprintf : ℕ → Text → List Arg → Option ℕ × Text

-- `ummu_vlog_level_t`
abbrev pub vlog_level_emerg : ℕ
vlog_level_emerg = 0

abbrev pub vlog_level_err : ℕ
vlog_level_err = 3

abbrev pub vlog_level_warning : ℕ
vlog_level_warning = 4

abbrev pub vlog_level_info : ℕ
vlog_level_info = 6

abbrev pub vlog_level_debug : ℕ
vlog_level_debug = 7

abbrev pub vlog_level_max : ℕ
vlog_level_max = 8

abbrev pub max_log_len : ℕ
max_log_len = 256

abbrev pub mapt_log_tag : Text
mapt_log_tag = codes "LogTag_UMMU_MAPT"

-- where the call of the macro stands, and what it passes
pub record Call : Type 0 where
  pub function : Text
  pub line : ℕ
  pub format : Text
  pub args : List Arg

-- What a call writes: a line to syslog at a level, or a line on the standard output.
pub data Written : Type 0 where
  syslog : ℕ → Text → Written
  printf : Text → List Arg → Written

unfoldable pub ummu_log_drop : ℕ → ℕ → Bool
ummu_log_drop g_loglevel level = ltb g_loglevel level

-- the format behind the head of the line
abbrev pub new_format : Libc → Call → Option ℕ × Text
new_format c call =
    c.snprintf max_log_len (codes "[%d]%s|%s[%d]|%s")
      (num c.getpid ∷ str mapt_log_tag ∷ str call.function ∷ num call.line ∷ str call.format ∷ [])

-- The function `ummu_log`. Its two buffers have `max_log_len + 1` bytes.
unfoldable pub ummu_log : Libc → ℕ → Call → List Written
ummu_log c level call =
    let (ret, newformat) = new_format c call in
    let (logged, logmsg) = c.snprintf max_log_len newformat call.args in
    elim ret [
      | none ↦ []
      | some n ↦ if leb n 0 || leb (max_log_len + 1) n then [] else elim logged [
        | none ↦
            printf (codes "logmsg size exceeds MAX_LOG_LEN size : %d\n") (num max_log_len ∷ []) ∷ []
        | some _ ↦ syslog level logmsg ∷ []
      ]
    ]

-- The macro `UMMU_LOG`
unfoldable pub log_at : Libc → ℕ → ℕ → Call → List Written
unfolding ummu_log ummu_log_drop
log_at c g_loglevel level call =
    if ummu_log_drop g_loglevel level then [] else ummu_log c level call
