-- ===== src/Log.antt =====
-- The log file of the voice path
-- (addon/extensions/task_force_radio_pipe/src/Voice/Log.cpp). What the system answers is an argument:
-- the environment, whether the file opens, and the local time. A path is a text of its character
-- codes; the result of the CreateDirectoryW calls does not matter, and the write is not looked at.
pub mod Hex
use task_force_radio_standal.Resource.{◌>>=◌, ◌>>◌}
use task_force_radio_standal.Base.{
  ltb, ◌==◌, if◌then◌else◌, length, take, Text, is_empty, ℕ, zero, suc, ◌+◌, ◌-◌, ◌/◌, ◌%◌, Bool,
  not, ◌&&◌, [], ◌∷◌, ◌++◌,
}
use task_force_radio_standal.Resource.{
  log_file, uses, frees, Run, return, say, acquire, given, check,
}

-- `"0123456789ABCDEF"` at a digit.
abbrev pub hex_digit : ℕ → ℕ
hex_digit d = if ltb d 10 then 48 + d else 55 + d

-- So many digits, the highest first.
unfoldable pub hex_digits : ℕ → ℕ → Text
hex_digits zero value = []
hex_digits (suc n) value = hex_digits n (value / 16) ++ hex_digit (value % 16) ∷ []

-- `%08X` of a 32-bit value.
unfoldable pub to_hex : ℕ → Text
unfolding hex_digits
to_hex value = hex_digits 8 value

-- `%02d` and `%04d` of a WORD: at least so many digits, on fuel for the five of a WORD.
unfoldable pub padded : ℕ → ℕ → ℕ → Text
padded zero width value = []
padded (suc fuel) width value =
    if width == 0 && value == 0
    then []
    else padded fuel (width - 1) (value / 10) ++ (48 + value % 10) ∷ []

pub record LocalTime : Type 0 where
  pub year : ℕ
  pub month : ℕ
  pub day : ℕ
  pub hour : ℕ
  pub minute : ℕ
  pub second : ℕ

-- `[%04d-%02d-%02d %02d:%02d:%02d] ` in a buffer of 32 bytes.
unfoldable pub prefix : LocalTime → Text
unfolding padded
prefix t = take 31 (
    91
    ∷ (padded 5 4 t.year
        ++ 45 ∷ padded 5 2 t.month
        ++ 45 ∷ padded 5 2 t.day
        ++ 32 ∷ padded 5 2 t.hour
        ++ 58 ∷ padded 5 2 t.minute
        ++ 58 ∷ padded 5 2 t.second
        ++ 93 ∷ 32 ∷ []))

abbrev pub max_path : ℕ
max_path = 260

-- `\Tfrs`, `\Extension` and `\extension.log`.
abbrev pub tfrs_folder : Text
tfrs_folder = 92 ∷ 84 ∷ 102 ∷ 114 ∷ 115 ∷ []

abbrev pub extension_folder : Text
extension_folder = 92 ∷ 69 ∷ 120 ∷ 116 ∷ 101 ∷ 110 ∷ 115 ∷ 105 ∷ 111 ∷ 110 ∷ []

abbrev pub extension_log : Text
extension_log = 92 ∷ 101 ∷ 120 ∷ 116 ∷ 101 ∷ 110 ∷ 115 ∷ 105 ∷ 111 ∷ 110 ∷ 46 ∷ 108 ∷ 111 ∷ 103 ∷ []

-- What is appended, and to which file; the early return appends nothing. An environment variable that
-- is missing has length 0.
unfoldable pub log_line : Text → Bool → LocalTime → Text → Run (Text × Text)
unfolding prefix
log_line app_data file_opens time message = do
  check (not (is_empty app_data) && ltb (length app_data) max_path) []
  acquire (given file_opens) log_file []
  say (uses log_file ∷ frees log_file ∷ [])
  return (
    app_data ++ tfrs_folder ++ extension_folder ++ extension_log,
    prefix time ++ message ++ 13 ∷ 10 ∷ [],
  )
