-- ===== src/Log/Hex.antt =====
-- What the log says
-- (addon/extensions/task_force_radio_pipe/src/Voice/Log.cpp).
use task_force_radio_standal.Base.{
  ltb, if◌then◌else◌, length, length-append, Text, ℕ, zero, suc, ◌+◌, ◌-◌, ◌*◌, ◌/◌, ◌%◌, ◌^◌, ◌<◌,
  ◌≡◌, refl, ◌∙◌, Bool, List, [], ◌∷◌, ◌++◌, arith,
}
use task_force_radio_standal.Resource.{Resource, follow}
use task_force_radio_standal.Resource.Ownership.{
  >>-Runs, say-Runs, return-Runs, acquire-Runs, check-Runs, IsClean, Runs-IsClean,
}
use task_force_radio_standal.Log.{hex_digit, hex_digits, to_hex, LocalTime, log_line}

-- A digit, and a number, as they are read.
abbrev pub digit_value : ℕ → ℕ
digit_value c = if ltb c 65 then c - 48 else c - 55

unfoldable pub read_hex : ℕ → Text → ℕ
read_hex sum [] = sum
read_hex sum (c ∷ cs) = read_hex (sum * 16 + digit_value c) cs

digit_value-hex_digit : (d : ℕ) → d < 16 → digit_value (hex_digit d) ≡ d
digit_value-hex_digit d h = ground arith

read_hex-append : (sum : ℕ) (xs ys : Text) → read_hex sum (xs ++ ys) ≡ read_hex (read_hex sum xs) ys
unfolding read_hex
read_hex-append sum [] ys = refl
read_hex-append sum (x ∷ xs) ys = read_hex-append (sum * 16 + digit_value x) xs ys

read_hex-hex_digits : (n value : ℕ) → value < 16 ^ n → read_hex 0 (hex_digits n value) ≡ value
unfolding hex_digits read_hex
read_hex-hex_digits zero value h = omega (arith, h)
read_hex-hex_digits (suc n) value h =
    let high = read_hex-hex_digits n (value / 16) (omega (arith, h)) in
    let low = digit_value-hex_digit (value % 16) (omega arith) in
    read_hex-append 0 (hex_digits n (value / 16)) (hex_digit (value % 16) ∷ [])
    ∙ rw (high, low) (omega arith)

length-hex_digits : (n value : ℕ) → length (hex_digits n value) ≡ n
unfolding hex_digits
length-hex_digits zero value = refl
length-hex_digits (suc n) value = omega (
  arith,
  length-append (hex_digits n (value / 16)) (hex_digit (value % 16) ∷ []),
  length-hex_digits n (value / 16),
)

-- An error code of 32 bits is logged as eight digits, from which it is read back.
pub read_hex-to_hex :
    (value : ℕ) → value < 2 ^ 32 → (read_hex 0 (to_hex value) ≡ value) × (length (to_hex value) ≡ 8)
unfolding to_hex
read_hex-to_hex value h =
    (read_hex-hex_digits 8 value (omega (arith, h)), length-hex_digits 8 value)

-- The log file is closed behind every line, and nothing is closed that did not open.
log_line-IsClean :
    (app_data : Text) (file_opens : Bool) (time : LocalTime) (message : Text) (held : List Resource)
    → IsClean held (log_line app_data file_opens time message)
unfolding log_line follow
log_line-IsClean app_data file_opens time message held = Runs-IsClean (
    >>-Runs (check-Runs _ _ refl)
      (>>-Runs (acquire-Runs _ _ refl) (>>-Runs (say-Runs _ refl) (return-Runs _))))
