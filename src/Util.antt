-- ===== src/Util.antt =====
-- The string helpers of addon/extensions/task_force_radio_pipe/src/Util.cpp: `split`,
-- `splitLimit`, `isTrue`, `parseArmaNumber`, `parseArmaNumberToInt` and `convertNickname`.
-- A loop keeps the text that it has not reached yet in place of its position.
pub mod Split
pub mod Nickname
use task_force_radio_standal.Base.{
  ltb, leb, ◌==◌, if◌then◌else◌, length, get_or, take, drop, Text, codes, is_empty, text_eq, ℕ,
  zero, suc, Bool, not, ◌&&◌, List, [], ◌∷◌,
}
use task_force_radio_standal.Base.Int.{ℤ}
use task_force_radio_standal.Float.{Float}
use mathlib.Core.List.{reverse}

-- `find_first_of`, and the length where the delimiter is missing.
unfoldable pub find_first_of : Text → ℕ → ℕ
find_first_of [] delim = 0
find_first_of (c ∷ s) delim = if c == delim then 0 else suc (find_first_of s delim)

unfoldable pub split_loop : ℕ → Text → ℕ → List Text
unfolding find_first_of
split_loop zero s delim = []
split_loop (suc fuel) s delim =
    let p = find_first_of s delim in
    let rest = split_loop fuel (drop (suc p) s) delim in
    take p s ∷ (if ltb p (length s) then rest else [])

-- The position grows by one at least, so `length s + 1` rounds are enough.
unfoldable pub split : Text → ℕ → List Text
unfolding split_loop
split s delim = split_loop (suc (length s)) s delim

-- `count` is the number of tokens so far.
unfoldable pub split_limit_loop : ℕ → Text → ℕ → ℕ → ℕ → List Text
unfolding find_first_of
split_limit_loop zero s delim count max_tokens = []
split_limit_loop (suc fuel) s delim count max_tokens =
    let p = find_first_of s delim in
    let rest = split_limit_loop fuel (drop (suc p) s) delim (suc count) max_tokens in
    take p s ∷ (if leb max_tokens (suc count) then [] else if ltb p (length s) then rest else [])

unfoldable pub split_limit : Text → ℕ → ℕ → List Text
unfolding split_limit_loop
split_limit s delim max_tokens =
    if max_tokens == 0 then [] else split_limit_loop (suc (length s)) s delim 0 max_tokens

unfoldable pub is_true : Text → Bool
unfolding text_eq
is_true s =
    if length s == 4 then text_eq s (codes "true") else length s == 1 && get_or s 0 0 == b'1'

abbrev pub front : Text → ℕ
front [] = 0
front (c ∷ s) = c

abbrev pub back : Text → ℕ
back [] = 0
back (c ∷ []) = c
back (c ∷ d ∷ s) = back (d ∷ s)

-- The loop over the leading spaces.
unfoldable pub fill_front : Text → Text
fill_front [] = []
fill_front (c ∷ s) = if c == b' ' then b'_' ∷ fill_front s else c ∷ s

-- The loop over the trailing spaces, which runs from the end.
unfoldable pub fill_back : Text → Text
unfolding fill_front
fill_back s = reverse (fill_front (reverse s))

unfoldable pub convert_nickname : Text → Text
unfolding fill_front fill_back
convert_nickname nickname =
    if is_empty nickname
    then nickname
    else if not (front nickname == b' ') && not (back nickname == b' ')
    then nickname
    else fill_back (fill_front nickname)

module _ (fl : Float) where
  unfoldable pub parse_arma_number : Text → fl.F
  parse_arma_number s = if is_empty s then fl.decimal 0 0 else fl.strtof s

  unfoldable pub parse_arma_number_to_int : Text → ℤ
  unfolding parse_arma_number
  parse_arma_number_to_int s = fl.lround (parse_arma_number s)
