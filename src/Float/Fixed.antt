-- ===== src/Float/Fixed.antt =====
-- A concrete `Float` for examples: thousandths, with NaN, for both widths. `pow` is that of whole
-- exponents, `atan2` knows only the half plane, and `sin` and `cos` are their first two terms.
use task_force_radio_standal.Base.{
  ltb, leb, ◌==◌, if◌then◌else◌, Text, ℕ, zero, suc, ◌+◌, ◌-◌, ◌*◌, ◌/◌, ◌%◌, ◌^◌, Bool, true,
  false, not, ◌&&◌, [], ◌∷◌,
}
use task_force_radio_standal.Base.Int.{ℤ, pos, negsuc, pos_part, neg_part, ltb_ℤ, leb_ℤ, eqb_ℤ}
use task_force_radio_standal.Float.{Float}

pub data Fixed : Type 0 where
  nan : Fixed
  milli : ℤ → Fixed

abbrev pub whole : ℕ → Fixed
whole n = milli (pos (n * 1000))

abbrev signed : Bool → ℕ → ℤ
signed false n = pos n
signed true zero = pos 0
signed true (suc n) = negsuc n

abbrev negative : ℤ → Bool
negative (pos n) = false
negative (negsuc n) = true

abbrev size : ℤ → ℕ
size a = pos_part a + neg_part a

abbrev difference : ℕ → ℕ → ℤ
difference a b = if leb b a then pos (a - b) else negsuc (b - a - 1)

abbrev differ : Bool → Bool → Bool
differ true b = not b
differ false b = b

abbrev lift : (ℤ → ℤ → Fixed) → Fixed → Fixed → Fixed
lift f (milli a) (milli b) = f a b
lift f _ _ = nan

abbrev test : (ℤ → ℤ → Bool) → Fixed → Fixed → Bool
test f (milli a) (milli b) = f a b
test f _ _ = false

abbrev pub fixed_lt : Fixed → Fixed → Bool
fixed_lt = test ltb_ℤ

abbrev pub fixed_le : Fixed → Fixed → Bool
fixed_le = test leb_ℤ

abbrev pub fixed_eq : Fixed → Fixed → Bool
fixed_eq = test eqb_ℤ

abbrev pub fixed_add : Fixed → Fixed → Fixed
fixed_add = lift λ a b. milli (difference (pos_part a + pos_part b) (neg_part a + neg_part b))

abbrev pub fixed_sub : Fixed → Fixed → Fixed
fixed_sub = lift λ a b. milli (difference (pos_part a + neg_part b) (neg_part a + pos_part b))

abbrev pub fixed_mul : Fixed → Fixed → Fixed
fixed_mul = lift λ a b. milli (signed (differ (negative a) (negative b)) (size a * size b / 1000))

abbrev pub fixed_div : Fixed → Fixed → Fixed
fixed_div = lift λ a b.
    if size b == 0
    then nan
    else milli (signed (differ (negative a) (negative b)) (size a * 1000 / size b))

-- Newton's iteration downwards.
root_loop : ℕ → ℕ → ℕ → ℕ
root_loop zero n x = x
root_loop (suc fuel) n x =
    let y = (x + n / x) / 2 in let next = root_loop fuel n y in if ltb y x then next else x

unfoldable pub fixed_sqrt : Fixed → Fixed
unfolding root_loop
fixed_sqrt nan = nan
fixed_sqrt (milli (pos n)) = milli (pos (root_loop 64 (n * 1000) (n * 1000 + 1)))
fixed_sqrt (milli (negsuc n)) = nan

power : ℕ → Fixed → Fixed
power zero x = whole 1
power (suc n) x = fixed_mul x (power n x)

unfoldable pub fixed_pow : Fixed → Fixed → Fixed
unfolding power
fixed_pow x (milli (pos n)) = power (n / 1000) x
fixed_pow x _ = whole 0

abbrev pub fixed_atan2 : Fixed → Fixed → Fixed
fixed_atan2 y x = if fixed_lt y (whole 0) then milli (negsuc 1569) else milli (pos 1570)

abbrev is_digit : ℕ → Bool
is_digit c = leb b'0' c && leb c b'9'

-- Up to three digits behind the point.
fraction : ℕ → ℕ → Text → ℕ
fraction zero n s = n
fraction (suc places) n [] = fraction places (n * 10) []
fraction (suc places) n (c ∷ s) =
    if is_digit c then fraction places (n * 10 + (c - b'0')) s else n * 10 ^ suc places

magnitude : ℕ → Text → ℕ
unfolding fraction
magnitude n [] = n * 1000
magnitude n (c ∷ s) =
    let more = magnitude (n * 10 + (c - b'0')) s in
    if is_digit c then more else if c == b'.' then fraction 3 n s else n * 1000

unfoldable pub fixed_strtof : Text → Fixed
unfolding magnitude
fixed_strtof [] = whole 0
fixed_strtof (c ∷ s) =
    if c == b'-' then milli (signed true (magnitude 0 s)) else milli (pos (magnitude 0 (c ∷ s)))

abbrev pub fixed_lround : Fixed → ℤ
fixed_lround nan = pos 0
fixed_lround (milli a) = signed (negative a) ((size a + 500) / 1000)

abbrev pub fixed_of_int : ℤ → Fixed
fixed_of_int (pos n) = whole n
fixed_of_int (negsuc n) = milli (signed true (suc n * 1000))

abbrev pub fixed_abs : Fixed → Fixed
fixed_abs nan = nan
fixed_abs (milli a) = milli (pos (size a))

abbrev pub fixed_neg : Fixed → Fixed
fixed_neg = fixed_sub (whole 0)

-- The quotient is rounded towards zero.
abbrev pub fixed_fmod : Fixed → Fixed → Fixed
fixed_fmod = lift λ a b. if size b == 0 then nan else milli (signed (negative a) (size a % size b))

abbrev pub fixed_trunc : Fixed → ℤ
fixed_trunc nan = pos 0
fixed_trunc (milli a) = signed (negative a) (size a / 1000)

abbrev pub fixed_size : Fixed → ℕ
fixed_size nan = 0
fixed_size (milli a) = pos_part a / 1000

abbrev pub fixed_sin : Fixed → Fixed
fixed_sin x = fixed_sub x (fixed_div (fixed_mul x (fixed_mul x x)) (whole 6))

abbrev pub fixed_cos : Fixed → Fixed
fixed_cos x = fixed_sub (whole 1) (fixed_div (fixed_mul x x) (whole 2))

abbrev pub fixed_float : Float
fixed_float = record {
  F = Fixed;
  decimal = λ m k. milli (pos (m * 1000 / 10 ^ k));
  of_int = fixed_of_int;
  lround = fixed_lround;
  strtof = fixed_strtof;
  seconds = λ n. milli (pos (n / 1000000));
  lt = fixed_lt;
  le = fixed_le;
  eq = fixed_eq;
  add = fixed_add;
  sub = fixed_sub;
  mul = fixed_mul;
  div = fixed_div;
  sqrt = fixed_sqrt;
  pow = fixed_pow;
  atan2 = fixed_atan2;
  neg = fixed_neg;
  sin = fixed_sin;
  fabs = fixed_abs;
  fmod = fixed_fmod;
  trunc = fixed_trunc;
  D = Fixed;
  widen = λ x. x;
  narrow = λ x. x;
  d_decimal = λ m k. milli (pos (m * 1000 / 10 ^ k));
  d_of_nat = whole;
  d_lt = fixed_lt;
  d_neg = fixed_neg;
  d_add = fixed_add;
  d_sub = fixed_sub;
  d_mul = fixed_mul;
  d_div = fixed_div;
  d_sqrt = fixed_sqrt;
  d_sin = fixed_sin;
  d_cos = fixed_cos;
  d_trunc = fixed_size;
}
