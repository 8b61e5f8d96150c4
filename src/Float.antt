-- ===== src/Float.antt =====
-- `float` and `double` with the C library's functions on them, which are no code of the repository:
-- an interface.
-- Its operations are parameters of the model. What a theorem needs of them stands in a record of
-- laws among its hypotheses.
pub mod Fixed
use task_force_radio_standal.Base.{Text, ℕ, Bool}
use task_force_radio_standal.Base.Int.{ℤ}

pub record Float : Type 1 where
  pub F : Type 0
  -- the literal m / 10 ^ k
  pub decimal : ℕ → ℕ → F
  -- `static_cast<float>` of an integer
  pub of_int : ℤ → F
  -- `static_cast<int>(std::lround(x))`
  pub lround : F → ℤ
  -- `std::strtof(s.c_str(), nullptr)`
  pub strtof : Text → F
  -- `duration<float>(d).count()` of nanoseconds
  pub seconds : ℕ → F
  -- `<`, `<=` and `==`, false at NaN
  pub lt : F → F → Bool
  pub le : F → F → Bool
  pub eq : F → F → Bool
  pub add : F → F → F
  pub sub : F → F → F
  pub mul : F → F → F
  pub div : F → F → F
  pub sqrt : F → F
  pub pow : F → F → F
  pub atan2 : F → F → F
  -- `-x`
  pub neg : F → F
  pub sin : F → F
  pub fabs : F → F
  pub fmod : F → F → F
  -- `static_cast<int>(x)`
  pub trunc : F → ℤ
  -- `double`, and the conversions
  pub D : Type 0
  pub widen : F → D
  pub narrow : D → F
  pub d_decimal : ℕ → ℕ → D
  pub d_of_nat : ℕ → D
  pub d_lt : D → D → Bool
  pub d_neg : D → D
  pub d_add : D → D → D
  pub d_sub : D → D → D
  pub d_mul : D → D → D
  pub d_div : D → D → D
  pub d_sqrt : D → D
  pub d_sin : D → D
  pub d_cos : D → D
  -- `static_cast<size_t>(x)`
  pub d_trunc : D → ℕ
