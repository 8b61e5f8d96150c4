-- ===== src/Resource/Values.antt =====
-- What code that returns early comes to
-- (addon/extensions/task_force_radio_pipe/src: the functions of Resource's header).
use task_force_radio_standal.Resource.{◌>>=◌}
use task_force_radio_standal.Base.{
  ◌≡◌, refl, sym, ap, ◌∙◌, ◌⊎◌, inl, inr, Bool, true, false, Option, none, some, List,
}
use task_force_radio_standal.Resource.{
  Call, Run, after, ◌>>◌, return, say, check, recover, break_if,
}

pub >>=-value {ℓ κ} :
    {A : Type ℓ} {B : Type κ} (m : Run A) (f : A → Run B) {a : A}
    → m.1 ≡ some a
    → (m >>= f) ≡ after m.0 (f a)
unfolding ◌>>=◌
>>=-value (calls, none) f h = cc
>>=-value (calls, some b) f h = ap (λ a. after calls (f a)) (cc)

pub recover-value {ℓ} : {A : Type ℓ} (a : A) (m : Run A) → (b : A) × ((recover a m).1 ≡ some b)
unfolding recover
recover-value a (calls, none) = (a, refl)
recover-value a (calls, some b) = (b, refl)

break_if-same {ℓ} :
    {A : Type ℓ} (b : Bool) (a : A) (rest rest' : Run A)
    → (b ≡ true) ⊎ (rest ≡ rest')
    → break_if b a rest ≡ break_if b a rest'
unfolding break_if
break_if-same true a rest rest' h = refl
break_if-same false a rest rest' (inl h) = cc
break_if-same false a rest rest' (inr h) = h

-- A loop that is left, or that goes on alike.
pub loop-same {ℓ κ} :
    {A : Type ℓ} {B : Type κ} (m : Run (Bool × B)) (a : A) (f g : B → Run A) {b : Bool} {x : B}
    → m.1 ≡ some (b, x)
    → (b ≡ true) ⊎ (f x ≡ g x)
    → (m >>= λ y. break_if y.0 a (f y.1)) ≡ (m >>= λ y. break_if y.0 a (g y.1))
loop-same m a f g {b = b} {x = x} found h =
    >>=-value m _ found
    ∙ ap (after m.0) (break_if-same b a (f x) (g x) h)
    ∙ sym (>>=-value m _ found)

pub >>=-gives {ℓ κ} :
    {A : Type ℓ} {B : Type κ} (m : Run A) (f : A → Run B) {a : A}
    → m.1 ≡ some a
    → (m >>= f).1 ≡ (f a).1
unfolding after
>>=-gives m f h = ap (λ r. r.1) (>>=-value m f h)

pub say-gives {ℓ} : {B : Type ℓ} (calls : List Call) (k : Run B) → (say calls >> k).1 ≡ k.1
unfolding ◌>>◌ say
say-gives calls k = >>=-gives (say calls) (λ _. k) refl

-- What holds of the value, if there is one.
abbrev pub Holds {ℓ κ} : {A : Type ℓ} → (A → Type κ) → Option A → Type κ
Holds P none = Unit
Holds P (some a) = P a

pub record Gives {ℓ κ} {A : Type ℓ} (P : A → Type κ) (m : Run A) : Type κ where
  pub given : Holds P m.1

pub >>=-Gives {ℓ κ ι} :
    {A : Type ℓ} {B : Type κ} {P : B → Type ι} (m : Run A) {f : A → Run B}
    → ((a : A) → Gives P (f a))
    → Gives P (m >>= f)
unfolding ◌>>=◌ after
>>=-Gives (calls, none) h = record { given = tt }
>>=-Gives (calls, some a) h = record { given = (h a).given }

pub >>-Gives {ℓ κ} :
    {B : Type ℓ} {P : B → Type κ} (m : Run (Unit {0})) {k : Run B} → Gives P k → Gives P (m >> k)
unfolding ◌>>◌
>>-Gives m h = >>=-Gives m λ _. h

-- Behind a check, the check holds.
pub check-Gives {ℓ κ} :
    {B : Type ℓ} {P : B → Type κ} (b : Bool) (cleanup : List Call) {k : Run B}
    → (b ≡ true → Gives P k)
    → Gives P (check b cleanup >> k)
unfolding check
check-Gives true cleanup h = >>-Gives _ (h refl)
check-Gives false cleanup h = unfold ◌>>◌ ◌>>=◌ in (record { given = tt })

pub return-Gives {ℓ κ} : {A : Type ℓ} {P : A → Type κ} (a : A) → P a → Gives P (return a)
unfolding return
return-Gives a h = record { given = h }

pub >>=-none {ℓ κ} :
    {A : Type ℓ} {B : Type κ} (m : Run A) (f : A → Run B) → m.1 ≡ none → (m >>= f).1 ≡ none
unfolding ◌>>=◌
>>=-none (calls, none) f h = refl
>>=-none (calls, some a) f h = cc
