-- ===== src/Resource/Ownership.antt =====
-- The discipline of resources, and its rules for code that returns early
-- (addon/extensions/task_force_radio_pipe/src: the functions of Resource's header).
use mathlib.Core.Path.{subst}
use task_force_radio_standal.Base.{
  Bool-cases, ◌≡◌, refl, ◌∙◌, inl, inr, Bool, true, false, Option, none, some, List, [], ◌∷◌, ◌++◌,
}
use task_force_radio_standal.Resource.{
  Resource, Call, gets, uses, frees, holds, remove, follow, Run, ◌>>=◌, ◌>>◌, return, say, acquire,
  check, recover, break_if, attempt, of_option,
}

-- Code that is run with `held` makes each call on what it holds: it leaves `held'` behind, or `left`
-- where it returns early.
pub record Runs {ℓ} {A : Type ℓ} (left held : List Resource) (m : Run A) (held' : List Resource)
    : Type 0 where
  pub follows : follow m.0 held ≡ some (elim m.1 [ none ↦ left | some a ↦ held' ])

follow-append :
    (calls more : List Call) (held : List Resource)
    → follow (calls ++ more) held
      ≡ (elim (follow calls held) [ none ↦ none | some held' ↦ follow more held' ])
unfolding follow
follow-append [] more held = refl
follow-append (gets r ∷ calls) more held = follow-append calls more (r ∷ held)
follow-append (uses r ∷ calls) more held = elim (Bool-cases (holds r held)) [
  | inl there ↦ rw there (follow-append calls more held)
  | inr gone ↦ rw gone refl
]
follow-append (frees r ∷ calls) more held = elim (Bool-cases (holds r held)) [
  | inl there ↦ rw there (follow-append calls more (remove r held))
  | inr gone ↦ rw gone refl
]

pub follow-then :
    (calls more : List Call) (held held' : List Resource)
    → follow calls held ≡ some held'
    → follow (calls ++ more) held ≡ follow more held'
follow-then calls more held held' h = rw (follow-append calls more held, h) refl

pub >>=-Runs {ℓ κ} :
    {A : Type ℓ} {B : Type κ} {m : Run A} {f : A → Run B} {left held held' held'' : List Resource}
    → Runs left held m held'
    → ((a : A) → Runs left held' (f a) held'')
    → Runs left held (m >>= f) held''
unfolding ◌>>=◌
>>=-Runs {m = (calls, none)} h k = record { follows = h.follows }
>>=-Runs {m = (calls, some a)} {f = f} {held = held} {held' = held'} h k = record {
  follows = follow-then calls (f a).0 held held' h.follows ∙ (k a).follows;
}

pub >>-Runs {ℓ} :
    {B : Type ℓ} {m : Run (Unit {0})} {k : Run B} {left held held' held'' : List Resource}
    → Runs left held m held'
    → Runs left held' k held''
    → Runs left held (m >> k) held''
unfolding ◌>>◌
>>-Runs h k = >>=-Runs h λ _. k

pub say-Runs :
    (calls : List Call) {left held held' : List Resource}
    → follow calls held ≡ some held'
    → Runs left held (say calls) held'
unfolding say
say-Runs calls h = record { follows = h }

pub return-Runs {ℓ} :
    {A : Type ℓ} (a : A) {left held : List Resource} → Runs left held (return a) held
unfolding return follow
return-Runs a = record { follows = refl }

-- Where a call may fail, what is left behind is left by the clean-up.
pub acquire-Runs {ℓ} :
    {A : Type ℓ} (o : Option A) {r : Resource} (cleanup : List Call) {left held : List Resource}
    → follow cleanup held ≡ some left
    → Runs left held (acquire o r cleanup) (r ∷ held)
unfolding acquire follow
acquire-Runs none cleanup h = record { follows = h }
acquire-Runs (some a) cleanup h = record { follows = refl }

pub check-Runs :
    (b : Bool) (cleanup : List Call) {left held : List Resource}
    → follow cleanup held ≡ some left
    → Runs left held (check b cleanup) held
unfolding check follow
check-Runs true cleanup h = record { follows = refl }
check-Runs false cleanup h = record { follows = h }

pub break_if-Runs {ℓ} :
    {A : Type ℓ} (b : Bool) (a : A) {rest : Run A} {left held : List Resource}
    → Runs left held rest held
    → Runs left held (break_if b a rest) held
unfolding break_if
break_if-Runs true a h = return-Runs a
break_if-Runs false a h = h

pub recover-Runs {ℓ} :
    {A : Type ℓ} (a : A) {m : Run A} {left held held' : List Resource}
    → Runs held' held m held'
    → Runs left held (recover a m) held'
unfolding recover
recover-Runs a {m = (calls, none)} h = record { follows = h.follows }
recover-Runs a {m = (calls, some b)} h = record { follows = h.follows }

pub attempt-Runs {ℓ} :
    {A : Type ℓ} {m : Run A} {left held held' : List Resource}
    → Runs held' held m held'
    → Runs left held (attempt m) held'
unfolding attempt
attempt-Runs {m = (calls, none)} h = record { follows = h.follows }
attempt-Runs {m = (calls, some a)} h = record { follows = h.follows }

pub calls-Runs {ℓ} :
    {A : Type ℓ} {a : A} {calls : List Call} {left held held' : List Resource}
    → follow calls held ≡ some held'
    → Runs left held (calls, some a) held'
calls-Runs h = record { follows = h }

-- The same, where the value is known.
pub value-Runs {ℓ κ} :
    {A : Type ℓ} {B : Type κ} (m : Run A) (a : A) (f : A → Run B)
    {left held held' held'' : List Resource}
    → m.1 ≡ some a
    → follow m.0 held ≡ some held'
    → Runs left held' (f a) held''
    → Runs left held (m >>= f) held''
unfolding ◌>>=◌
value-Runs (calls, none) a f e k h = cc
value-Runs (calls, some b) a f {left = left} {held = held} {held' = held'} {held'' = held''} e k h =
    let same : a ≡ b = cc in
    let h' = subst (λ x. Runs left held' (f x) held'') same h in
    record { follows = follow-then calls (f b).0 held held' k ∙ h'.follows }

pub of_option-Runs {ℓ} :
    {A : Type ℓ} (o : Option A) {held : List Resource} → Runs held held (of_option o) held
unfolding of_option follow
of_option-Runs none = record { follows = refl }
of_option-Runs (some a) = record { follows = refl }

-- What was held is held again, and nothing else.
abbrev pub IsClean {ℓ} : {A : Type ℓ} → List Resource → Run A → Type 0
IsClean held m = follow m.0 held ≡ some held

pub Runs-IsClean {ℓ} :
    {A : Type ℓ} {m : Run A} {held : List Resource} → Runs held held m held → IsClean held m
Runs-IsClean {m = (calls, none)} h = h.follows
Runs-IsClean {m = (calls, some a)} h = h.follows
