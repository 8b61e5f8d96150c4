-- ===== src/Util/Split.antt =====
-- `split` and `splitLimit` of Util.cpp against plain descriptions of what they return.
use task_force_radio_standal.Base.{
  ◌==◌, if◌then◌else◌, ==_iff, Bool-cases, length, take, drop, All, Text, ℕ, zero, suc, ◌+◌, ◌<◌,
  ◌≡◌, refl, sym, ap, ◌∙◌, inl, inr, true, false, List, [], ◌∷◌, ◌++◌, arith,
}
use task_force_radio_standal.Util.{find_first_of, split_loop, split, split_limit_loop, split_limit}

abbrev prepend : ℕ → List Text → List Text
prepend c [] = (c ∷ []) ∷ []
prepend c (p ∷ ps) = (c ∷ p) ∷ ps

-- The pieces between the delimiters, by recursion on the text.
pub pieces : Text → ℕ → List Text
pieces [] delim = [] ∷ []
pieces (c ∷ s) delim = if c == delim then [] ∷ pieces s delim else prepend c (pieces s delim)

split_loop_skips :
    (fuel c delim : ℕ) (s : Text)
    → (c == delim) ≡ false
    → split_loop (suc fuel) (c ∷ s) delim ≡ prepend c (split_loop (suc fuel) s delim)
unfolding split_loop
split_loop_skips fuel c delim s h = ground arith

split_loop_hits :
    (fuel c delim : ℕ) (s : Text)
    → (c == delim) ≡ true
    → split_loop (suc (suc fuel)) (c ∷ s) delim ≡ [] ∷ split_loop (suc fuel) s delim
unfolding split_loop
split_loop_hits fuel c delim s h = ground arith

split_loop-pieces :
    (s : Text) (fuel delim : ℕ)
    → length s < suc fuel
    → split_loop (suc fuel) s delim ≡ pieces s delim
unfolding pieces
split_loop-pieces [] fuel delim h = unfold split_loop in refl
split_loop-pieces (c ∷ s) zero delim h = absurd (omega arith)
split_loop-pieces (c ∷ s) (suc fuel) delim h = elim (Bool-cases (c == delim)) [
  | inl e ↦ rw e (
      split_loop_hits fuel c delim s e
      ∙ ap (λ l. [] ∷ l) (split_loop-pieces s fuel delim (omega arith)))
  | inr e ↦ rw e (
      split_loop_skips (suc fuel) c delim s e
      ∙ ap (prepend c) (split_loop-pieces s (suc fuel) delim (omega arith)))
]

pub split-pieces : (s : Text) (delim : ℕ) → split s delim ≡ pieces s delim
unfolding split
split-pieces s delim = split_loop-pieces s (length s) delim (omega arith)

-- The tokens with the delimiter between them.
abbrev pub join : List Text → ℕ → Text
join [] delim = []
join (p ∷ []) delim = p
join (p ∷ q ∷ ps) delim = p ++ delim ∷ join (q ∷ ps) delim

abbrev pub Lacks : ℕ → Text → Type 0
Lacks delim = All (λ c. (c == delim) ≡ false)

pieces_cons : (s : Text) (delim : ℕ) → (p : Text) × (ps : List Text) × (pieces s delim ≡ p ∷ ps)
unfolding pieces
pieces_cons [] delim = ([], [], refl)
pieces_cons (c ∷ s) delim = elim (Bool-cases (c == delim)) [
  | inl e ↦ ([], pieces s delim, rw e)
  | inr e ↦ let (p, ps, h) = pieces_cons s delim in (c ∷ p, ps, rw (e, h))
]

join-prepend :
    (c delim : ℕ) (p : Text) (ps : List Text)
    → join (prepend c (p ∷ ps)) delim ≡ c ∷ join (p ∷ ps) delim
join-prepend c delim p [] = refl
join-prepend c delim p (q ∷ ps) = refl

join-pieces : (s : Text) (delim : ℕ) → join (pieces s delim) delim ≡ s
unfolding pieces
join-pieces [] delim = refl
join-pieces (c ∷ s) delim =
    let (p, ps, h) = pieces_cons s delim in
    let ih : join (p ∷ ps) delim ≡ s = ap (λ l. join l delim) (sym h) ∙ join-pieces s delim in
    elim (Bool-cases (c == delim)) [
      | inl e ↦ rw (e, h) (ap (λ t. delim ∷ t) ih ∙ ap (λ d. d ∷ s) (sym ((==_iff c delim).0 e)))
      | inr e ↦ rw (e, h) (join-prepend c delim p ps ∙ ap (λ t. c ∷ t) ih)
    ]

pieces-Lacks : (s : Text) (delim : ℕ) → All (Lacks delim) (pieces s delim)
unfolding pieces
pieces-Lacks [] delim = (tt, tt)
pieces-Lacks (c ∷ s) delim =
    let (p, ps, h) = pieces_cons s delim in
    let ih : All (Lacks delim) (p ∷ ps) = rw h at (pieces-Lacks s delim) in
    elim (Bool-cases (c == delim)) [
      | inl e ↦ rw (e, h) (tt, ih)
      | inr e ↦ rw (e, h) ((e, ih.0), ih.1)
    ]

-- `split` returns the tokens that give the text back when they are joined by the delimiter, and
-- no token holds the delimiter. Empty tokens are kept.
pub join-split :
    (s : Text) (delim : ℕ) → (join (split s delim) delim ≡ s) × All (Lacks delim) (split s delim)
join-split s delim = rw (split-pieces s delim) (join-pieces s delim, pieces-Lacks s delim)

split_limit_loop-take :
    (fuel : ℕ) (s : Text) (delim count left : ℕ)
    → split_limit_loop fuel s delim count (count + suc left)
      ≡ take (suc left) (split_loop fuel s delim)
unfolding split_limit_loop split_loop
split_limit_loop-take zero s delim count left = refl
split_limit_loop-take (suc fuel) s delim count zero = ground arith
split_limit_loop-take (suc fuel) s delim count (suc left) =
    let shift : count + suc (suc left) ≡ suc count + suc left = omega arith in
    ground (
      arith,
      shift,
      split_limit_loop-take fuel (drop (suc (find_first_of s delim)) s) delim (suc count) left,
    )

-- `splitLimit` returns the first `max_tokens` tokens of `split`: the last one stops at the next
-- delimiter and does not hold the remainder.
pub split_limit-take :
    (s : Text) (delim max_tokens : ℕ)
    → split_limit s delim max_tokens ≡ take max_tokens (split s delim)
unfolding split_limit split
split_limit-take s delim zero = refl
split_limit-take s delim (suc n) =
    ground (arith, split_limit_loop-take (suc (length s)) s delim 0 n)
