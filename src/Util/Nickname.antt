-- ===== src/Util/Nickname.antt =====
-- `convertNickname` of Util.cpp: the converted name is a fixed point.
use task_force_radio_standal.Base.{
  ◌==◌, Bool-cases, length, length-append, Text, is_empty, ℕ, ◌≡◌, refl, sym, ap, ◌∙◌, ◌⊎◌, inl,
  inr, false, List, [], ◌∷◌, ◌++◌, arith,
}
use task_force_radio_standal.Util.{front, back, fill_front, fill_back, convert_nickname}
use mathlib.Core.List.{reverse, reverse-append, reverse-reverse}

length-fill_front : (s : Text) → length (fill_front s) ≡ length s
unfolding fill_front
length-fill_front [] = refl
length-fill_front (c ∷ s) = ground (arith, length-fill_front s)

length-reverse {ℓ} : {A : Type ℓ} (s : List A) → length (reverse s) ≡ length s
length-reverse [] = refl
length-reverse (c ∷ s) =
    rw (reverse-append (c ∷ []) s)
      (omega (arith, length-append (reverse s) (c ∷ []), length-reverse s))

front-fill_front : (s : Text) → (front (fill_front s) == b' ') ≡ false
unfolding fill_front
front-fill_front [] = refl
front-fill_front (c ∷ s) = ground arith

back-fill_front : (s : Text) → (back s == b' ') ≡ false → (back (fill_front s) == b' ') ≡ false
unfolding fill_front
back-fill_front [] h = h
back-fill_front (c ∷ []) h = ground arith
back-fill_front (c ∷ d ∷ s) h = ground (arith, back-fill_front (d ∷ s) h)

back-append : (s : Text) (c : ℕ) → back (s ++ c ∷ []) ≡ c
back-append [] c = refl
back-append (d ∷ []) c = refl
back-append (d ∷ e ∷ s) c = back-append (e ∷ s) c

back-reverse : (s : Text) → back (reverse s) ≡ front s
back-reverse [] = refl
back-reverse (c ∷ s) = rw (reverse-append (c ∷ []) s) (back-append (reverse s) c)

front-reverse : (s : Text) → front (reverse s) ≡ back s
front-reverse s = sym (back-reverse (reverse s)) ∙ ap back (reverse-reverse s)

front-fill_back : (s : Text) → (front s == b' ') ≡ false → (front (fill_back s) == b' ') ≡ false
unfolding fill_back
front-fill_back s h = rw front-reverse (back-fill_front (reverse s) (rw back-reverse h))

back-fill_back : (s : Text) → (back (fill_back s) == b' ') ≡ false
unfolding fill_back
back-fill_back s = rw back-reverse (front-fill_front (reverse s))

length-fill_back : (s : Text) → length (fill_back s) ≡ length s
unfolding fill_back
length-fill_back s =
    length-reverse (fill_front (reverse s)) ∙ length-fill_front (reverse s) ∙ length-reverse s

-- No space at either end.
abbrev pub IsTrimmed : Text → Type 0
IsTrimmed s = ((front s == b' ') ≡ false) × ((back s == b' ') ≡ false)

convert_nickname_cases :
    (s : Text)
    → (IsTrimmed s × (convert_nickname s ≡ s)) ⊎ (convert_nickname s ≡ fill_back (fill_front s))
unfolding convert_nickname
convert_nickname_cases [] = inl ((refl, refl), refl)
convert_nickname_cases (c ∷ s) = elim (Bool-cases (c == b' ')) [
  | inl e ↦ inr (ground arith)
  | inr e ↦ elim (Bool-cases (back (c ∷ s) == b' ')) [
    | inl d ↦ inr (ground arith)
    | inr d ↦ inl ((e, d), ground arith)
  ]
]

-- A converted name neither begins nor ends with a space, and is as long as the name was.
convert_nickname-IsTrimmed :
    (s : Text) → IsTrimmed (convert_nickname s) × (length (convert_nickname s) ≡ length s)
convert_nickname-IsTrimmed s = elim (convert_nickname_cases s) [
  | inl (trimmed, e) ↦ rw e (trimmed, refl)
  | inr e ↦ rw e (
    (front-fill_back (fill_front s) (front-fill_front s), back-fill_back (fill_front s)),
    length-fill_back (fill_front s) ∙ length-fill_front s,
  )
]

convert_nickname_trimmed : (s : Text) → IsTrimmed s → convert_nickname s ≡ s
unfolding convert_nickname
convert_nickname_trimmed [] h = refl
convert_nickname_trimmed (c ∷ s) h = ground arith

-- Converting twice is converting once, so every handler looks a player up under the same name.
convert_nickname_idem : (s : Text) → convert_nickname (convert_nickname s) ≡ convert_nickname s
convert_nickname_idem s =
    convert_nickname_trimmed (convert_nickname s) (convert_nickname-IsTrimmed s).0

-- An empty name stays empty, and no other name becomes empty.
pub convert_nickname-empty : (s : Text) → is_empty (convert_nickname s) ≡ is_empty s
convert_nickname-empty s = is_empty-length (convert_nickname s) s (convert_nickname-IsTrimmed s).1
  where
    is_empty-length : (s t : Text) → length s ≡ length t → is_empty s ≡ is_empty t
    is_empty-length [] [] h = refl
    is_empty-length [] (c ∷ t) h = absurd (omega arith)
    is_empty-length (c ∷ s) [] h = absurd (omega arith)
    is_empty-length (c ∷ s) (d ∷ t) h = refl
