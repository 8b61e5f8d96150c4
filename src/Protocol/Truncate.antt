-- ===== src/Protocol/Truncate.antt =====
-- `truncateUtf8` of Protocol.cpp cuts at the last sequence boundary that fits.
use task_force_radio_standal.Base.{
  ltb, leb, ◌==◌, ltb→lt, lt→ltb, leb→le, ==_iff, Bool-cases, length, get_or, take, length-take,
  take-take, get_or-take, Text, ℕ, zero, suc, ◌-◌, ◌≤◌, ◌<◌, ◌≡◌, refl, ◌∙◌, ◌⊎◌, inl, inr, true,
  false, arith,
}
use task_force_radio_standal.Protocol.{is_continuation, walk_back, truncate_loop, truncate_utf8}

-- Where `truncate_utf8` may cut: the start, or a byte that starts a sequence.
abbrev pub IsBoundary : Text → ℕ → Type 0
IsBoundary s n = (n ≡ 0) ⊎ (is_continuation (get_or s n 0) ≡ false)

pub walk_back-le : (s : Text) (n : ℕ) → walk_back s n ≤ n
unfolding walk_back
walk_back-le s zero = omega arith
walk_back-le s (suc n) = ground (arith, walk_back-le s n)

walk_back-IsBoundary : (s : Text) (n : ℕ) → IsBoundary s (walk_back s n)
unfolding walk_back
walk_back-IsBoundary s zero = inl refl
walk_back-IsBoundary s (suc n) = elim (Bool-cases (is_continuation (get_or s (suc n) 0))) [
  | inl c ↦ rw c (walk_back-IsBoundary s n)
  | inr c ↦ rw c (inr c)
]

-- Between the cut and the start point there are continuation bytes only.
walk_back_skips :
    (s : Text) (n k : ℕ) → walk_back s n < k → k ≤ n → is_continuation (get_or s k 0) ≡ true
unfolding walk_back
walk_back_skips s zero k lo hi = absurd (omega arith)
walk_back_skips s (suc n) k lo hi = elim (Bool-cases (is_continuation (get_or s (suc n) 0))) [
  | inl c ↦ elim (Bool-cases (k == suc n)) [
    | inl e ↦ rw ((==_iff k (suc n)).0 e) c
    | inr e ↦ walk_back_skips s n k (rw (c, walk_back) at lo) (ground arith)
  ]
  | inr c ↦ absurd (ground arith)
]

-- A text that fits is left alone, whatever the fuel.
truncate_loop_fits :
    (fuel : ℕ) (s : Text) (limit : ℕ) → length s ≤ limit → truncate_loop fuel s limit ≡ s
unfolding truncate_loop
truncate_loop_fits zero s limit h = refl
truncate_loop_fits (suc fuel) s limit h = ground arith

-- What the cut at `n` of a text that is longer than `limit` promises.
pub record IsCut (s : Text) (limit n : ℕ) : Type 0 where
  pub fits : n ≤ limit
  pub boundary : IsBoundary s n
  pub longest : (k : ℕ) → n < k → k ≤ limit → is_continuation (get_or s k 0) ≡ true

IsCut-here :
    (s : Text) (limit : ℕ)
    → limit < length s
    → walk_back s (length s - 1) ≤ limit
    → IsCut s limit (walk_back s (length s - 1))
IsCut-here s limit long h = record {
  fits = h;
  boundary = walk_back-IsBoundary s (length s - 1);
  longest = λ k lo hi. walk_back_skips s (length s - 1) k lo (omega arith);
}

-- A cut of a longer prefix is a cut of the text.
IsCut-take : (s : Text) (c limit n : ℕ) → limit < c → IsCut (take c s) limit n → IsCut s limit n
IsCut-take s c limit n h cut = record {
  fits = cut.fits;
  boundary = rw (get_or-take c n s 0 (omega (arith, cut.fits))) at cut.boundary;
  longest = λ k lo hi. rw (get_or-take c k s 0 (omega arith)) at (cut.longest k lo hi);
}

truncate_loop_cuts :
    (fuel : ℕ) (s : Text) (limit : ℕ)
    → length s ≤ fuel
    → limit < length s
    → (n : ℕ) × (truncate_loop fuel s limit ≡ take n s) × IsCut s limit n
unfolding truncate_loop
truncate_loop_cuts zero s limit enough long = absurd (omega arith)
truncate_loop_cuts (suc fuel) s limit enough long =
    let c = walk_back s (length s - 1) in
    let below : c < length s = omega (arith, walk_back-le s (length s - 1)) in
    let size : length (take c s) ≡ c = omega (arith, length-take c s) in
    elim (Bool-cases (ltb limit c)) [
      | inl more ↦
          let deeper : limit < c = ltb→lt limit c more in
          let (n, e, cut) = truncate_loop_cuts fuel (take c s) limit (omega arith) (omega arith) in
          (
            n,
            rw (lt→ltb limit _ long) (e ∙ take-take n c s (omega (arith, cut.fits))),
            IsCut-take s c limit n deeper cut,
          )
      | inr stop ↦
          let fits : c ≤ limit = ground arith in
          (
            c,
            rw (lt→ltb limit _ long) (truncate_loop_fits fuel (take c s) limit (omega arith)),
            IsCut-here s limit long fits,
          )
    ]

-- A text that is no longer than the limit is returned as it is.
pub truncate_utf8_fits : (s : Text) (limit : ℕ) → length s ≤ limit → truncate_utf8 s limit ≡ s
unfolding truncate_utf8
truncate_utf8_fits s limit h = truncate_loop_fits (length s) s limit h

-- A text longer than the limit is cut to a prefix of at most `limit` bytes. The cut never splits a
-- sequence (the first byte that is dropped is no continuation byte, unless nothing is kept), and
-- it is the longest such prefix: every later place up to the limit is inside a sequence.
pub truncate_utf8_cuts :
    (s : Text) (limit : ℕ)
    → limit < length s
    → (n : ℕ) × (truncate_utf8 s limit ≡ take n s) × IsCut s limit n
unfolding truncate_utf8
truncate_utf8_cuts s limit h = truncate_loop_cuts (length s) s limit (omega arith) h

pub length-truncate_utf8 : (s : Text) (limit : ℕ) → length (truncate_utf8 s limit) ≤ limit
length-truncate_utf8 s limit = elim (Bool-cases (leb (length s) limit)) [
  | inl short ↦ rw (truncate_utf8_fits s limit (leb→le _ _ short)) (leb→le _ _ short)
  | inr long ↦
      let (n, e, cut) = truncate_utf8_cuts s limit (ground arith) in
      rw e (omega (arith, length-take n s, cut.fits))
]
