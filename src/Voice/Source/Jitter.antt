-- ===== src/Voice/Source/Jitter.antt =====
-- The jitter buffer of a remote speaker
-- (addon/extensions/task_force_radio_pipe/src/Voice/RemoteVoiceSource.cpp: enqueueOpusFrame,
-- tryProduceNextFrame, chainForPath).
use task_force_radio_standal.Base.{
  ltb, Bool-cases, length, drop, length-append, length-drop, Text, ℕ, suc, ◌+◌, ◌-◌, ◌≤◌, ◌≡◌, refl,
  inl, inr, Bool, true, false, List, [], ◌∷◌, ◌++◌, arith,
}
use task_force_radio_standal.Float.{Float}
use task_force_radio_standal.Voice.Source.{
  PendingFrame, Source, max_queued_frames, drop_oldest, enqueue_opus_frame,
}

one_more :
    (n : ℕ)
    → ltb max_queued_frames (suc n) ≡ true
    → suc n - max_queued_frames ≡ suc (n - max_queued_frames)
one_more n over = ground arith

none_over : (n : ℕ) → ltb max_queued_frames (suc n) ≡ false → suc n - max_queued_frames ≡ 0
none_over n fits = ground arith

drop_oldest-drop : (q : List PendingFrame) → drop_oldest q ≡ drop (length q - max_queued_frames) q
unfolding drop_oldest
drop_oldest-drop [] = refl
drop_oldest-drop (f ∷ q) = elim (Bool-cases (ltb max_queued_frames (length (f ∷ q)))) [
  | inl over ↦ rw over (rw (one_more (length q) over) (drop_oldest-drop q))
  | inr fits ↦ rw (fits, none_over (length q) fits) refl
]

module _ (fl : Float) where
  -- The queue after a frame arrived is the newest ten of the queued frames and it.
  enqueue_opus_frame-newest :
      (opus : Text) (is_last : Bool) (s : Source fl)
      → (enqueue_opus_frame fl opus is_last s).pending
        ≡ drop
            (length s.pending + 1 - 10)
            (s.pending ++ record { opus = opus; is_last = is_last } ∷ [])
  unfolding enqueue_opus_frame
  enqueue_opus_frame-newest opus is_last s =
      let q = s.pending ++ record { opus = opus; is_last = is_last } ∷ [] in
      rw (drop_oldest-drop q)
        (rw (length-append s.pending (record { opus = opus; is_last = is_last } ∷ [])) refl)

  -- However many frames arrive, at most ten are queued.
  pub length-enqueue_opus_frame :
      (opus : Text) (is_last : Bool) (s : Source fl)
      → length (enqueue_opus_frame fl opus is_last s).pending ≤ 10
  length-enqueue_opus_frame opus is_last s =
      let f : PendingFrame = record { opus = opus; is_last = is_last } in
      rw (enqueue_opus_frame-newest opus is_last s) (
        omega (
          arith,
          length-drop (length s.pending + 1 - 10) (s.pending ++ f ∷ []),
          length-append s.pending (f ∷ []),
        ))
