-- ===== src/Voice/Source/Talkspurt.antt =====
-- The talkspurt and the concealment of lost frames
-- (addon/extensions/task_force_radio_pipe/src/Voice/RemoteVoiceSource.cpp: tryProduceNextFrame):
-- runs of the render loop's calls.
use task_force_radio_standal.Base.{
  ltb, leb, if◌then◌else◌, Bool-cases, length, any, is_empty, ℕ, zero, suc, ◌+◌, ◌-◌, ◌≡◌, refl,
  sym, ap, inl, inr, Bool, true, false, not, ◌&&◌, ◌||◌, List, [], ◌∷◌, ◌++◌, arith,
}
use task_force_radio_standal.Float.{Float}
use task_force_radio_standal.Voice.Source.{
  PendingFrame, packet, packet_loss, Source, max_concealment_frames, frame_is_last, audible_paths,
}
use task_force_radio_standal.Voice.Source.Mixdown.{Codec, mix_frame}
use task_force_radio_standal.Voice.Source.Frames.{
  drain, conceal, play_or_wait, produce, try_produce_next_frame,
}
use Prim.Native.Nat.{min}
use mathlib.Core.Path.{subst}

any_later : (b : Bool) {rest : Bool} → rest ≡ true → elim b [ true ↦ true | false ↦ rest ] ≡ true
any_later true later = refl
any_later false later = later

-- With an end of talkspurt among the frames at hand, the cushion is not waited for.
no_wait :
    (playing few last later : Bool)
    → elim last [ true ↦ true | false ↦ later ] ≡ true
    → not playing && few && not (last || later) ≡ false
no_wait true few last later h = refl
no_wait false false last later h = refl
no_wait false true true later h = refl
no_wait false true false later h = rw h refl

module _ (fl : Float) (codec : Codec fl) where
  -- The number of fresh frames that `n` calls give, and the source behind them.
  unfoldable pub try_times : ℕ → Source fl → ℕ × Source fl
  try_times zero s = (0, s)
  try_times (suc n) s =
      let (fresh, s') = try_produce_next_frame fl codec s in
      let (count, s'') = try_times n s' in (if fresh then suc count else count, s'')

  -- A source that no path makes audible gives no frame, whatever is queued; the queue is emptied
  -- and the talkspurt is over.
  muted_source_is_silent :
      (s : Source fl)
      → audible_paths fl s.states ≡ []
      → ((try_produce_next_frame fl codec s).0 ≡ false)
        × ((try_produce_next_frame fl codec s).1.pending ≡ [])
        × ((try_produce_next_frame fl codec s).1.is_playing ≡ false)
  unfolding try_produce_next_frame drain
  muted_source_is_silent s muted = rw muted (refl, refl, refl)

  any_last :
      (frames : List PendingFrame) (f : PendingFrame)
      → f.is_last ≡ true
      → any frame_is_last (frames ++ f ∷ []) ≡ true
  any_last [] f last = rw last refl
  any_last (g ∷ frames) f last = any_later g.is_last (any_last frames f last)

  plays : Source fl → PendingFrame → List PendingFrame → Source fl
  plays s f rest =
      mix_frame fl codec (packet f.opus)
        (record s { pending = rest; is_playing = not f.is_last; concealment_count = 0 })

  play_or_wait-plays :
      (f : PendingFrame) (rest : List PendingFrame) (s : Source fl)
      → any frame_is_last (f ∷ rest) ≡ true
      → play_or_wait fl codec f rest s ≡ (true, plays s f rest)
  unfolding play_or_wait plays
  play_or_wait-plays f rest s last =
      rw (no_wait s.is_playing (ltb (length rest) 3) f.is_last (any frame_is_last rest) last) refl

  -- A call on a source that some path makes audible.
  try-audible :
      (s : Source fl)
      → is_empty (audible_paths fl s.states) ≡ false
      → try_produce_next_frame fl codec s
        ≡ produce fl codec s.pending (record s { render_states = audible_paths fl s.states })
  unfolding try_produce_next_frame
  try-audible s heard = rw heard refl

  try-plays :
      (s : Source fl) (f : PendingFrame) (rest : List PendingFrame)
      → is_empty (audible_paths fl s.states) ≡ false
      → s.pending ≡ f ∷ rest
      → any frame_is_last (f ∷ rest) ≡ true
      → try_produce_next_frame fl codec s
        ≡ (true, plays (record s { render_states = audible_paths fl s.states }) f rest)
  unfolding produce
  try-plays s f rest heard queued last =
      let s' : Source fl = record s { render_states = audible_paths fl s.states } in
      let at_head = ap (λ q. produce fl codec q s') queued in
      let played = play_or_wait-plays f rest s' last in rw (try-audible s heard, at_head) played

  try_times-fresh :
      (n : ℕ) (s s' : Source fl)
      → try_produce_next_frame fl codec s ≡ (true, s')
      → try_times (suc n) s ≡ (suc (try_times n s').0, (try_times n s').1)
  unfolding try_times
  try_times-fresh n s s' e = rw e refl

  try_times-stale :
      (n : ℕ) (s s' : Source fl)
      → try_produce_next_frame fl codec s ≡ (false, s')
      → try_times (suc n) s ≡ try_times n s'
  unfolding try_times
  try_times-stale n s s' e = rw e refl

  abbrev PlayedOut : ℕ → ℕ × Source fl → Type 0
  PlayedOut n r = (r.0 ≡ n) × (r.1.pending ≡ []) × (r.1.is_playing ≡ false)

  frames_play_out :
      (frames : List PendingFrame) (f : PendingFrame) (s : Source fl)
      → f.is_last ≡ true
      → s.pending ≡ frames ++ f ∷ []
      → is_empty (audible_paths fl s.states) ≡ false
      → let n = length (frames ++ f ∷ []) in PlayedOut n (try_times n s)
  unfolding plays mix_frame
  frames_play_out [] f s last queued heard =
      let s' : Source fl = record s { render_states = audible_paths fl s.states } in
      let played = try-plays s f [] heard queued (rw last refl) in
      subst (PlayedOut 1) (sym (try_times-fresh 0 s (plays s' f []) played))
        (unfold try_times in (refl, refl, rw last refl))
  frames_play_out (g ∷ frames) f s last queued heard =
      let s' : Source fl = record s { render_states = audible_paths fl s.states } in
      let rest = frames ++ f ∷ [] in
      let n = length rest in
      let played = try-plays s g rest heard queued (any_later g.is_last (any_last frames f last)) in
      let later = frames_play_out frames f (plays s' g rest) last refl heard in
      subst (PlayedOut (suc n)) (sym (try_times-fresh n s (plays s' g rest) played))
        (ap suc later.0, later.1, later.2)

  -- A talkspurt whose last frame has arrived is played to its end, however short it is: as many
  -- calls as frames are queued give a fresh frame each, and then the queue is empty and the source
  -- no longer plays.
  pub talkspurt_plays_out :
      (frames : List PendingFrame) (f : PendingFrame) (s : Source fl)
      → f.is_last ≡ true
      → s.pending ≡ frames ++ f ∷ []
      → is_empty (audible_paths fl s.states) ≡ false
      → ((try_times (length s.pending) s).0 ≡ length s.pending)
        × ((try_times (length s.pending) s).1.pending ≡ [])
        × ((try_times (length s.pending) s).1.is_playing ≡ false)
  talkspurt_plays_out frames f s last queued heard =
      subst (λ n. PlayedOut n (try_times n s)) (ap length (sym queued))
        (frames_play_out frames f s last queued heard)

  -- A source whose queue is dry.
  try-dry :
      (s : Source fl)
      → is_empty (audible_paths fl s.states) ≡ false
      → s.pending ≡ []
      → try_produce_next_frame fl codec s
        ≡ conceal fl codec (record s { render_states = audible_paths fl s.states })
  unfolding produce
  try-dry s heard dry =
      let s' : Source fl = record s { render_states = audible_paths fl s.states } in
      let empty = ap (λ q. produce fl codec q s') dry in rw (try-audible s heard) empty

  silent_stays_silent :
      (n : ℕ) (s : Source fl)
      → is_empty (audible_paths fl s.states) ≡ false
      → s.pending ≡ []
      → s.is_playing ≡ false
      → (try_times n s).0 ≡ 0
  unfolding conceal
  silent_stays_silent zero s heard dry silent = unfold try_times in refl
  silent_stays_silent (suc n) s heard dry silent =
      let s' : Source fl = record s { render_states = audible_paths fl s.states } in
      let still : try_produce_next_frame fl codec s ≡ (false, s') =
        rw (try-dry s heard dry, silent) refl in
      rw (try_times-stale n s s' still) (silent_stays_silent n s' heard dry silent)

  loses : Source fl → Source fl
  loses s = mix_frame fl codec packet_loss (record s {
    render_states = audible_paths fl s.states;
    concealment_count = s.concealment_count + 1;
  })

  gives_up : Source fl → Source fl
  gives_up s = record s {
    render_states = audible_paths fl s.states;
    is_playing = false;
    concealment_count = 0;
    concealment_exhausted_count = s.concealment_exhausted_count + 1;
  }

  -- When the packets stop in the middle of a talkspurt, the next calls conceal the loss, and no
  -- more than what is left of the ten concealed frames: `n` calls on a playing source whose queue
  -- is empty give min n (10 - concealment_count) frames.
  pub loss_is_concealed :
      (n : ℕ) (s : Source fl)
      → is_empty (audible_paths fl s.states) ≡ false
      → s.pending ≡ []
      → s.is_playing ≡ true
      → (try_times n s).0 ≡ min n (10 - s.concealment_count)
  unfolding conceal mix_frame loses gives_up
  loss_is_concealed zero s heard dry playing = unfold try_times in (omega arith)
  loss_is_concealed (suc n) s heard dry playing =
      elim (Bool-cases (leb max_concealment_frames s.concealment_count)) [
        | inl spent ↦
            let quiet : try_produce_next_frame fl codec s ≡ (false, gives_up s) =
              rw (try-dry s heard dry, playing, spent) refl in
            rw (try_times-stale n s (gives_up s) quiet)
              (rw (silent_stays_silent n (gives_up s) heard dry refl) (ground arith))
        | inr left ↦
            let lost : try_produce_next_frame fl codec s ≡ (true, loses s) =
              rw (try-dry s heard dry, playing, left) refl in
            rw (try_times-fresh n s (loses s) lost)
              (rw (loss_is_concealed n (loses s) heard dry playing) (ground arith))
      ]
