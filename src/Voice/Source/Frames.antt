-- ===== src/Voice/Source/Frames.antt =====
-- The talkspurts of a remote speaker
-- (addon/extensions/task_force_radio_pipe/src/Voice/RemoteVoiceSource.cpp: tryProduceNextFrame).
use task_force_radio_standal.Base.{
  ltb, leb, if◌then◌else◌, length, any, is_empty, ◌+◌, ◌-◌, Bool, true, false, not, ◌&&◌, ◌||◌,
  List, [], ◌∷◌,
}
use task_force_radio_standal.Float.{Float}
use task_force_radio_standal.Voice.Source.{
  PendingFrame, packet, packet_loss, Source, jitter_target_frames, max_concealment_frames,
  frame_is_last, audible_paths,
}
use task_force_radio_standal.Voice.Source.Mixdown.{Codec, mix_frame}

module _ (fl : Float) (codec : Codec fl) where
  -- No path carries anything: the queue is drained and nothing is produced.
  unfoldable pub drain : Source fl → Source fl
  drain s = record s { is_playing = false; concealment_count = 0; pending = [] }

  unfoldable pub conceal : Source fl → Bool × Source fl
  conceal s =
      if not s.is_playing
      then (false, s)
      else if leb max_concealment_frames s.concealment_count
      then (
        false,
        record s {
          is_playing = false;
          concealment_count = 0;
          concealment_exhausted_count = s.concealment_exhausted_count + 1;
        },
      )
      else (
        true,
        mix_frame fl codec packet_loss (record s { concealment_count = s.concealment_count + 1 }),
      )

  -- The frame `f` at the head of the queue, with `rest` behind it.
  unfoldable pub play_or_wait : PendingFrame → List PendingFrame → Source fl → Bool × Source fl
  play_or_wait f rest s =
      if not s.is_playing
        && ltb (length rest) (jitter_target_frames - 1)
        && not (f.is_last || any frame_is_last rest)
      then (false, s)
      else (
        true,
        mix_frame fl codec (packet f.opus)
            (record s { pending = rest; is_playing = not f.is_last; concealment_count = 0 }),
      )

  unfoldable pub produce : List PendingFrame → Source fl → Bool × Source fl
  produce [] s = conceal s
  produce (f ∷ rest) s = play_or_wait f rest s

  -- Whether a fresh frame is there, and the source.
  unfoldable pub try_produce_next_frame : Source fl → Bool × Source fl
  unfolding audible_paths drain produce conceal play_or_wait
  try_produce_next_frame s =
      let paths = audible_paths fl s.states in
      let s' = record s { render_states = paths } in
      if is_empty paths then (false, drain s') else produce s'.pending s'
