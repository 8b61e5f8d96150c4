-- ===== src/Command/Grace.antt =====
-- How an outage of the voice server is reported
-- (addon/extensions/task_force_radio_pipe/src/CommandProcessor.cpp: process).
use mathlib.Core.Path.{subst}
use task_force_radio_standal.Base.{
  leb, if◌then◌else◌, if_keeps, All, Text, codes, is_empty, text_eq, text_eq_iff, ℕ, ◌-◌, ◌<◌, ◌≡◌,
  refl, sym, ap, ◌∙◌, Bool, true, false, ◌&&◌, List, [], ◌∷◌, arith,
}
use task_force_radio_standal.Float.{Float}
use task_force_radio_standal.Command.{
  Processor, not_connected, not_connected_grace, first_token, is_async, payload_of, process_async,
  answer_pos, answer_async, process,
}
use task_force_radio_standal.Command.Answers.{connected-process_async}
use task_force_radio_standal.Command.Invariant.{run_calls}

-- A call that is a POS: asynchronous, with that command first.
abbrev pub is_pos : Text → Bool
is_pos input = is_async input && text_eq (first_token (payload_of input)) (codes "POS")

module _ (fl : Float) where
  -- What of a processor the answer to a POS depends on.
  IsAt : Bool → ℕ → Processor fl → Type 0
  IsAt connected since p = (p.voice.connected ≡ connected) × (p.disconnected_since ≡ since)

  -- The connection is lost: the network thread says so, and no call of the game.
  abbrev pub lose_connection : Processor fl → Processor fl
  lose_connection p = record p { voice = record p.voice { connected = false } }

  carried_out-IsAt :
      (command payload : Text) (now : ℕ) (connected : Bool) (since : ℕ) (p : Processor fl)
      → IsAt connected since p
      → IsAt connected since (process_async fl command payload now p)
  unfolding IsAt process_async
  carried_out-IsAt command payload now connected since p (link, timer) =
      (connected-process_async fl command payload now p ∙ link, timer)

  -- A POS is answered by the grace period alone.
  process-pos :
      (opus_version input : Text) (now : ℕ) (connected : Bool) (since : ℕ) (p : Processor fl)
      → is_pos input ≡ true
      → IsAt connected since p
      → (p' : Processor fl) × IsAt connected since p'
        × (process fl opus_version input now p ≡ answer_pos fl now p')
  unfolding process answer_async text_eq
  process-pos opus_version [] now connected since p pos h = cc
  process-pos opus_version (c ∷ input) now connected since p pos h =
      let payload = payload_of (c ∷ input) in
      let async : is_async (c ∷ input) ≡ true = ground arith in
      let is : text_eq (first_token payload) (codes "POS") ≡ true = ground arith in
      let command = (text_eq_iff (first_token payload) (codes "POS")).0 is in
      (
        process_async fl (codes "POS") payload now p,
        carried_out-IsAt (codes "POS") payload now connected since p h,
        rw (async, command) refl,
      )

  answer_async-other :
      (command : Text) (now : ℕ) (connected : Bool) (since : ℕ) (p : Processor fl)
      → text_eq command (codes "POS") ≡ false
      → IsAt connected since p
      → IsAt connected since (answer_async fl command now p).1
  unfolding IsAt answer_async
  answer_async-other command now connected since p other (link, timer) =
      (ground arith, ground arith)

  answer_async-down :
      (command : Text) (now since : ℕ) (p : Processor fl)
      → 0 < since
      → IsAt false since p
      → IsAt false since (answer_async fl command now p).1
  unfolding IsAt answer_async answer_pos
  answer_async-down command now since p started (link, timer) = (ground arith, ground arith)

  process-other :
      (opus_version input : Text) (now : ℕ) (connected : Bool) (since : ℕ) (p : Processor fl)
      → is_pos input ≡ false
      → IsAt connected since p
      → IsAt connected since (process fl opus_version input now p).1
  unfolding process
  process-other opus_version input now connected since p other h =
      let payload = payload_of input in
      let command = first_token payload in
      if_keeps {A = Text × Processor fl} (λ r. IsAt connected since r.1) (is_empty input) (λ _. h)
        (λ _.
          if_keeps {A = Text × Processor fl} (λ r. IsAt connected since r.1) (is_async input)
            (λ async.
              answer_async-other command now connected since
                (process_async fl command payload now p) (rw async at other)
                (carried_out-IsAt command payload now connected since p h))
            (λ _. h))

  process-down :
      (opus_version input : Text) (now since : ℕ) (p : Processor fl)
      → 0 < since
      → IsAt false since p
      → IsAt false since (process fl opus_version input now p).1
  unfolding process
  process-down opus_version input now since p started h =
      let payload = payload_of input in
      let command = first_token payload in
      if_keeps {A = Text × Processor fl} (λ r. IsAt false since r.1) (is_empty input) (λ _. h)
        (λ _.
          if_keeps {A = Text × Processor fl} (λ r. IsAt false since r.1) (is_async input)
            (λ _.
              answer_async-down command now since (process_async fl command payload now p) started
                (carried_out-IsAt command payload now false since p h))
            (λ _. h))

  -- A timer that runs keeps running while the connection is down, whatever calls there are.
  run_calls-down :
      (opus_version : Text) (calls : List (Text × ℕ)) (since : ℕ) (p : Processor fl)
      → 0 < since
      → IsAt false since p
      → IsAt false since (run_calls fl opus_version calls p)
  run_calls-down opus_version [] since p started h = h
  run_calls-down opus_version ((input, now) ∷ calls) since p started h =
      run_calls-down opus_version calls since (process fl opus_version input now p).1 started
        (process-down opus_version input now since p started h)

  -- Only a POS moves the timer.
  run_calls-other :
      (opus_version : Text) (calls : List (Text × ℕ)) (connected : Bool) (since : ℕ)
      (p : Processor fl)
      → All (λ call. is_pos call.0 ≡ false) calls
      → IsAt connected since p
      → IsAt connected since (run_calls fl opus_version calls p)
  run_calls-other opus_version [] connected since p others h = h
  run_calls-other opus_version ((input, now) ∷ calls) connected since p (other, others) h =
      run_calls-other opus_version calls connected since (process fl opus_version input now p).1
        others (process-other opus_version input now connected since p other h)

  answer_pos-up :
      (now since : ℕ) (p : Processor fl) → IsAt true since p → IsAt true 0 (answer_pos fl now p).1
  unfolding IsAt answer_pos
  answer_pos-up now since p (link, timer) = (ground arith, ground arith)

  answer_pos-fresh :
      (now : ℕ) (p : Processor fl)
      → IsAt false 0 p
      → ((answer_pos fl now p).0 ≡ codes "OK") × IsAt false now (answer_pos fl now p).1
  unfolding IsAt answer_pos
  answer_pos-fresh now p (link, timer) = (ground arith, (ground arith, ground arith))

  answer_pos-timed :
      (now since : ℕ) (p : Processor fl)
      → 0 < since
      → IsAt false since p
      → (answer_pos fl now p).0
        ≡ (if leb not_connected_grace (now - since) then not_connected else codes "OK")
  unfolding IsAt answer_pos
  answer_pos-timed now since p started (link, timer) = ground arith

  -- An outage that lasts is reported. A POS is answered while the connection is up; then
  -- it is lost, and calls that are no POS follow: the first POS of the outage is answered "OK", its
  -- time being positive, and a later one, whatever calls there are between the two, is answered
  -- "Not connected" exactly if ten seconds have passed since that first one, and "OK" else.
  pub lasting_outage_is_reported :
      (opus_version before first second : Text) (earlier now later : ℕ)
      (others calls : List (Text × ℕ)) (p : Processor fl)
      → is_pos before ≡ true
      → is_pos first ≡ true
      → is_pos second ≡ true
      → p.voice.connected ≡ true
      → All (λ call. is_pos call.0 ≡ false) others
      → 0 < now
      → let up = (process fl opus_version before earlier p).1 in
        let lost = run_calls fl opus_version others (lose_connection up) in
        let (answer, seen) = process fl opus_version first now lost in
        let then_on = run_calls fl opus_version calls seen in
        (answer ≡ codes "OK")
        × ((process fl opus_version second later then_on).0
            ≡ (if leb not_connected_grace (later - now) then not_connected else codes "OK"))
  unfolding IsAt
  lasting_outage_is_reported opus_version before first second earlier now later others calls p
        pos_before pos_first pos_second link other_calls started =
      let up = (process fl opus_version before earlier p).1 in
      let lost = run_calls fl opus_version others (lose_connection up) in
      let seen = (process fl opus_version first now lost).1 in
      let then_on = run_calls fl opus_version calls seen in
      let (p1, at1, is1) =
        process-pos opus_version before earlier true p.disconnected_since p pos_before
          (link, refl) in
      let reset = answer_pos-up earlier p.disconnected_since p1 at1 in
      let timer : up.disconnected_since ≡ 0 =
        ap (λ (r : Text × Processor fl). r.1.disconnected_since) is1 ∙ reset.1 in
      let lost_at =
        run_calls-other opus_version others false 0 (lose_connection up) other_calls
          (refl, timer) in
      let (p2, at2, is2) = process-pos opus_version first now false 0 lost pos_first lost_at in
      let (ok, running) = answer_pos-fresh now p2 at2 in
      let seen_at : IsAt false now seen =
        subst (λ (r : Text × Processor fl). IsAt false now r.1) (sym is2) running in
      let still = run_calls-down opus_version calls now seen started seen_at in
      let (p3, at3, is3) =
        process-pos opus_version second later false now then_on pos_second still in
      (
        ap (λ (r : Text × Processor fl). r.0) is2 ∙ ok,
        ap (λ (r : Text × Processor fl). r.0) is3 ∙ answer_pos-timed later now p3 started at3,
      )
