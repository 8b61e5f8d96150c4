-- ===== src/Command/Invariant.antt =====
-- Every call of the extension keeps the state well formed, whatever its input is.
use task_force_radio_standal.Base.{
  ltb, leb, if◌then◌else◌, if_keeps, length, Text, codes, is_empty, text_eq, ℕ, ◌≡◌, Bool, ◌||◌,
  List, [], ◌∷◌, arith,
}
use task_force_radio_standal.Float.{Float}
use task_force_radio_standal.Util.{split, split_limit}
use task_force_radio_standal.State.Data.{SpeakerData, State}
use task_force_radio_standal.State.Handlers.{token, handle_data_frame}
use task_force_radio_standal.State.World.{parse_speakers, handle_speakers}
use task_force_radio_standal.State.WellFormed.{ConstantLaws, IsWellFormed}
use task_force_radio_standal.State.WellFormed.Handlers.{
  handle_pos-IsWellFormed, handle_freq-IsWellFormed, handle_tangent-IsWellFormed,
  handle_set_cfg-IsWellFormed, handle_killed-IsWellFormed, handle_uid-IsWellFormed,
  handle_release_all_tangents-IsWellFormed, handle_mission_end-IsWellFormed,
}
use task_force_radio_standal.State.WellFormed.Towers.{
  handle_add_radio_towers-IsWellFormed, handle_del_radio_towers-IsWellFormed,
}
use task_force_radio_standal.State.Feeds.{needs_config-IsWellFormed}
use task_force_radio_standal.Command.{
  Processor, tab, first_token, is_async, payload_of, state_command, process_async, answer_pos,
  answer_async, process,
}

module _ (fl : Float) where
  -- The state after a sequence of calls, each with its time.
  abbrev pub run_calls : Text → List (Text × ℕ) → Processor fl → Processor fl
  run_calls opus_version [] p = p
  run_calls opus_version ((input, now) ∷ calls) p =
      run_calls opus_version calls (process fl opus_version input now p).1

module _ (fl : Float) (laws : ConstantLaws fl) where
  handle_speakers-IsWellFormed :
      (tokens : List Text) (s : State fl)
      → IsWellFormed fl s
      → IsWellFormed fl (handle_speakers fl tokens s)
  unfolding handle_speakers
  handle_speakers-IsWellFormed tokens s h =
      let replaced : (l : List (SpeakerData fl)) → IsWellFormed fl (record s { speakers = l }) =
        λ l. assumption in
      if_keeps (IsWellFormed fl) (ltb (length tokens) 2 || is_empty (token tokens 1))
        (λ _. replaced []) (λ _. replaced (parse_speakers fl (split (token tokens 1) 0x0b)))

  -- A handler that runs only with enough tokens.
  guarded :
      (enough : Bool) (s t : State fl)
      → IsWellFormed fl s
      → IsWellFormed fl t
      → IsWellFormed fl (if enough then t else s)
  guarded enough s t hs ht = if_keeps (IsWellFormed fl) enough (λ _. ht) (λ _. hs)

  state_command-IsWellFormed :
      (command payload : Text) (now : ℕ) (s : State fl)
      → IsWellFormed fl s
      → IsWellFormed fl (state_command fl command payload now s)
  unfolding state_command handle_data_frame
  state_command-IsWellFormed command payload now s h =
      let WF = IsWellFormed fl in
      let tokens = split payload tab in
      let two = split_limit payload tab 2 in
      let three = split_limit payload tab 3 in
      let is = λ (name : Text). text_eq command name in
      if_keeps WF (is (codes "POS")) (λ _. handle_pos-IsWellFormed fl laws tokens now s h)
        λ _.
          if_keeps WF (is (codes "FREQ")) (λ _. handle_freq-IsWellFormed fl laws tokens s h)
            λ _.
              if_keeps WF
                (is (codes "TANGENT") || is (codes "TANGENT_LR") || is (codes "TANGENT_DD"))
                (λ _. handle_tangent-IsWellFormed fl laws tokens s h)
                λ _.
                  if_keeps WF (is (codes "SPEAKERS")) (λ _. handle_speakers-IsWellFormed two s h)
                    λ _.
                      if_keeps WF (is (codes "SETCFG"))
                        (λ _. handle_set_cfg-IsWellFormed fl laws (split_limit payload tab 4) s h)
                        λ _.
                          if_keeps WF (is (codes "KILLED"))
                            (λ _.
                              guarded (leb 2 (length two)) s _ h
                                (handle_killed-IsWellFormed fl laws (token two 1) s h))
                            λ _.
                              if_keeps WF (is (codes "UID"))
                                (λ _. guarded (leb 3 (length three)) s _ h (
                                  handle_uid-IsWellFormed fl laws (token three 1) (token three 2) s
                                    h))
                                λ _.
                                  if_keeps WF (is (codes "RELEASE_ALL_TANGENTS"))
                                    (λ _.
                                      handle_release_all_tangents-IsWellFormed fl laws
                                        (if leb 2 (length two) then token two 1 else []) s h)
                                    λ _.
                                      if_keeps WF (is (codes "RadioTwrAdd"))
                                        (λ _. guarded (leb 2 (length two)) s _ h (
                                          handle_add_radio_towers-IsWellFormed fl (token two 1) s
                                            h))
                                        λ _.
                                          if_keeps WF (is (codes "RadioTwrDel"))
                                            (λ _. guarded (leb 2 (length two)) s _ h (
                                              handle_del_radio_towers-IsWellFormed fl (token two 1)
                                                s h))
                                            λ _.
                                              if_keeps WF (is (codes "DFRAME")) (λ _. h)
                                                λ _.
                                                  if_keeps WF (is (codes "MISSIONEND"))
                                                    (λ _.
                                                      handle_mission_end-IsWellFormed fl laws s h)
                                                    λ _. h

  answer_pos-state : (now : ℕ) (p : Processor fl) → (answer_pos fl now p).1.state ≡ p.state
  unfolding answer_pos
  answer_pos-state now p = ground arith

  answer_async-IsWellFormed :
      (command : Text) (now : ℕ) (p : Processor fl)
      → IsWellFormed fl p.state
      → IsWellFormed fl (answer_async fl command now p).1.state
  unfolding answer_async
  answer_async-IsWellFormed command now p h =
      let P : Text × Processor fl → Type 0 = λ r. IsWellFormed fl r.1.state in
      if_keeps P (text_eq command (codes "DFRAME"))
        (λ _. needs_config-IsWellFormed fl now p.state h)
        λ _.
          if_keeps P (text_eq command (codes "MISSIONEND")) (λ _. h)
            λ _. if_keeps P (text_eq command (codes "POS")) (λ _. rw answer_pos-state h) λ _. h

  -- Whatever text the game passes in, a call keeps the state well formed.
  pub process-IsWellFormed :
      (opus_version input : Text) (now : ℕ) (p : Processor fl)
      → IsWellFormed fl p.state
      → IsWellFormed fl (process fl opus_version input now p).1.state
  unfolding process process_async
  process-IsWellFormed opus_version input now p h =
      let P : Text × Processor fl → Type 0 = λ r. IsWellFormed fl r.1.state in
      let payload = payload_of input in
      let command = first_token payload in
      if_keeps P (is_empty input) (λ _. h)
        λ _.
          if_keeps P (is_async input)
            (λ _.
              answer_async-IsWellFormed command now (process_async fl command payload now p)
                (state_command-IsWellFormed command payload now p.state h))
            λ _. h

  -- A well-formed state is well formed after every sequence of calls, where the float comparisons of
  -- constants that `ConstantLaws` lists hold, as they do in IEEE arithmetic.
  pub run_calls-IsWellFormed :
      (opus_version : Text) (calls : List (Text × ℕ)) (p : Processor fl)
      → IsWellFormed fl p.state
      → IsWellFormed fl (run_calls fl opus_version calls p).state
  run_calls-IsWellFormed opus_version [] p h = h
  run_calls-IsWellFormed opus_version ((input, now) ∷ calls) p h =
      run_calls-IsWellFormed opus_version calls (process fl opus_version input now p).1
        (process-IsWellFormed opus_version input now p h)
