-- ===== src/State/Life.antt =====
-- The life of the local player and of our own transmission across
-- addon/extensions/task_force_radio_pipe/src/State.cpp: TANGENT, KILLED, FREQ and POS.
use task_force_radio_standal.Base.{
  if◌then◌else◌, length, Text, codes, is_empty, text_eq, text_eq_refl, text_eq_iff, text_is_eq, ℕ,
  ◌≤◌, ◌≡◌, refl, true, false, none, some, List, [], arith,
}
use task_force_radio_standal.Base.Map.{lookup, lookup-insert}
use task_force_radio_standal.Float.{Float}
use task_force_radio_standal.Util.{convert_nickname, parse_arma_number}
use task_force_radio_standal.State.Data.{RemoteClient, State}
use task_force_radio_standal.State.Handlers.{
  token, queue_local_message, client_at, speak_range, update_client, handle_pos, set_frequencies,
  handle_freq, sane_range, set_tangent, handle_tangent, handle_killed,
}
use task_force_radio_standal.State.Queries.{take_transmit_override, local_tx_state}

module _ (fl : Float) where
  -- Repeating a TANGENT message changes nothing.
  pub handle_tangent_idem :
      (tokens : List Text) (s : State fl)
      → handle_tangent fl tokens (handle_tangent fl tokens s) ≡ handle_tangent fl tokens s
  unfolding handle_tangent set_tangent
  handle_tangent_idem tokens s =
      let pressed = text_eq (token tokens 1) (codes "PRESSED") in
      ground (arith, text_eq_refl (token tokens 2))

  -- A TANGENT press that changes something announces the transmission that the message names,
  -- with a sane range, and forces transmission.
  press_announces :
      (tokens : List Text) (s : State fl)
      → 5 ≤ length tokens
      → text_eq (token tokens 1) (codes "PRESSED") ≡ true
      → s.tangent_pressed ≡ false
      → (local_tx_state fl (handle_tangent fl tokens s) ≡ record {
        active = true;
        freq = token tokens 2;
        range = sane_range fl (parse_arma_number fl (token tokens 3));
        subtype = token tokens 4;
      })
        × ((take_transmit_override fl (handle_tangent fl tokens s)).0 ≡ some (some true))
  unfolding handle_tangent set_tangent local_tx_state take_transmit_override queue_local_message
  press_announces tokens s size pressed idle = (ground arith, ground arith)

  -- Releasing the tangent that is pressed ends the announcement and lifts the override.
  pub release_ends :
      (tokens : List Text) (s : State fl)
      → 5 ≤ length tokens
      → text_eq (token tokens 1) (codes "PRESSED") ≡ false
      → s.tangent_pressed ≡ true
      → ((local_tx_state fl (handle_tangent fl tokens s)).active ≡ false)
        × ((take_transmit_override fl (handle_tangent fl tokens s)).0 ≡ some none)
  unfolding handle_tangent set_tangent local_tx_state take_transmit_override queue_local_message
  release_ends tokens s size released on = (ground arith, ground arith)

  -- KILLED for our own name ends our transmission and blocks the microphone, and the next FREQ
  -- that reports us alive lifts the block again.
  killed_then_respawned :
      (nickname : Text) (tokens : List Text) (s : State fl)
      → is_empty (convert_nickname nickname) ≡ false
      → convert_nickname nickname ≡ s.my_nickname
      → 11 ≤ length tokens
      → text_eq (token tokens 3) (codes "true") ≡ true
      → ((handle_killed fl nickname s).alive ≡ false)
        × ((local_tx_state fl (handle_killed fl nickname s)).active ≡ false)
        × ((take_transmit_override fl (handle_killed fl nickname s)).0 ≡ some (some false))
        × ((take_transmit_override fl (handle_freq fl tokens (handle_killed fl nickname s))).0
            ≡ some none)
  unfolding handle_killed handle_freq set_frequencies local_tx_state take_transmit_override
      queue_local_message
  killed_then_respawned nickname tokens s named own size alive =
      let same : text_eq (convert_nickname nickname) s.my_nickname ≡ true =
        (text_eq_iff (convert_nickname nickname) s.my_nickname).1 own in
      (ground arith, ground arith, ground arith, ground arith)

  -- A TANGENT release that arrives after KILLED, for any frequency that is not empty, lifts the
  -- block of the microphone although we are still dead.
  pub killed_then_released :
      (nickname : Text) (tokens : List Text) (s : State fl)
      → is_empty (convert_nickname nickname) ≡ false
      → convert_nickname nickname ≡ s.my_nickname
      → 5 ≤ length tokens
      → text_eq (token tokens 1) (codes "PRESSED") ≡ false
      → is_empty (token tokens 2) ≡ false
      → ((handle_tangent fl tokens (handle_killed fl nickname s)).alive ≡ false)
        × ((take_transmit_override fl (handle_tangent fl tokens (handle_killed fl nickname s))).0
            ≡ some none)
  unfolding handle_killed handle_tangent set_tangent take_transmit_override queue_local_message
  killed_then_released nickname tokens s named own size released tuned =
      let same : text_eq (convert_nickname nickname) s.my_nickname ≡ true =
        (text_eq_iff (convert_nickname nickname) s.my_nickname).1 own in
      (ground arith, ground (arith, text_eq_iff [] (token tokens 2)))

  -- A complete POS sets the entry of its own (converted) name and leaves every other entry.
  lookup-handle_pos :
      (tokens : List Text) (now : ℕ) (j : Text) (s : State fl)
      → 14 ≤ length tokens
      → is_empty (convert_nickname (token tokens 1)) ≡ false
      → lookup j (handle_pos fl tokens now s).clients ≡ (
          if text_eq (convert_nickname (token tokens 1)) j
          then some (
              update_client fl
                (convert_nickname (token tokens 1))
                tokens
                now
                (client_at fl (convert_nickname (token tokens 1)) s.clients))
          else lookup j s.clients)
  unfolding handle_pos
  lookup-handle_pos tokens now j s size named =
      let name = convert_nickname (token tokens 1) in
      let c = update_client fl name tokens now (client_at fl name s.clients) in
      ground (arith, lookup-insert name j c s.clients)

  -- A POS of the 14-token format makes its unit alive and dated now, and keeps the speech range
  -- that was known of it.
  legacy_pos_keeps_range :
      (tokens : List Text) (now : ℕ) (s : State fl)
      → length tokens ≡ 14
      → is_empty (convert_nickname (token tokens 1)) ≡ false
      → (c : RemoteClient fl) × (lookup
            (convert_nickname (token tokens 1))
            (handle_pos fl tokens now s).clients
          ≡ some c)
        × (c.dead ≡ false)
        × (c.last_update ≡ now)
        × (c.speak_range_meters
            ≡ (client_at fl (convert_nickname (token tokens 1)) s.clients).speak_range_meters)
  legacy_pos_keeps_range tokens now s size named =
      let name = convert_nickname (token tokens 1) in
      let c = update_client fl name tokens now (client_at fl name s.clients) in
      (
        c,
        rw (lookup-handle_pos tokens now name s (omega arith) named, text_eq_refl name) refl,
        unfold update_client in refl,
        unfold update_client in refl,
        unfold update_client speak_range in ground arith,
      )
