-- ===== src/State/WellFormed/Handlers.antt =====
-- The handlers of the legacy protocol keep the state well formed.
use task_force_radio_standal.Base.{
  ltb, if◌then◌else◌, Option-cases, if_keeps, length, All, Text, codes, is_empty, text_eq,
  text_is_eq, ℕ, ◌≡◌, refl, inl, inr, Bool, true, false, not, ◌&&◌, ◌||◌, Option, none, some, List,
  [], ◌∷◌, arith,
}
use task_force_radio_standal.Base.Int.{ℤ, pos, leb_ℤ}
use task_force_radio_standal.Base.Map.{Map, lookup, insert, All-insert, All-lookup}
use task_force_radio_standal.Float.{Float}
use task_force_radio_standal.Util.{convert_nickname, parse_arma_number, parse_arma_number_to_int}
use task_force_radio_standal.Geometry.{zero_f}
use task_force_radio_standal.State.Data.{RemoteClient, State}
use task_force_radio_standal.State.Parse.{is_valid_config_key}
use task_force_radio_standal.State.Handlers.{
  token, queue_local_message, client_at, speak_range, update_client, handle_pos, or_default,
  positive_or_one, set_frequencies, handle_freq, sane_range, set_tangent, same_bool, handle_tangent,
  handle_set_cfg, mark_dead, handle_killed, handle_uid, handle_release_all_tangents,
  handle_mission_end,
}
use task_force_radio_standal.State.WellFormed.{
  ConstantLaws, ClientOk, UidOk, ConfigOk, TangentOk, IsWellFormed, IsWellFormed-clients,
  IsWellFormed-config, IsWellFormed-uids, TangentOk-idle,
}

module _ (fl : Float) (laws : ConstantLaws fl) where
  speak_range-positive :
      (tokens : List Text) (old : fl.F)
      → fl.lt (zero_f fl) old ≡ true
      → fl.lt (zero_f fl) (speak_range fl tokens old) ≡ true
  unfolding speak_range
  speak_range-positive tokens old h = ground (arith, laws.zero_lt_twenty)

  client_at-positive :
      (name : Text) (m : Map Text (RemoteClient fl))
      → All (ClientOk fl) m
      → fl.lt (zero_f fl) (client_at fl name m).speak_range_meters ≡ true
  unfolding client_at
  client_at-positive name [] h = laws.zero_lt_twenty
  client_at-positive name ((k, c) ∷ m) h = ground (arith, client_at-positive name m)

  update_client-Ok :
      (name : Text) (tokens : List Text) (now : ℕ) (m : Map Text (RemoteClient fl))
      → is_empty name ≡ false
      → All (ClientOk fl) m
      → ClientOk fl (name, update_client fl name tokens now (client_at fl name m))
  unfolding update_client
  update_client-Ok name tokens now m named h =
      (refl, named, speak_range-positive tokens _ (client_at-positive name m h))

  pub handle_pos-IsWellFormed :
      (tokens : List Text) (now : ℕ) (s : State fl)
      → IsWellFormed fl s
      → IsWellFormed fl (handle_pos fl tokens now s)
  unfolding handle_pos
  handle_pos-IsWellFormed tokens now s h =
      let name = convert_nickname (token tokens 1) in
      if_keeps (IsWellFormed fl) (ltb (length tokens) 14) (λ _. h)
        (λ _.
          if_keeps (IsWellFormed fl) (is_empty name) (λ _. h)
            (λ named.
              IsWellFormed-clients fl _ s
                (All-insert (ClientOk fl) name _ s.clients
                  (update_client-Ok name tokens now s.clients named h.clients) h.clients)
                h))

  positive_or_one-positive : (r : fl.F) → fl.le (positive_or_one fl r) (zero_f fl) ≡ false
  positive_or_one-positive r = ground (arith, laws.one_le_zero)

  or_default-positive : (n : ℤ) → leb_ℤ (or_default fl n) (pos 0) ≡ false
  or_default-positive n = ground arith

  set_frequencies-IsWellFormed :
      (tokens : List Text) (s : State fl)
      → IsWellFormed fl s
      → IsWellFormed fl (set_frequencies fl tokens s)
  unfolding set_frequencies
  set_frequencies-IsWellFormed tokens s h = record {
    clients = h.clients;
    uids = h.uids;
    config = h.config;
    remote_tx = h.remote_tx;
    antennas = h.antennas;
    tangent = h.tangent;
    multiplicator = positive_or_one-positive (parse_arma_number fl (token tokens 9));
    speak_volume = or_default-positive (parse_arma_number_to_int fl (token tokens 4));
  }

  pub queue-IsWellFormed :
      (v : Option Bool) (s : State fl)
      → IsWellFormed fl s
      → IsWellFormed fl (queue_local_message fl v s)
  unfolding queue_local_message
  queue-IsWellFormed v s h = assumption

  pub handle_freq-IsWellFormed :
      (tokens : List Text) (s : State fl)
      → IsWellFormed fl s
      → IsWellFormed fl (handle_freq fl tokens s)
  unfolding handle_freq
  handle_freq-IsWellFormed tokens s h =
      let s' = set_frequencies fl tokens s in
      let h' = set_frequencies-IsWellFormed tokens s h in
      if_keeps (IsWellFormed fl) (ltb (length tokens) 11) (λ _. h)
        (λ _.
          if_keeps (IsWellFormed fl) (not s.alive && s'.alive) (λ _. queue-IsWellFormed none s' h')
            (λ _. h'))

  sane_range-Ok :
      (r : fl.F)
      → (fl.le (zero_f fl) (sane_range fl r) ≡ true)
        × (fl.lt (fl.decimal 200000 0) (sane_range fl r) ≡ false)
  unfolding sane_range
  sane_range-Ok r =
      ground (arith, laws.zero_le_zero, laws.zero_le_max, laws.max_lt_zero, laws.max_lt_max)

  TangentOk-pressed : (r : fl.F) (classname : Text) → TangentOk fl true (sane_range fl r) classname
  TangentOk-pressed r classname = record {
    from_zero = (sane_range-Ok r).0;
    to_max = (sane_range-Ok r).1;
    idle_range = λ e. cc;
    idle_classname = λ e. cc;
  }

  -- A new tangent that fits, with anything in the fields that the invariant leaves open.
  tangent-IsWellFormed :
      {pressed lr alive : Bool} {freq subtype classname : Text} {range : fl.F}
      {pending : Option (Option Bool)} (s : State fl)
      → IsWellFormed fl s
      → TangentOk fl pressed range classname
      → IsWellFormed fl (record s {
        alive = alive;
        tangent_pressed = pressed;
        tangent_is_lr = lr;
        tx_frequency = freq;
        tx_subtype = subtype;
        tx_radio_classname = classname;
        tx_range = range;
        pending_transmit_override = pending;
      })
  tangent-IsWellFormed s h t = assumption

  set_tangent-IsWellFormed :
      (pressed : Bool) (tokens : List Text) (s : State fl)
      → IsWellFormed fl s
      → IsWellFormed fl (set_tangent fl pressed tokens s)
  unfolding set_tangent
  set_tangent-IsWellFormed true tokens s h = tangent-IsWellFormed s h (
      TangentOk-pressed (parse_arma_number fl (token tokens 3))
        (if ltb 5 (length tokens) then token tokens 5 else []))
  set_tangent-IsWellFormed false tokens s h = tangent-IsWellFormed s h (TangentOk-idle fl laws)

  pub handle_tangent-IsWellFormed :
      (tokens : List Text) (s : State fl)
      → IsWellFormed fl s
      → IsWellFormed fl (handle_tangent fl tokens s)
  unfolding handle_tangent
  handle_tangent-IsWellFormed tokens s h =
      if_keeps (IsWellFormed fl) (ltb (length tokens) 5) (λ _. h)
        (λ _.
          if_keeps (IsWellFormed fl)
            (same_bool fl (text_eq (token tokens 1) (codes "PRESSED")) s.tangent_pressed
              && text_eq s.tx_frequency (token tokens 2))
            (λ _. h)
            (λ _. set_tangent-IsWellFormed (text_eq (token tokens 1) (codes "PRESSED")) tokens s h))

  pub handle_set_cfg-IsWellFormed :
      (tokens : List Text) (s : State fl)
      → IsWellFormed fl s
      → IsWellFormed fl (handle_set_cfg fl tokens s)
  unfolding handle_set_cfg
  handle_set_cfg-IsWellFormed tokens s h =
      if_keeps (IsWellFormed fl) (ltb (length tokens) 3) (λ _. h)
        (λ _.
          if_keeps (IsWellFormed fl) (not (is_valid_config_key (token tokens 1))) (λ _. h)
            (λ known.
              IsWellFormed-config fl _ s
                (All-insert (ConfigOk fl) (token tokens 1) _ s.config (ground arith) h.config) h))

  mark_dead_missing :
      (name : Text) (m : Map Text (RemoteClient fl))
      → lookup name m ≡ none
      → mark_dead fl name m ≡ m
  unfolding mark_dead
  mark_dead_missing name m e = ground arith

  mark_dead_found :
      (name : Text) (m : Map Text (RemoteClient fl)) (c : RemoteClient fl)
      → lookup name m ≡ some c
      → mark_dead fl name m ≡ insert name (record c { dead = true }) m
  unfolding mark_dead
  mark_dead_found name m c e = ground arith

  mark_dead-Ok :
      (name : Text) (m : Map Text (RemoteClient fl))
      → All (ClientOk fl) m
      → All (ClientOk fl) (mark_dead fl name m)
  mark_dead-Ok name m h = elim (Option-cases (lookup name m)) [
    | inl missing ↦ rw (mark_dead_missing name m missing) h
    | inr (c, found) ↦
        rw (mark_dead_found name m c found)
          (All-insert (ClientOk fl) name _ m (All-lookup (ClientOk fl) name m h found) h)
  ]

  pub handle_killed-IsWellFormed :
      (nickname : Text) (s : State fl)
      → IsWellFormed fl s
      → IsWellFormed fl (handle_killed fl nickname s)
  unfolding handle_killed
  handle_killed-IsWellFormed nickname s h =
      let name = convert_nickname nickname in
      let h' = IsWellFormed-clients fl _ s (mark_dead-Ok name s.clients h.clients) h in
      if_keeps (IsWellFormed fl) (not (is_empty name) && text_eq name s.my_nickname)
        (λ _. tangent-IsWellFormed _ h' (TangentOk-idle fl laws)) (λ _. h')

  pub handle_uid-IsWellFormed :
      (nickname uid : Text) (s : State fl)
      → IsWellFormed fl s
      → IsWellFormed fl (handle_uid fl nickname uid s)
  unfolding handle_uid
  handle_uid-IsWellFormed nickname uid s h =
      let name = convert_nickname nickname in
      if_keeps (IsWellFormed fl) (is_empty name || is_empty uid) (λ _. h)
        (λ known.
          IsWellFormed-uids fl _ s
            (All-insert (UidOk fl) name uid s.name_to_uid (ground arith) h.uids) h)

  pub handle_release_all_tangents-IsWellFormed :
      (nickname : Text) (s : State fl)
      → IsWellFormed fl s
      → IsWellFormed fl (handle_release_all_tangents fl nickname s)
  unfolding handle_release_all_tangents
  handle_release_all_tangents-IsWellFormed nickname s h =
      let name = convert_nickname nickname in
      if_keeps (IsWellFormed fl)
        (not (is_empty name) && not (is_empty s.my_nickname) && not (text_eq name s.my_nickname))
        (λ _. h) (λ _. tangent-IsWellFormed s h (TangentOk-idle fl laws))

  pub handle_mission_end-IsWellFormed :
      (s : State fl) → IsWellFormed fl s → IsWellFormed fl (handle_mission_end fl s)
  unfolding handle_mission_end
  handle_mission_end-IsWellFormed s h = record {
    clients = tt;
    uids = h.uids;
    config = h.config;
    remote_tx = tt;
    antennas = tt;
    tangent = TangentOk-idle fl laws;
    multiplicator = h.multiplicator;
    speak_volume = h.speak_volume;
  }
