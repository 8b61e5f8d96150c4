-- ===== src/State/Feeds.antt =====
-- The operations through which the tick feeds the state keep it well formed, and what they answer:
-- `setRemoteTx`, `takeTransmitOverride`, `needsConfig`, `myUid`.
use task_force_radio_standal.Base.{
  ltb, ◌==◌, Option-cases, if_keeps, length, Text, is_empty, text_is_eq, ℕ, ◌+◌, ◌-◌, ◌≤◌, ◌<◌, ◌≡◌,
  refl, inl, inr, Bool, true, false, not, ◌&&◌, ◌||◌, List, arith,
}
use task_force_radio_standal.Base.Map.{lookup, All-insert, All-erase, All-lookup}
use task_force_radio_standal.Float.{Float}
use task_force_radio_standal.State.Data.{State}
use task_force_radio_standal.State.Parse.{is_valid_config_key}
use task_force_radio_standal.State.Handlers.{token, handle_set_cfg}
use task_force_radio_standal.State.Queries.{
  ms, needs_config, my_uid, uid_for, set_local_transmitting, set_voice_connected, resolve_sender,
  set_remote_tx, take_transmit_override,
}
use task_force_radio_standal.State.WellFormed.{UidOk, TxOk, IsWellFormed, IsWellFormed-remote_tx}

module _ (fl : Float) where
  pub set_remote_tx-IsWellFormed :
      (uid : Text) (active : Bool) (freq : Text) (range : fl.F) (subtype : Text) (now : ℕ)
      (s : State fl)
      → IsWellFormed fl s
      → IsWellFormed fl (set_remote_tx fl uid active freq range subtype now s)
  unfolding set_remote_tx
  set_remote_tx-IsWellFormed uid active freq range subtype now s h =
      let name = resolve_sender fl uid s in
      if_keeps (IsWellFormed fl) (is_empty uid) (λ _. h)
        (λ _.
          if_keeps (IsWellFormed fl) (is_empty name) (λ _. h)
            (λ named.
              if_keeps (IsWellFormed fl) (not active || is_empty freq)
                (λ _.
                  IsWellFormed-remote_tx fl _ s (All-erase (TxOk fl) name s.remote_tx h.remote_tx)
                    h)
                (λ sent.
                  IsWellFormed-remote_tx fl _ s
                    (All-insert (TxOk fl) name _ s.remote_tx (refl, named, ground arith)
                      h.remote_tx)
                    h)))

  pub needs_config-IsWellFormed :
      (now : ℕ) (s : State fl) → IsWellFormed fl s → IsWellFormed fl (needs_config fl now s).1
  unfolding needs_config
  needs_config-IsWellFormed now s h =
      let asked : IsWellFormed fl (record s { config_requested_at = now }) = assumption in
      let P : Bool × State fl → Type 0 = λ p. IsWellFormed fl p.1 in
      if_keeps P s.have_config (λ _. h)
        (λ _.
          if_keeps P
            (not (s.config_requested_at == 0) && ltb (now - s.config_requested_at) (ms 3000))
            (λ _. h) (λ _. asked))

  pub take_transmit_override-IsWellFormed :
      (s : State fl) → IsWellFormed fl s → IsWellFormed fl (take_transmit_override fl s).1
  unfolding take_transmit_override
  take_transmit_override-IsWellFormed s h = assumption

  pub set_voice_connected-IsWellFormed :
      (b : Bool) (s : State fl) → IsWellFormed fl s → IsWellFormed fl (set_voice_connected fl b s)
  unfolding set_voice_connected
  set_voice_connected-IsWellFormed b s h = assumption

  pub set_local_transmitting-IsWellFormed :
      (b : Bool) (s : State fl)
      → IsWellFormed fl s
      → IsWellFormed fl (set_local_transmitting fl b s)
  unfolding set_local_transmitting
  set_local_transmitting-IsWellFormed b s h = assumption

  -- In a well-formed state our own identity on the voice server, once our name is known, is the
  -- one that this state resolves the name to, and it is never empty.
  my_uid-uid_for :
      (s : State fl)
      → IsWellFormed fl s
      → is_empty s.my_nickname ≡ false
      → (my_uid fl s ≡ uid_for fl s.my_nickname s) × (is_empty (my_uid fl s) ≡ false)
  unfolding my_uid uid_for
  my_uid-uid_for s h named = elim (Option-cases (lookup s.my_nickname s.name_to_uid)) [
    | inl missing ↦ ground arith
    | inr (uid, found) ↦
        let ok = All-lookup (UidOk fl) s.my_nickname s.name_to_uid h.uids found in
        ground (arith, ok.1)
  ]

  -- Whatever the UID command has reported, our identity is not empty once our name is known: it
  -- falls back to the nickname.
  my_uid-not_empty :
      (s : State fl) → is_empty s.my_nickname ≡ false → is_empty (my_uid fl s) ≡ false
  unfolding my_uid
  my_uid-not_empty s named = ground arith

  -- After the game was asked for its configuration it is not asked again within three seconds,
  -- and once SETCFG has brought a known key it is not asked at all, however late.
  needs_config_throttle :
      (now soon later : ℕ) (tokens : List Text) (s : State fl)
      → 0 < now
      → (needs_config fl now s).0 ≡ true
      → soon < now + ms 3000
      → 3 ≤ length tokens
      → is_valid_config_key (token tokens 1) ≡ true
      → ((needs_config fl soon (needs_config fl now s).1).0 ≡ false)
        × ((needs_config fl later (handle_set_cfg fl tokens (needs_config fl now s).1)).0 ≡ false)
  unfolding needs_config handle_set_cfg
  needs_config_throttle now soon later tokens s started asked before size known =
      (ground arith, ground arith)
