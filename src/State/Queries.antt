-- ===== src/State/Queries.antt =====
-- The queries of addon/extensions/task_force_radio_pipe/src/State.cpp, and the operations through
-- which the tick feeds the state: `speakingPair`, `tsInfo`, `needsConfig`, `myUid`, `setRemoteTx`,
-- `takeTransmitOverride`, the configuration readers and `localTxState`.
-- `opus_get_version_string` is a parameter.
use task_force_radio_standal.Base.{
  ltb, ◌==◌, if◌then◌else◌, any, Text, codes, is_empty, text_eq, text_is_eq, ℕ, ◌-◌, ◌*◌, Bool,
  true, false, not, ◌&&◌, ◌||◌, Option, none, some, [], ◌∷◌,
}
use task_force_radio_standal.Base.Map.{Map, lookup, insert, erase}
use task_force_radio_standal.Float.{Float}
use task_force_radio_standal.Util.{convert_nickname, parse_arma_number}
use task_force_radio_standal.Geometry.{zero_f}
use task_force_radio_standal.State.Data.{State}

abbrev pub ms : ℕ → ℕ
ms n = n * 1000000

abbrev pub kclient_expiry : ℕ
kclient_expiry = ms 6000

abbrev pub ktx_expiry : ℕ
ktx_expiry = ms 1500

abbrev pub plugin_version : Text
plugin_version = codes "TFRS-1.0.0"

abbrev digit : Bool → ℕ
digit true = b'1'
digit false = b'0'

unfoldable pub is_true_config : Text → Bool
unfolding text_eq
is_true_config v = text_eq v (codes "true") || text_eq v (codes "1")

module _ (fl : Float) where
  open fl use {F}

  unfoldable pub speaking_pair : Text → State fl → Text
  unfolding lookup text_eq
  speaking_pair nickname s =
      let name = convert_nickname nickname in
      elim (lookup name s.clients) [
        | none ↦ codes "00"
        | some c ↦
            let is_me = not (is_empty s.my_nickname) && text_eq name s.my_nickname in
            let talking = any (text_eq name) s.talking_names in
            let speaking =
              if is_me then talking || s.tangent_pressed || s.status_transmitting else talking in
            let receiving =
              if is_me then s.receiving_any_radio else any (text_eq name) s.receiving_from in
            digit speaking ∷ digit receiving ∷ []
      ]

  unfoldable pub ts_info : Text → Text → State fl → Text
  unfolding text_eq
  ts_info opus_version sub s =
      if text_eq sub (codes "SERVER")
      then codes "TFRS Voice Server"
      else if text_eq sub (codes "SERVERUID")
      then codes "TFRS"
      else if text_eq sub (codes "CHANNEL")
      then codes "TFRS"
      else if text_eq sub (codes "CHANNELID")
      then codes "0"
      else if text_eq sub (codes "VERSION")
      then plugin_version
      else if text_eq sub (codes "OPUSVER")
      then opus_version
      else if text_eq sub (codes "PING")
      then (if s.voice_connected then codes "PONG" else [])
      else codes "FAIL"

  -- The answer, and the state with the time of the request.
  unfoldable pub needs_config : ℕ → State fl → Bool × State fl
  needs_config now s =
      if s.have_config
      then (false, s)
      else if not (s.config_requested_at == 0) && ltb (now - s.config_requested_at) (ms 3000)
      then (false, s)
      else (true, record s { config_requested_at = now })

  unfoldable pub my_uid : State fl → Text
  unfolding lookup
  my_uid s = if is_empty s.my_nickname then [] else elim (lookup s.my_nickname s.name_to_uid) [
    | none ↦ s.my_nickname
    | some uid ↦ if is_empty uid then s.my_nickname else uid
  ]

  unfoldable pub uid_for : Text → State fl → Text
  unfolding lookup
  uid_for nickname s = elim (lookup nickname s.name_to_uid) [ none ↦ nickname | some uid ↦ uid ]

  unfoldable pub set_local_transmitting : Bool → State fl → State fl
  set_local_transmitting transmitting s = record s { status_transmitting = transmitting }

  unfoldable pub set_voice_connected : Bool → State fl → State fl
  set_voice_connected connected s = record s { voice_connected = connected }

  -- The first name that has this uid; empty if there is none.
  unfoldable pub name_of_uid : Text → Map Text Text → Text
  unfolding text_eq
  name_of_uid uid [] = []
  name_of_uid uid ((name, u) ∷ m) = if text_eq u uid then name else name_of_uid uid m

  -- The name that `setRemoteTx` attaches a transmission to; empty if it is not resolved.
  unfoldable pub resolve_sender : Text → State fl → Text
  unfolding name_of_uid lookup
  resolve_sender uid s =
      let name = name_of_uid uid s.name_to_uid in
      if is_empty name then elim (lookup uid s.clients) [ none ↦ [] | some c ↦ uid ] else name

  unfoldable pub set_remote_tx : Text → Bool → Text → F → Text → ℕ → State fl → State fl
  unfolding resolve_sender insert erase
  set_remote_tx uid active freq range subtype now s =
      if is_empty uid
      then s
      else (let name = resolve_sender uid s in
          if is_empty name
          then s
          else if not active || is_empty freq
          then record s { remote_tx = erase name s.remote_tx }
          else record s {
            remote_tx =
                insert name
                  (record {
                    nickname = name;
                    frequency = freq;
                    range = range;
                    subtype = subtype;
                    received = now;
                  })
                  s.remote_tx;
          })

  unfoldable pub take_transmit_override : State fl → Option (Option Bool) × State fl
  take_transmit_override s =
      (s.pending_transmit_override, record s { pending_transmit_override = none })

  unfoldable pub config_bool : Text → Bool → State fl → Bool
  unfolding lookup is_true_config
  config_bool key fallback s = elim (lookup key s.config) [
    | none ↦ fallback
    | some v ↦ is_true_config v
  ]

  unfoldable pub config_float : Text → F → State fl → F
  unfolding lookup parse_arma_number
  config_float key fallback s = elim (lookup key s.config) [
    | none ↦ fallback
    | some v ↦ parse_arma_number fl v
  ]

  unfoldable pub voice_config_string : Text → Text → State fl → Text
  unfolding lookup
  voice_config_string key fallback s = elim (lookup key s.config) [ none ↦ fallback | some v ↦ v ]

  pub record LocalTxState : Type 0 where
    pub active : Bool
    pub freq : Text
    pub range : F
    pub subtype : Text

  unfoldable pub local_tx_state : State fl → LocalTxState
  local_tx_state s =
      if s.tangent_pressed
      then record {
        active = true;
        freq = s.tx_frequency;
        range = s.tx_range;
        subtype = s.tx_subtype;
      }
      else record { active = false; freq = []; range = zero_f fl; subtype = [] }
