-- ===== src/State/WellFormed.antt =====
-- The invariant of the extension's state, over what the program takes for granted of `float`.
pub mod Handlers
pub mod Towers
use task_force_radio_standal.Base.{
  All, Text, is_empty, text_eq, ◌≡◌, refl, Bool, true, false, List, [], ◌∷◌,
}
use task_force_radio_standal.Base.Int.{pos, leb_ℤ}
use task_force_radio_standal.Base.Map.{Map}
use task_force_radio_standal.Float.{Float}
use task_force_radio_standal.Geometry.{zero_f, one_f}
use task_force_radio_standal.State.Data.{RemoteClient, AntennaData, RemoteTx, State, init}
use task_force_radio_standal.State.Parse.{is_valid_config_key}

-- What the comparisons say of the constants in the source.
pub record ConstantLaws (fl : Float) : Type 0 where
  pub zero_le_zero : fl.le (zero_f fl) (zero_f fl) ≡ true
  pub zero_le_max : fl.le (zero_f fl) (fl.decimal 200000 0) ≡ true
  pub max_lt_zero : fl.lt (fl.decimal 200000 0) (zero_f fl) ≡ false
  pub max_lt_max : fl.lt (fl.decimal 200000 0) (fl.decimal 200000 0) ≡ false
  pub one_le_zero : fl.le (one_f fl) (zero_f fl) ≡ false
  pub zero_lt_twenty : fl.lt (zero_f fl) (fl.decimal 20 0) ≡ true

module _ (fl : Float) where
  -- An entry of `m_clients`: the key is the client's own name, and its speech carries somewhere.
  abbrev pub ClientOk : Text × RemoteClient fl → Type 0
  ClientOk (k, c) =
      (c.nickname ≡ k) × (is_empty k ≡ false) × (fl.lt (zero_f fl) c.speak_range_meters ≡ true)

  abbrev pub UidOk : Text × Text → Type 0
  UidOk (k, uid) = (is_empty k ≡ false) × (is_empty uid ≡ false)

  abbrev pub ConfigOk : Text × Text → Type 0
  ConfigOk (k, v) = is_valid_config_key k ≡ true

  abbrev pub TxOk : Text × RemoteTx fl → Type 0
  TxOk (k, tx) = (tx.nickname ≡ k) × (is_empty k ≡ false) × (is_empty tx.frequency ≡ false)

  -- The range of our own transmission lies between 0 and 200 km, so it is no NaN either, and
  -- nothing is left of a transmission that is over.
  pub record TangentOk (pressed : Bool) (range : fl.F) (classname : Text) : Type 0 where
    pub from_zero : fl.le (zero_f fl) range ≡ true
    pub to_max : fl.lt (fl.decimal 200000 0) range ≡ false
    pub idle_range : pressed ≡ false → range ≡ zero_f fl
    pub idle_classname : pressed ≡ false → classname ≡ []

  -- The ids of the antennas differ from one another, and none is empty.
  abbrev pub Fresh : Text → List (AntennaData fl) → Type 0
  Fresh id = All (λ b. text_eq b.net_id id ≡ false)

  abbrev pub AntennasOk : List (AntennaData fl) → Type 0
  AntennasOk [] = Unit
  AntennasOk (a ∷ l) = (is_empty a.net_id ≡ false) × Fresh a.net_id l × AntennasOk l

  pub record IsWellFormed (s : State fl) : Type 0 where
    pub clients : All ClientOk s.clients
    pub uids : All UidOk s.name_to_uid
    pub config : All ConfigOk s.config
    pub remote_tx : All TxOk s.remote_tx
    pub antennas : AntennasOk s.antennas
    pub tangent : TangentOk s.tangent_pressed s.tx_range s.tx_radio_classname
    pub multiplicator : fl.le s.receiving_distance_multiplicator (zero_f fl) ≡ false
    pub speak_volume : leb_ℤ s.speak_volume_meters (pos 0) ≡ false

  -- One component is replaced by another that fits.
  pub IsWellFormed-clients :
      (m : Map Text (RemoteClient fl)) (s : State fl)
      → All ClientOk m
      → IsWellFormed s
      → IsWellFormed (record s { clients = m })
  IsWellFormed-clients m s p h = assumption

  pub IsWellFormed-config :
      (m : Map Text Text) (s : State fl)
      → All ConfigOk m
      → IsWellFormed s
      → IsWellFormed (record s { config = m; have_config = true })
  IsWellFormed-config m s p h = assumption

  pub IsWellFormed-uids :
      (m : Map Text Text) (s : State fl)
      → All UidOk m
      → IsWellFormed s
      → IsWellFormed (record s { name_to_uid = m })
  IsWellFormed-uids m s p h = assumption

  pub IsWellFormed-remote_tx :
      (m : Map Text (RemoteTx fl)) (s : State fl)
      → All TxOk m
      → IsWellFormed s
      → IsWellFormed (record s { remote_tx = m })
  IsWellFormed-remote_tx m s p h = assumption

  pub IsWellFormed-antennas :
      (l : List (AntennaData fl)) (s : State fl)
      → AntennasOk l
      → IsWellFormed s
      → IsWellFormed (record s { antennas = l })
  IsWellFormed-antennas l s p h = assumption

  module _ (laws : ConstantLaws fl) where
    -- A tangent that is not pressed.
    pub TangentOk-idle : TangentOk false (zero_f fl) []
    TangentOk-idle = record {
      from_zero = laws.zero_le_zero;
      to_max = laws.max_lt_zero;
      idle_range = λ _. refl;
      idle_classname = λ _. refl;
    }

    pub IsWellFormed-init : IsWellFormed (init fl)
    IsWellFormed-init = record {
      clients = tt;
      uids = tt;
      config = tt;
      remote_tx = tt;
      antennas = tt;
      tangent = TangentOk-idle;
      multiplicator = laws.one_le_zero;
      speak_volume = refl;
    }
