-- ===== src/Voice/Device.antt =====
-- The audio devices of the system
-- (addon/extensions/task_force_radio_pipe/src/Voice/AudioDeviceUtil.cpp, with
-- WasapiCaptureEngine.cpp: isDeviceMutedAtOsLevel). What the audio interface answers is an argument.
pub mod Loop
pub mod Owned
pub mod Switched
use task_force_radio_standal.Resource.{◌>>=◌, ◌>>◌}
use task_force_radio_standal.Base.{
  leb, ◌==◌, if◌then◌else◌, Text, is_empty, text_eq, ℕ, ◌-◌, Bool, true, false, not, ◌&&◌, ◌||◌,
  Option, none, some, [], ◌∷◌,
}
use task_force_radio_standal.Float.{Float}
use task_force_radio_standal.Resource.{
  com_apartment, device_enumerator, endpoint, endpoint_volume, endpoint_id, gets, uses, frees, Run,
  return, say, acquire, given, recover,
}

-- The answers to the search for the default device; the identifier is `none` where GetId fails.
pub record Endpoint : Type 0 where
  pub enumerator : Bool
  pub found : Bool
  pub named : Option Text

-- `nullptr` is the early return.
unfoldable pub get_default_device : Endpoint → Run (Unit {0})
get_default_device a = do
  acquire (given a.enumerator) device_enumerator []
  say (uses device_enumerator ∷ [])
  acquire (given a.found) endpoint (frees device_enumerator ∷ [])
  say (frees device_enumerator ∷ [])

-- Of a device that is not null, as all callers have it.
unfoldable pub get_device_id : Option Text → Run Text
get_device_id none = (uses endpoint ∷ [], some [])
get_device_id (some name) =
    (uses endpoint ∷ gets endpoint_id ∷ uses endpoint_id ∷ frees endpoint_id ∷ [], some name)

unfoldable pub get_default_device_id : Endpoint → Run Text
unfolding get_default_device get_device_id
get_default_device_id a =
    recover [] (do
      get_default_device a
      name ← get_device_id a.named
      say (frees endpoint ∷ [])
      return name)

-- The poll of the default device in both device loops: whether another one took its place, and the
-- time of the last look. The clock is steady.
unfoldable pub is_switched : Text → Text → Bool
is_switched current name =
    not (is_empty current) && not (is_empty name) && not (text_eq current name)

abbrev pub check_interval : ℕ
check_interval = 1000000000

unfoldable pub check_device : Text → ℕ → ℕ → Endpoint → Run (Bool × ℕ)
unfolding get_default_device_id is_switched
check_device name now last a =
    if leb check_interval (now - last)
    then (do current ← get_default_device_id a; return (is_switched current name, now))
    else return (false, last)

-- A `WAVEFORMATEX`, and the sub-format of the longer struct; `cb_size` is what follows the short
-- one.
pub record Format : Type 0 where
  pub tag : ℕ
  pub channels : ℕ
  pub rate : ℕ
  pub bits : ℕ
  pub cb_size : ℕ
  pub sub_format : Text

-- `kSubtypeIeeeFloat`, as it lies in memory.
abbrev pub ieee_float : Text
ieee_float = 3 ∷ 0 ∷ 0 ∷ 0 ∷ 0 ∷ 0 ∷ 16 ∷ 0 ∷ 128 ∷ 0 ∷ 0 ∷ 170 ∷ 0 ∷ 56 ∷ 155 ∷ 113 ∷ []

-- The tags are WAVE_FORMAT_IEEE_FLOAT and WAVE_FORMAT_EXTENSIBLE, the sizes those of the structs.
unfoldable pub is_float_format : Format → Bool
is_float_format f =
    f.tag == 3 || f.tag == 65534 && leb (40 - 18) f.cb_size && text_eq f.sub_format ieee_float

module _ (fl : Float) where
  open fl use {F, lt, decimal}

  -- The answers of the volume interface; `none` outside where Activate fails, inside where the read
  -- does.
  abbrev pub Volume : Type 0
  Volume = Option (Option Bool × Option F)

  abbrev pub muted_of : Option Bool → Bool
  muted_of none = false
  muted_of (some muted) = muted

  abbrev pub level_of : Option F → F
  level_of none = decimal 1 0
  level_of (some level) = level

  unfoldable pub is_muted_or_zero_volume : Volume → Run Bool
  is_muted_or_zero_volume volume = recover false (do
    say (uses endpoint ∷ [])
    (muted, level) ← acquire volume endpoint_volume []
    say (uses endpoint_volume ∷ uses endpoint_volume ∷ frees endpoint_volume ∷ [])
    return (muted_of muted || lt (level_of level) (decimal 1 2)))

  -- Without a device the volume is not looked at, and nothing is muted.
  unfoldable pub muted_now : Endpoint → Volume → Run Bool
  unfolding get_default_device is_muted_or_zero_volume
  muted_now a volume = recover false (do
    get_default_device a
    muted ← is_muted_or_zero_volume volume
    say (frees endpoint ∷ [])
    return muted)

  -- `weInitialized`: the thread may have an apartment of another kind, which is left alone.
  unfoldable pub is_device_muted_at_os_level : Bool → Endpoint → Volume → Run Bool
  unfolding muted_now
  is_device_muted_at_os_level true a volume = do
    say (gets com_apartment ∷ [])
    muted ← muted_now a volume
    say (frees com_apartment ∷ [])
    return muted
  is_device_muted_at_os_level false a volume = muted_now a volume
