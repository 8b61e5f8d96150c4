-- ===== src/Voice/Device/Owned.antt =====
-- What the search for a device holds
-- (addon/extensions/task_force_radio_pipe/src/Voice/AudioDeviceUtil.cpp).
use task_force_radio_standal.Base.{
  leb, if_keeps, Text, ℕ, ◌-◌, refl, Bool, true, false, Option, none, some, List, ◌∷◌,
}
use task_force_radio_standal.Float.{Float}
use task_force_radio_standal.Resource.{
  Resource, com_apartment, endpoint, audio_client, service_client, event_handle, follow, Run,
}
use task_force_radio_standal.Resource.Ownership.{
  Runs, >>=-Runs, >>-Runs, say-Runs, return-Runs, acquire-Runs, recover-Runs, calls-Runs, IsClean,
  Runs-IsClean,
}
use task_force_radio_standal.Voice.Device.{
  Endpoint, get_default_device, get_device_id, get_default_device_id, check_interval, check_device,
  Volume, is_muted_or_zero_volume, muted_now, is_device_muted_at_os_level,
}
use task_force_radio_standal.Voice.Device.Loop.{Fed, go_on, ThreadFed, settle}

pub get_default_device-Runs :
    (a : Endpoint) (held : List Resource) → Runs held held (get_default_device a) (endpoint ∷ held)
unfolding get_default_device follow
get_default_device-Runs a held =
    >>-Runs (acquire-Runs _ _ refl)
      (>>-Runs (say-Runs _ refl) (>>-Runs (acquire-Runs _ _ refl) (say-Runs _ refl)))

pub get_device_id-Runs :
    (name : Option Text) (left held : List Resource)
    → Runs left (endpoint ∷ held) (get_device_id name) (endpoint ∷ held)
unfolding get_device_id follow
get_device_id-Runs none left held = calls-Runs refl
get_device_id-Runs (some name) left held = calls-Runs refl

get_default_device_id-Runs :
    (a : Endpoint) (left held : List Resource) → Runs left held (get_default_device_id a) held
unfolding get_default_device_id follow
get_default_device_id-Runs a left held = recover-Runs _ (
    >>-Runs (get_default_device-Runs a held) (
      >>=-Runs (get_device_id-Runs a.named held held)
        λ _. >>-Runs (say-Runs _ refl) (return-Runs _)))

pub check_device-Runs :
    (name : Text) (now last : ℕ) (a : Endpoint) (left held : List Resource)
    → Runs left held (check_device name now last a) held
unfolding check_device follow
check_device-Runs name now last a left held =
    if_keeps (λ (m : Run (Bool × ℕ)). Runs left held m held) (leb check_interval (now - last))
      (λ _. >>=-Runs (get_default_device_id-Runs a left held) λ _. return-Runs _)
      (λ _. return-Runs _)

-- What an open session holds.
abbrev pub opened : List Resource → List Resource
opened held = service_client ∷ event_handle ∷ audio_client ∷ held

pub go_on-Runs {ℓ κ} :
    {O : Type ℓ} {S : Type κ} (served : Option (Bool × List O × S))
    {rest : List O → S → Run (Fed O S)} {left held : List Resource}
    → ((out : List O) (s : S) → Runs left held (rest out s) held)
    → Runs left held (go_on served rest) held
unfolding go_on
go_on-Runs none h = return-Runs _
go_on-Runs (some (false, out, s)) h = return-Runs _
go_on-Runs (some (true, out, s)) h = h out s

pub settle-Runs {ℓ κ} :
    {O : Type ℓ} {S : Type κ} (fed : Fed O S) {rest : List O → S → Run (ThreadFed O S)}
    {left held : List Resource}
    → ((out : List O) (s : S) → Runs left held (rest out s) held)
    → Runs left held (settle fed rest) held
unfolding settle
settle-Runs none h = return-Runs _
settle-Runs (some (out, s)) h = h out s

module _ (fl : Float) where
  is_muted_or_zero_volume-Runs :
      (volume : Volume fl) (left held : List Resource)
      → Runs left (endpoint ∷ held) (is_muted_or_zero_volume fl volume) (endpoint ∷ held)
  unfolding is_muted_or_zero_volume follow
  is_muted_or_zero_volume-Runs volume left held = recover-Runs _ (
      >>-Runs (say-Runs _ refl)
        (>>=-Runs (acquire-Runs _ _ refl) λ _. >>-Runs (say-Runs _ refl) (return-Runs _)))

  muted_now-Runs :
      (a : Endpoint) (volume : Volume fl) (left held : List Resource)
      → Runs left held (muted_now fl a volume) held
  unfolding muted_now follow
  muted_now-Runs a volume left held = recover-Runs _ (
      >>-Runs (get_default_device-Runs a held) (
        >>=-Runs (is_muted_or_zero_volume-Runs volume held held)
          λ _. >>-Runs (say-Runs _ refl) (return-Runs _)))

  -- Whether the microphone is muted is asked with nothing left behind, whatever the system answers:
  -- each object that it gave is released once, and none is used before or after. The apartment is
  -- left only where it was entered, behind the last release.
  is_device_muted_at_os_level-IsClean :
      (initialized : Bool) (a : Endpoint) (volume : Volume fl) (held : List Resource)
      → IsClean held (is_device_muted_at_os_level fl initialized a volume)
  unfolding is_device_muted_at_os_level follow
  is_device_muted_at_os_level-IsClean true a volume held =
      let asked = muted_now-Runs a volume held (com_apartment ∷ held) in
      Runs-IsClean
        (>>-Runs (say-Runs _ refl) (>>=-Runs asked λ _. >>-Runs (say-Runs _ refl) (return-Runs _)))
  is_device_muted_at_os_level-IsClean false a volume held =
      Runs-IsClean (muted_now-Runs a volume held held)
