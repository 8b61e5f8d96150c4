-- ===== src/Voice/Device/Switched.antt =====
-- When the poll sees another default device
-- (addon/extensions/task_force_radio_pipe/src/Voice/WasapiCaptureEngine.cpp and PlaybackMixer.cpp:
-- the end of the loops of runDeviceSession).
use task_force_radio_standal.Base.{
  leb, leb→le, le→leb, Bool-cases, Text, ℕ, ◌+◌, ◌-◌, ◌≤◌, ◌<◌, ◌≡◌, refl, ap, ◌∙◌, ◌⊎◌, inl, inr,
  Bool, true, false, some, arith,
}
use task_force_radio_standal.Resource.{after, ◌>>◌, return, say, acquire, recover}
use task_force_radio_standal.Resource.Values.{>>=-value, recover-value}
use task_force_radio_standal.Voice.Device.{
  Endpoint, get_default_device, get_device_id, get_default_device_id, is_switched, check_interval,
  check_device,
}

-- The default device is found, and it is not the one of this name.
abbrev pub IsOther : Text → Endpoint → Type 0
IsOther name a =
    (a.enumerator ≡ true)
    × (a.found ≡ true)
    × (shown : Text) × (a.named ≡ some shown)
    × (is_switched shown name ≡ true)

get_default_device_id-other :
    (name : Text) (a : Endpoint)
    → IsOther name a
    → (shown : Text) × ((get_default_device_id a).1 ≡ some shown) × (is_switched shown name ≡ true)
unfolding get_default_device_id get_default_device get_device_id recover acquire say ◌>>◌ return
get_default_device_id-other name a (made, found, shown, named, other) =
    (shown, rw (made, found, named) refl, other)

get_default_device_id-found :
    (a : Endpoint) → (shown : Text) × ((get_default_device_id a).1 ≡ some shown)
unfolding get_default_device_id
get_default_device_id-found a = recover-value _ _

looked :
    (name : Text) (now last : ℕ) (a : Endpoint) (shown : Text)
    → leb check_interval (now - last) ≡ true
    → (get_default_device_id a).1 ≡ some shown
    → (check_device name now last a).1 ≡ some (is_switched shown name, now)
unfolding check_device after return
looked name now last a shown due found = rw (due, >>=-value (get_default_device_id a) _ found) refl

-- From `since` on the default device is another: a poll before that leaves an earlier time of the
-- last look, and one after that, if it is due, sees it.
pub check_device-cases :
    (name : Text) (since now last : ℕ) (a : Endpoint)
    → last < since
    → (since ≤ now → IsOther name a)
    → (switched : Bool) × (last' : ℕ) × ((check_device name now last a).1 ≡ some (switched, last'))
      × ((switched ≡ true) ⊎ (last' < since))
check_device-cases name since now last a before other =
    elim (Bool-cases (leb check_interval (now - last))) [
      | inr early ↦ (false, last, unfold check_device return in (rw early refl), inr before)
      | inl due ↦ elim (Bool-cases (leb since now)) [
        | inl after_it ↦
            let (shown, found, switched) =
              get_default_device_id-other name a (other (leb→le since now after_it)) in
            (_, now, looked name now last a shown due found, inl switched)
        | inr before_it ↦
            let (shown, found) = get_default_device_id-found a in
            (_, now, looked name now last a shown due found, inr (ground arith))
      ]
    ]

-- A second after `since` the poll is due, and sees it.
pub check_device-due :
    (name : Text) (since now last : ℕ) (a : Endpoint)
    → last < since
    → since + check_interval ≤ now
    → IsOther name a
    → (check_device name now last a).1 ≡ some (true, now)
check_device-due name since now last a before late other =
    let (shown, found, switched) = get_default_device_id-other name a other in
    looked name now last a shown (le→leb _ _ (omega arith)) found ∙ ap (λ b. some (b, now)) switched

pub check_device-found :
    (name : Text) (now last : ℕ) (a : Endpoint)
    → (x : Bool × ℕ) × ((check_device name now last a).1 ≡ some x)
check_device-found name now last a = elim (Bool-cases (leb check_interval (now - last))) [
  | inr early ↦ ((false, last), unfold check_device return in (rw early refl))
  | inl due ↦
      let (shown, found) = get_default_device_id-found a in
      ((is_switched shown name, now), looked name now last a shown due found)
]
