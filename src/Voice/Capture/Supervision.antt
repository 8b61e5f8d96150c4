-- ===== src/Voice/Capture/Supervision.antt =====
-- The supervision of a device's sessions
-- (addon/extensions/task_force_radio_pipe/src/Voice/WasapiCaptureEngine.cpp and
-- Voice/PlaybackMixer.cpp: threadMain). A session's outcome is whether it ran; the thread is asked
-- to stop behind the last one.
use task_force_radio_standal.Base.{
  ◌==◌, if◌then◌else◌, ℕ, zero, suc, ◌+◌, ◌/◌, ◌%◌, ◌^◌, ◌<◌, ◌≡◌, refl, Bool, true, false, [],
  arith,
}
use task_force_radio_standal.Float.{Float}
use task_force_radio_standal.Voice.Capture.{Capture, new_capture}
use task_force_radio_standal.Voice.Mixer.{Mixer}

pub record Supervisor : Type 0 where
  pub failure_count : ℕ
  -- the lines logged
  pub reopened : ℕ
  pub no_device : ℕ

abbrev pub new_supervisor : Supervisor
new_supervisor = record { failure_count = 0; reopened = 0; no_device = 0 }

-- `(++failureCount % 30) == 1`, in 32 bits
unfoldable pub after_session : Bool → Supervisor → Supervisor
after_session true v = record v { failure_count = 0; reopened = v.reopened + 1 }
after_session false v =
    let count = (v.failure_count + 1) % 2 ^ 32 in
    record v {
      failure_count = count;
      no_device = if count % 30 == 1 then v.no_device + 1 else v.no_device;
    }

-- The state that belongs to a device goes away with it.
module _ (fl : Float) where
  unfoldable pub end_capture : Bool → Supervisor × Capture fl → Supervisor × Capture fl
  unfolding after_session
  end_capture ran (v, c) = (after_session ran v, new_capture fl)

  unfoldable pub end_playback : Bool → Supervisor × Mixer fl → Supervisor × Mixer fl
  unfolding after_session
  end_playback ran (v, m) =
      (after_session ran v, record m { mixed_48k = []; resample_cursor = fl.d_decimal 0 0 })

-- `n` sessions in a row that find no device.
unfoldable pub failures : ℕ → Supervisor → Supervisor
unfolding after_session
failures zero v = v
failures (suc n) v = failures n (after_session false v)

failures_from :
    (n : ℕ) (v : Supervisor)
    → v.failure_count + n < 2 ^ 32
    → (failures n v).no_device + (v.failure_count + 29) / 30
      ≡ v.no_device + (v.failure_count + n + 29) / 30
unfolding failures
failures_from zero v h = omega arith
failures_from (suc n) v h =
    let later = failures_from n (after_session false v) (unfold after_session in (omega arith)) in
    unfold after_session in (ground (arith, later))

failures-reopened : (n : ℕ) (v : Supervisor) → (failures n v).reopened ≡ v.reopened
unfolding failures after_session
failures-reopened zero v = refl
failures-reopened (suc n) v = failures-reopened n (after_session false v)

-- The log of a device that is missing is throttled: of `n` sessions in a row that find none, from a
-- start or from a session that ran, every thirtieth is logged and the first, and no session is
-- taken for one that ran.
missing_device_is_throttled :
    (n : ℕ) (v : Supervisor)
    → v.failure_count ≡ 0
    → n < 2 ^ 32
    → ((failures n v).no_device ≡ v.no_device + (n + 29) / 30)
      × ((failures n v).reopened ≡ v.reopened)
missing_device_is_throttled n v start small =
    (omega (arith, failures_from n v (omega arith)), failures-reopened n v)
