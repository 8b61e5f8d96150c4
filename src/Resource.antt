-- ===== src/Resource.antt =====
-- What the extension holds of the system
-- (addon/extensions/task_force_radio_pipe/src: Log.cpp, AudioDeviceUtil.cpp, the device sessions and
-- the sockets in Voice). The system's calls are not part of the program: whether one succeeds is an
-- argument where it is made. What is kept of a call is which resource it gives, needs or takes back.
pub mod Ownership
pub mod Values
use task_force_radio_standal.Base.{
  ◌==◌, if◌then◌else◌, ℕ, Bool, true, false, ◌||◌, Option, none, some, List, [], ◌∷◌, ◌++◌,
}

pub data Resource : Type 0 where
  -- CoInitializeEx and CoUninitialize
  com_apartment : Resource
  -- the objects of the audio interface, each with a Release of its own
  device_enumerator endpoint endpoint_volume audio_client service_client : Resource
  -- memory of CoTaskMemFree
  endpoint_id mix_format : Resource
  -- CreateEventW and CloseHandle, CreateFileW and CloseHandle
  event_handle log_file : Resource
  -- GetBuffer and ReleaseBuffer
  device_buffer : Resource
  -- BCryptOpenAlgorithmProvider, BCryptCreateHash
  hash_provider hash_object : Resource
  -- getaddrinfo and freeaddrinfo, socket and closesocket
  address_list udp_socket : Resource

-- A call that gave a resource, one that needs it, and one that gives it back.
pub data Call : Type 0 where
  gets uses frees : Resource → Call

number : Resource → ℕ
number com_apartment = 0
number device_enumerator = 1
number endpoint = 2
number endpoint_volume = 3
number audio_client = 4
number service_client = 5
number endpoint_id = 6
number mix_format = 7
number event_handle = 8
number log_file = 9
number device_buffer = 10
number hash_provider = 11
number hash_object = 12
number address_list = 13
number udp_socket = 14

-- What is held, the latest first; a resource may be held more than once, as a counted reference is.
unfoldable pub holds : Resource → List Resource → Bool
unfolding number
holds r [] = false
holds r (x ∷ held) = number r == number x || holds r held

unfoldable pub remove : Resource → List Resource → List Resource
unfolding number
remove r [] = []
remove r (x ∷ held) = if number r == number x then held else x ∷ remove r held

-- What is held behind a run of calls; `none` where one needs or gives back what is not held.
unfoldable pub follow : List Call → List Resource → Option (List Resource)
unfolding holds remove
follow [] held = some held
follow (gets r ∷ calls) held = follow calls (r ∷ held)
follow (uses r ∷ calls) held = if holds r held then follow calls held else none
follow (frees r ∷ calls) held = if holds r held then follow calls (remove r held) else none

-- Code that makes calls, and returns early where the value is `none`.
abbrev pub Run {ℓ} : Type ℓ → Type ℓ
Run A = List Call × Option A

unfoldable pub after {ℓ} : {A : Type ℓ} → List Call → Run A → Run A
after calls (more, out) = (calls ++ more, out)

infixl 5 ◌>>=◌ ◌>>◌
unfoldable pub ◌>>=◌ {ℓ κ} : {A : Type ℓ} {B : Type κ} → Run A → (A → Run B) → Run B
unfolding after
(calls, none) >>= f = (calls, none)
(calls, some a) >>= f = after calls (f a)

unfoldable pub ◌>>◌ {ℓ} : {B : Type ℓ} → Run (Unit {0}) → Run B → Run B
unfolding ◌>>=◌
m >> k = m >>= λ _. k

unfoldable pub return {ℓ} : {A : Type ℓ} → A → Run A
return a = ([], some a)

unfoldable pub say : List Call → Run (Unit {0})
say calls = (calls, some tt)

-- A call that gives the resource if it succeeds, with what it tells; the early return if not.
unfoldable pub acquire {ℓ} : {A : Type ℓ} → Option A → Resource → List Call → Run A
acquire none r cleanup = (cleanup, none)
acquire (some a) r cleanup = (gets r ∷ [], some a)

-- What a call gives that tells nothing but that it succeeded.
abbrev pub given : Bool → Option (Unit {0})
given true = some tt
given false = none

-- An early return behind the calls that clean up.
unfoldable pub check : Bool → List Call → Run (Unit {0})
check true cleanup = ([], some tt)
check false cleanup = (cleanup, none)

-- A function whose early return gives `a`.
unfoldable pub recover {ℓ} : {A : Type ℓ} → A → Run A → Run A
recover a (calls, none) = (calls, some a)
recover a (calls, some b) = (calls, some b)

-- A `break` with `a`, or the rest of the loop.
unfoldable pub break_if {ℓ} : {A : Type ℓ} → Bool → A → Run A → Run A
unfolding return
break_if true a rest = return a
break_if false a rest = rest

-- A call of a function, whose early return is its outcome.
unfoldable pub attempt {ℓ} : {A : Type ℓ} → Run A → Run (Option A)
attempt (calls, out) = (calls, some out)

unfoldable pub of_option {ℓ} : {A : Type ℓ} → Option A → Run A
of_option o = ([], o)
