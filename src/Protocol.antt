-- ===== src/Protocol.antt =====
-- The wire format of the voice server (addon/extensions/task_force_radio_pipe/src/Voice/Protocol.h
-- and Protocol.cpp): packet types, UTF-8 truncation, the packet writer and the packet reader.
-- A byte buffer is a list of bytes; a thrown exception is `none`.
pub mod Truncate
pub mod Fields
use task_force_radio_standal.Base.{
  ltb, ◌==◌, if◌then◌else◌, length, get_or, take, drop, Text, ℕ, zero, suc, ◌+◌, ◌-◌, ◌*◌, ◌/◌, ◌%◌,
  ◌^◌, Bool, Option, none, some, [], ◌∷◌, ◌++◌,
}
use Prim.Native.Nat.{bit_and}

pub data PacketType : Type 0 where
  connect_request connect_accept connect_reject disconnect ping pong voice_up : PacketType
  voice_down client_joined client_left roster_request radio_tx_update : PacketType
  radio_tx_broadcast : PacketType

-- The numbers of the enumeration.
unfoldable pub packet_code : PacketType → ℕ
packet_code connect_request = 1
packet_code connect_accept = 2
packet_code connect_reject = 3
packet_code disconnect = 4
packet_code ping = 5
packet_code pong = 6
packet_code voice_up = 7
packet_code voice_down = 8
packet_code client_joined = 9
packet_code client_left = 10
packet_code roster_request = 11
packet_code radio_tx_update = 12
packet_code radio_tx_broadcast = 13

abbrev pub last_frame_flag : ℕ
last_frame_flag = 1

abbrev pub version_major : ℕ
version_major = 1

abbrev pub max_name_length : ℕ
max_name_length = 32

abbrev pub max_uid_length : ℕ
max_uid_length = 40

abbrev pub max_opus_frame_length : ℕ
max_opus_frame_length = 500

abbrev pub max_freq_length : ℕ
max_freq_length = 16

abbrev pub max_subtype_length : ℕ
max_subtype_length = 16

abbrev pub max_version_length : ℕ
max_version_length = 16

-- `(c & 0xC0) == 0x80`
unfoldable pub is_continuation : ℕ → Bool
is_continuation b = bit_and b 0xc0 == 0x80

-- `while (cut > 0 && is_continuation(result[cut])) --cut;`
unfoldable pub walk_back : Text → ℕ → ℕ
walk_back s zero = 0
walk_back s (suc cut) = if is_continuation (get_or s (suc cut) 0) then walk_back s cut else suc cut

-- The outer loop of `truncateUtf8`: each round erases from the start of the last sequence.
unfoldable pub truncate_loop : ℕ → Text → ℕ → Text
unfolding walk_back
truncate_loop zero s limit = s
truncate_loop (suc fuel) s limit =
    let shorter = truncate_loop fuel (take (walk_back s (length s - 1)) s) limit in
    if ltb limit (length s) then shorter else s

-- Every round drops a byte at least, so `length s` rounds are enough.
unfoldable pub truncate_utf8 : Text → ℕ → Text
unfolding truncate_loop
truncate_utf8 s limit = truncate_loop (length s) s limit

-- What has been written, and the size of the caller's buffer.
pub record PacketWriter : Type 0 where
  pub written : Text
  pub capacity : ℕ

abbrev pub new_writer : ℕ → PacketWriter
new_writer n = record { written = []; capacity = n }

-- `ensure(more)`, and then the bytes.
unfoldable pub put_bytes : Text → PacketWriter → Option PacketWriter
put_bytes bs w =
    if ltb w.capacity (length w.written + length bs)
    then none
    else some (record w { written = w.written ++ bs })

unfoldable pub write_byte : ℕ → PacketWriter → Option PacketWriter
unfolding put_bytes
write_byte v = put_bytes (v % 256 ∷ [])

unfoldable pub write_uint16 : ℕ → PacketWriter → Option PacketWriter
unfolding put_bytes
write_uint16 v = put_bytes (v % 256 ∷ v / 2 ^ 8 % 256 ∷ [])

unfoldable pub write_uint32 : ℕ → PacketWriter → Option PacketWriter
unfolding put_bytes
write_uint32 v = put_bytes (v % 256 ∷ v / 2 ^ 8 % 256 ∷ v / 2 ^ 16 % 256 ∷ v / 2 ^ 24 % 256 ∷ [])

unfoldable pub write_string8 : Text → PacketWriter → Option PacketWriter
unfolding put_bytes
write_string8 s w = if ltb 255 (length s) then none else put_bytes (length s % 256 ∷ s) w

unfoldable pub write_bytes : Text → PacketWriter → Option PacketWriter
unfolding put_bytes
write_bytes = put_bytes

-- A reader is what is left of the datagram. `|` of bytes at different places is their sum.
unfoldable pub read_byte : Text → Option (ℕ × Text)
read_byte [] = none
read_byte (a ∷ rest) = some (a, rest)

unfoldable pub read_uint16 : Text → Option (ℕ × Text)
read_uint16 (a ∷ b ∷ rest) = some (a + b * 2 ^ 8, rest)
read_uint16 _ = none

unfoldable pub read_uint32 : Text → Option (ℕ × Text)
read_uint32 (a ∷ b ∷ c ∷ d ∷ rest) = some (a + b * 2 ^ 8 + c * 2 ^ 16 + d * 2 ^ 24, rest)
read_uint32 _ = none

infixl 5 ◌>>=◌
abbrev pub ◌>>=◌ {ℓ κ} : {A : Type ℓ} {B : Type κ} → Option A → (A → Option B) → Option B
none >>= f = none
some a >>= f = f a

-- `need(len)`, then the `len` bytes.
unfoldable pub take_field : ℕ → Text → Option (Text × Text)
take_field len rest = if ltb (length rest) len then none else some (take len rest, drop len rest)

unfoldable pub read_string8 : ℕ → Text → Option (Text × Text)
unfolding read_byte take_field
read_string8 max_length bs = do
  (len, rest) ← read_byte bs
  if ltb max_length len then none else take_field len rest
