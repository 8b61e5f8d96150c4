-- ===== src/Protocol/Fields.antt =====
-- The reader of Protocol.cpp undoes its writer, field by field, whatever follows the field.
use task_force_radio_standal.Base.{
  length, length-append, length-take, length-drop, take-append, drop-append, Text, ℕ, ◌+◌, ◌*◌, ◌/◌,
  ◌%◌, ◌^◌, ◌≤◌, ◌<◌, ◌≡◌, some, [], ◌∷◌, ◌++◌, arith,
}
use task_force_radio_standal.Protocol.{
  PacketWriter, put_bytes, read_uint16, read_uint32, read_string8,
}

-- The four and two bytes of a number give it back.
pub read_uint16_bytes :
    (v : ℕ) (rest : Text)
    → v < 2 ^ 16
    → read_uint16 (v % 256 ∷ v / 2 ^ 8 % 256 ∷ rest) ≡ some (v, rest)
unfolding read_uint16
read_uint16_bytes v rest h = let e : v % 256 + v / 2 ^ 8 % 256 * 2 ^ 8 ≡ v = omega arith in rw e

pub read_uint32_bytes :
    (v : ℕ) (rest : Text)
    → v < 2 ^ 32
    → read_uint32 (v % 256 ∷ v / 2 ^ 8 % 256 ∷ v / 2 ^ 16 % 256 ∷ v / 2 ^ 24 % 256 ∷ rest)
      ≡ some (v, rest)
unfolding read_uint32
read_uint32_bytes v rest h =
    let e : v % 256
          + v / 2 ^ 8 % 256 * 2 ^ 8
          + v / 2 ^ 16 % 256 * 2 ^ 16
          + v / 2 ^ 24 % 256 * 2 ^ 24
        ≡ v =
      omega arith in
    rw e

pub read_string8_bytes :
    (s : Text) (limit : ℕ) (rest : Text)
    → length s ≤ limit
    → length s ≤ 255
    → read_string8 limit (length s % 256 ∷ (s ++ rest)) ≡ some (s, rest)
unfolding read_string8
read_string8_bytes s limit rest h fits =
    let size : length s % 256 ≡ length s = omega arith in
    rw size (ground (arith, length-append s rest, take-append s rest, drop-append s rest))

-- A field that `read_string8` returns is within the caller's limit, and is taken off the datagram.
read_string8-le :
    (limit : ℕ) (bs s rest : Text)
    → read_string8 limit bs ≡ some (s, rest)
    → (length s ≤ limit) × (length bs ≡ 1 + length s + length rest)
unfolding read_string8
read_string8-le limit [] s rest h = cc
read_string8-le limit (len ∷ bs) s rest h = ground (arith, length-take len bs, length-drop len bs)

-- A write either appends exactly its bytes within the capacity, or throws.
pub put_bytes_lem :
    (bs : Text) (w : PacketWriter)
    → (length w.written + length bs ≤ w.capacity)
    → put_bytes bs w ≡ some (record w { written = w.written ++ bs })
unfolding put_bytes
put_bytes_lem bs w h = ground arith

-- A write that does not throw appends exactly its bytes and stays within the capacity, which it
-- keeps.
pub put_bytes-bounded :
    (bs : Text) (w w' : PacketWriter)
    → put_bytes bs w ≡ some w'
    → (length w'.written ≤ w'.capacity)
      × (w'.capacity ≡ w.capacity)
      × (w'.written ≡ w.written ++ bs)
unfolding put_bytes
put_bytes-bounded bs w w' h = ground (arith, length-append w.written bs)
