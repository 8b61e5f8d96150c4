-- ===== src/Voice/Network/Packets.antt =====
-- The packets of the relay's protocol
-- (addon/extensions/task_force_radio_pipe/src/Voice/VoiceNetworkClient.cpp: tryHandshake,
-- handlePacket, sendVoiceFrame, sendRadioTx).
use task_force_radio_standal.Protocol.{◌>>=◌}
use task_force_radio_standal.Base.{
  ltb, ◌==◌, if◌then◌else◌, length, length-append, Text, is_empty, ℕ, ◌+◌, ◌/◌, ◌%◌, ◌^◌, ◌≤◌, ◌<◌,
  ◌≡◌, refl, ap, Bool, true, false, some, [], ◌∷◌, ◌++◌, arith,
}
use task_force_radio_standal.Protocol.{
  packet_code, truncate_utf8, PacketWriter, put_bytes, write_byte, write_uint16, write_string8,
  write_bytes, read_byte,
}
use task_force_radio_standal.Protocol.Truncate.{length-truncate_utf8}
use task_force_radio_standal.Protocol.Fields.{
  read_uint16_bytes, read_uint32_bytes, read_string8_bytes, put_bytes_lem,
}
use task_force_radio_standal.Voice.Network.{
  radio_tx, sent, nonzero, read_radio_tx, handle_packet, voice_up_packet, radio_tx_packet, Client,
  send_voice_frame,
}

-- The bytes of the fields, as the relay lays them out.
abbrev pub bytes16 : ℕ → Text
bytes16 v = v % 256 ∷ v / 2 ^ 8 % 256 ∷ []

abbrev pub bytes32 : ℕ → Text
bytes32 v = v % 256 ∷ v / 2 ^ 8 % 256 ∷ v / 2 ^ 16 % 256 ∷ v / 2 ^ 24 % 256 ∷ []

abbrev pub field8 : Text → Text
field8 s = length s % 256 ∷ s

abbrev pub bit : Bool → ℕ
bit true = 1
bit false = 0

abbrev pub writer : Text → ℕ → PacketWriter
writer written capacity = record { written = written; capacity = capacity }

pub write_string8_fits :
    (s written : Text) (capacity : ℕ)
    → length s ≤ 255
    → length written + (1 + length s) ≤ capacity
    → write_string8 s (writer written capacity) ≡ some (writer (written ++ field8 s) capacity)
unfolding write_string8
write_string8_fits s written capacity short fits =
    let small : ltb 255 (length s) ≡ false = ground arith in
    rw small (put_bytes_lem (field8 s) (writer written capacity) (omega arith))

radio_tx_fields :
    (flag : ℕ) (freq : Text) (range : ℕ) (sub : Text)
    → length freq ≤ 16
    → length sub ≤ 16
    → (write_string8 freq (writer (12 ∷ flag ∷ []) 38) >>= λ w.
        write_uint16 range w >>= λ w'. write_string8 sub w')
      ≡ some (writer (12 ∷ flag ∷ (field8 freq ++ bytes16 range ++ field8 sub)) 38)
unfolding write_uint16
radio_tx_fields flag freq range sub hf hs =
    let l = length-append (field8 freq) (bytes16 range) in
    rw (write_string8_fits freq (12 ∷ flag ∷ []) 38 (omega arith) (omega arith)) (
      rw (put_bytes_lem (bytes16 range) (writer (12 ∷ flag ∷ field8 freq) 38) (omega arith)) (
        rw
          (write_string8_fits sub (12 ∷ flag ∷ (field8 freq ++ bytes16 range)) 38 (omega arith)
            (omega (arith, l)))
          refl))

nonzero-bit : (b : Bool) → nonzero (bit b) ≡ b
nonzero-bit true = refl
nonzero-bit false = refl

-- Announcing a transmission never throws, whatever the texts are, and the packet is the update's
-- code, the flag, the frequency, the range and the subtype, the two texts cut to 16 bytes: at most
-- 38 bytes, the size of the buffer.
pub radio_tx_packet-fits :
    (active : Bool) (freq : Text) (range : ℕ) (sub : Text)
    → radio_tx_packet active freq range sub
      ≡ some (record {
        written =
            12
            ∷ bit active
            ∷ (field8 (truncate_utf8 freq 16) ++ bytes16 range ++ field8 (truncate_utf8 sub 16));
        capacity = 38;
      })
unfolding radio_tx_packet write_byte packet_code
radio_tx_packet-fits true freq range sub =
    radio_tx_fields 1 (truncate_utf8 freq 16) range (truncate_utf8 sub 16)
      (length-truncate_utf8 freq 16) (length-truncate_utf8 sub 16)
radio_tx_packet-fits false freq range sub =
    radio_tx_fields 0 (truncate_utf8 freq 16) range (truncate_utf8 sub 16)
      (length-truncate_utf8 freq 16) (length-truncate_utf8 sub 16)

-- A broadcast of the relay is read as it was written: the sender, the flag, both texts and the
-- range come back, whatever follows them. The sender has 32 bits, the range 16, and each text is at
-- most 16 bytes.
pub handle_packet-radio_tx :
    (sender : ℕ) (active : Bool) (freq : Text) (range : ℕ) (sub rest : Text)
    → sender < 2 ^ 32
    → range < 2 ^ 16
    → length freq ≤ 16
    → length sub ≤ 16
    → handle_packet (
        13
        ∷ (bytes32 sender ++ bit active ∷ (field8 freq ++ (bytes16 range ++ (field8 sub ++ rest)))))
      ≡ some (radio_tx sender active freq range sub ∷ [])
unfolding handle_packet read_radio_tx read_byte packet_code
handle_packet-radio_tx sender active freq range sub rest hs hr hf hb =
    rw
      (read_uint32_bytes sender
        (bit active ∷ (field8 freq ++ (bytes16 range ++ (field8 sub ++ rest)))) hs)
      (rw (read_string8_bytes freq 16 (bytes16 range ++ (field8 sub ++ rest)) hf (omega arith)) (
        rw (read_uint16_bytes range (field8 sub ++ rest) hr) (
          rw (read_string8_bytes sub 16 rest hb (omega arith))
            (ap (λ b. some (radio_tx sender b freq range sub ∷ [])) (nonzero-bit active)))))

voice_up_packet-fits :
    (sequence : ℕ) (opus : Text) (is_last : Bool)
    → length opus ≤ 500
    → voice_up_packet sequence opus is_last
      ≡ some (writer (7 ∷ (bytes16 sequence ++ bit is_last ∷ opus)) 504)
unfolding voice_up_packet write_byte write_uint16 write_bytes put_bytes packet_code
voice_up_packet-fits sequence opus true short =
    put_bytes_lem opus (writer (7 ∷ (bytes16 sequence ++ 1 ∷ [])) 504) (omega arith)
voice_up_packet-fits sequence opus false short =
    put_bytes_lem opus (writer (7 ∷ (bytes16 sequence ++ 0 ∷ [])) 504) (omega arith)

-- A voice frame within the limits, sent on a connection, is one datagram: the code, the sequence
-- number, the last-frame flag and the frame. The sequence number then moves on by one, from 65535
-- to 0.
send_voice_frame-sends :
    (opus : Text) (is_last : Bool) (c : Client)
    → is_empty opus ≡ false
    → length opus ≤ 500
    → c.connected ≡ true
    → c.has_socket ≡ true
    → c.voice_sequence < 65536
    → ((send_voice_frame opus is_last c).0
        ≡ sent (7 ∷ (bytes16 c.voice_sequence ++ bit is_last ∷ opus)) ∷ [])
      × ((send_voice_frame opus is_last c).1.voice_sequence
          ≡ (if c.voice_sequence == 65535 then 0 else c.voice_sequence + 1))
unfolding send_voice_frame
send_voice_frame-sends opus is_last c some_opus short up open_socket bound =
    let packet = voice_up_packet-fits c.voice_sequence opus is_last short in
    (rw packet (ground arith), ground arith)
