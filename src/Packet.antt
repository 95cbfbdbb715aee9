-- ===== src/Packet.antt =====
-- udt-sys/udt/packet.cpp and packet.h: CPacket, the header of four 32-bit words and the payload.
-- The classes point into caller's memory; the model keeps what the pointer leads to.
pub mod Header
pub mod HandShake
mod Tests
use Prim.Native.Nat.{bit_or}
use ninewire.Base.{
  ℕ, ◌*◌, ◌%◌, ◌^◌, ◌==◌, if◌then◌else◌, Bool, List, [], ◌∷◌, length, Option, none, some, shr,
  low_bits, set_bit,
}

-- `m_PacketVector[1].iov_base`: NULL, the pad of the packet itself, or a buffer.
pub data Payload : Type 0 where
  null : Payload
  pad : Payload
  buffer : List ℕ → Payload

-- `m_nHeader[0]` to `m_nHeader[3]`, and the second entry of `m_PacketVector`.
pub record Packet : Type 0 where
  pub word0 : ℕ
  pub word1 : ℕ
  pub word2 : ℕ
  pub word3 : ℕ
  pub payload : Payload
  pub len : ℕ

-- The constructor.
abbrev pub new : Packet
new = record { word0 = 0; word1 = 0; word2 = 0; word3 = 0; payload = null; len = 0 }

-- `0x80000000 | (pkttype << 16)`
unfoldable pub control_word : ℕ → ℕ
control_word pkttype = set_bit (pkttype * 2 ^ 16 % 2 ^ 32) 31

unfoldable pub with_pad : Packet → Packet
with_pad p = record p { payload = pad; len = 4 }

unfoldable pub with_buffer : Packet → Option (List ℕ) → ℕ → Packet
with_buffer p none size = record p { payload = null; len = size }
with_buffer p (some b) size = record p { payload = buffer b; len = size }

-- Types that read `*(int32_t *)lparam` with no test; `none` is the read through NULL.
unfoldable pub with_info : Packet → Option ℕ → Option Packet
with_info p none = none
with_info p (some info) = some (record p { word1 = info })

-- The extended type: `m_nHeader[0] |= *(int32_t *)lparam`, and a pad for a NULL buffer.
unfoldable pub pack_extended : Packet → Option ℕ → Option (List ℕ) → ℕ → Option Packet
unfolding with_pad
pack_extended p none rparam size = none
pack_extended p (some info) none size = some (with_pad (record p { word0 = bit_or p.word0 info }))
pack_extended p (some info) (some b) size =
    some (record p { word0 = bit_or p.word0 info; payload = buffer b; len = size })

unfoldable pub pack_ack : Packet → Option ℕ → Option (List ℕ) → ℕ → Packet
unfolding with_buffer
pack_ack p none rparam size = with_buffer p rparam size
pack_ack p (some seq) rparam size = with_buffer (record p { word1 = seq }) rparam size

unfoldable pub after_info : (Packet → Packet) → Option Packet → Option Packet
after_info f none = none
after_info f (some p) = some (f p)

-- `pack(pkttype, lparam, rparam, size)`
unfoldable pub pack : Packet → ℕ → Option ℕ → Option (List ℕ) → ℕ → Option Packet
unfolding control_word with_pad with_buffer with_info pack_extended pack_ack after_info
pack old pkttype lparam rparam size =
    let p = record old { word0 = control_word pkttype } in
    if pkttype == 2
    then some (pack_ack p lparam rparam size)
    else if pkttype == 6
    then after_info with_pad (with_info p lparam)
    else if pkttype == 3
    then some (with_buffer p rparam size)
    else if pkttype == 4
    then some (with_pad p)
    else if pkttype == 1
    then some (with_pad p)
    else if pkttype == 0
    then some (with_buffer p rparam size)
    else if pkttype == 5
    then some (with_pad p)
    else if pkttype == 7
    then after_info (λ q. with_buffer q rparam size) (with_info p lparam)
    else if pkttype == 8
    then after_info with_pad (with_info p lparam)
    else if pkttype == 32767
    then pack_extended p lparam rparam size
    else some p

unfoldable pub get_flag : Packet → ℕ
get_flag p = shr p.word0 31

unfoldable pub get_type : Packet → ℕ
get_type p = low_bits (shr p.word0 16) 15

unfoldable pub get_extended_type : Packet → ℕ
get_extended_type p = low_bits p.word0 16

abbrev pub get_ack_seq_no : Packet → ℕ
get_ack_seq_no p = p.word1

unfoldable pub get_msg_boundary : Packet → ℕ
get_msg_boundary p = shr p.word1 30

unfoldable pub get_msg_order_flag : Packet → Bool
get_msg_order_flag p = low_bits (shr p.word1 29) 1 == 1

unfoldable pub get_msg_seq : Packet → ℕ
get_msg_seq p = low_bits p.word1 29
