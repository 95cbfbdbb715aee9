-- ===== src/RcvBuffer.antt =====
-- udt-sys/udt/buffer.cpp: CRcvBuffer, the packets that arrived and the messages read from them. The
-- units belong to CUnitQueue (udt-sys/udt/queue.h); a pointer to one is its index in `units`. The
-- offsets and lengths that the socket passes are not negative, so m_iMaxPos never is; subtracting
-- below 0 stops at 0 there, as in ackData. Walks round the array take fuel, one unit for each slot.
pub mod Gaps
pub mod Read
pub mod Sizes
pub mod Skip
mod Tests
use ninewire.Base.{
  ℕ, zero, suc, ◌+◌, ◌-◌, ◌%◌, ℤ, pos, ◌+ℤ◌, ◌-ℤ◌, minus_one, ltb, leb, ◌==◌, not, ◌&&◌, ◌||◌,
  if◌then◌else◌, Bool, true, false, List, [], get_or, set, replicate, Option, none, some,
}
use ninewire.Packet.{Packet, get_msg_boundary}

-- `CUnit`
pub record PacketUnit : Type 0 where
  pub packet : Packet
  pub flag : ℕ

-- `slots` is `m_pUnit`; `unit_count` is `m_pUnitQueue->m_iCount`.
pub record RcvBuffer : Type 0 where
  pub slots : List (Option ℕ)
  pub units : List PacketUnit
  pub unit_count : ℤ
  pub size : ℕ
  pub start_pos : ℕ
  pub last_ack_pos : ℕ
  pub max_pos : ℕ

-- The constructor, with the units and the count of its queue.
unfoldable pub new : List PacketUnit → ℤ → ℕ → RcvBuffer
new units count size = record {
  slots = replicate size none;
  units = units;
  unit_count = count;
  size = size;
  start_pos = 0;
  last_ack_pos = 0;
  max_pos = 0;
}

abbrev pub no_unit : PacketUnit
no_unit = record { packet = ninewire.Packet.new; flag = 0 }

-- `*m_pUnit[i]`, for a slot that is not NULL.
abbrev pub unit_at : RcvBuffer → ℕ → Option PacketUnit
unit_at b i = elim (get_or b.slots i none) [
  | none ↦ none
  | some u ↦ some (get_or b.units u no_unit)
]

abbrev pub is_null : {A : Type 0} → Option A → Bool
is_null none = true
is_null (some u) = false

-- `unit->m_iFlag = flag`
abbrev pub set_flag : RcvBuffer → ℕ → ℕ → List PacketUnit
set_flag b u flag = set b.units u (record (get_or b.units u no_unit) { flag = flag })

-- `m_pUnit[i]->m_iFlag = flag`
abbrev pub flag_slot : RcvBuffer → ℕ → ℕ → RcvBuffer
flag_slot b i flag = elim (get_or b.slots i none) [
  | none ↦ b
  | some u ↦ record b { units = set_flag b u flag }
]

-- The unit of a slot goes back to its queue.
unfoldable pub release : RcvBuffer → ℕ → RcvBuffer
unfolding ◌-ℤ◌
release b i = elim (get_or b.slots i none) [
  | none ↦ b
  | some u ↦ record b {
    slots = set b.slots i none;
    units = set_flag b u 0;
    unit_count = b.unit_count -ℤ pos 1;
  }
]

-- `++ p == m_iSize` begins again at 0.
abbrev pub next_pos : RcvBuffer → ℕ → ℕ
next_pos b p = if p + 1 == b.size then 0 else p + 1

unfoldable pub add_data : RcvBuffer → ℕ → ℕ → RcvBuffer × ℤ
unfolding ◌+ℤ◌
add_data b unit offset =
    let p = (b.last_ack_pos + offset) % b.size in
    let furthest = if ltb b.max_pos offset then offset else b.max_pos in
    if not (is_null (get_or b.slots p none))
    then (record b { max_pos = furthest }, minus_one)
    else (
      record b {
        max_pos = furthest;
        slots = set b.slots p (some unit);
        units = set_flag b unit 1;
        unit_count = b.unit_count +ℤ pos 1;
      },
      pos 0,
    )

unfoldable pub ack_data : RcvBuffer → ℕ → RcvBuffer
ack_data b len = record b {
  last_ack_pos = (b.last_ack_pos + len) % b.size;
  max_pos = b.max_pos - len;
}

unfoldable pub get_rcv_data_size : RcvBuffer → ℕ
get_rcv_data_size b =
    if leb b.start_pos b.last_ack_pos
    then b.last_ack_pos - b.start_pos
    else b.size + b.last_ack_pos - b.start_pos

unfoldable pub get_avail_buf_size : RcvBuffer → ℕ
unfolding get_rcv_data_size
get_avail_buf_size b = b.size - get_rcv_data_size b - 1

-- The message number is compared with the whole word `m_iMsgNo` of a packet.
abbrev pub has_word : Option PacketUnit → ℕ → Bool
has_word none msgno = false
has_word (some u) msgno = msgno == u.packet.word1

abbrev pub drop_from : ℕ → RcvBuffer → ℕ → ℕ → ℕ → RcvBuffer
drop_from zero b msgno i n = b
drop_from (suc f) b msgno i n =
    let b' = if has_word (unit_at b i) msgno then flag_slot b i 3 else b in
    let rest = drop_from f b' msgno ((i + 1) % b.size) n in if i == n then b else rest

unfoldable pub drop_msg : RcvBuffer → ℕ → RcvBuffer
drop_msg b msgno = drop_from b.size b msgno b.start_pos ((b.last_ack_pos + b.max_pos) % b.size)
