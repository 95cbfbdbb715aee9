-- ===== src/RcvBuffer/Sizes.antt =====
-- udt-sys/udt/buffer.cpp: the sizes and the slots of CRcvBuffer.
use native.Mathlib.Nat.{mod-lt}
use ninewire.Base.{
  ℕ, ◌+◌, ◌%◌, ◌<◌, ◌≤◌, ◌≡◌, refl, arith, add-mod_lap, pos, minus_one, none, some, get_or, set,
  length, get_or-set_self,
}
use ninewire.RcvBuffer.{RcvBuffer, add_data, ack_data, get_rcv_data_size, get_avail_buf_size}

-- The data and the room that is left make up the buffer but for one slot, and acknowledging as many
-- packets as there is room for adds just these to the data, round the end of the array too.
pub ack_data_sizes :
    (b : RcvBuffer) (len : ℕ)
    → b.start_pos < b.size
    → b.last_ack_pos < b.size
    → get_rcv_data_size b + len < b.size
    → (get_rcv_data_size b + get_avail_buf_size b + 1 ≡ b.size)
      × (get_rcv_data_size (ack_data b len) ≡ get_rcv_data_size b + len)
      × (get_avail_buf_size (ack_data b len) + len ≡ get_avail_buf_size b)
unfolding get_rcv_data_size get_avail_buf_size ack_data
ack_data_sizes b len hs ha h =
    let fits : len ≤ b.size = omega (arith, h) in
    rw (add-mod_lap b.last_ack_pos len b.size ha fits) (ground (arith, hs, ha, h))

-- A slot takes one packet: the first one is stored, and a second one for the same offset is
-- refused and changes no slot and no unit.
pub add_data-once :
    (b : RcvBuffer) (unit other offset : ℕ)
    → b.last_ack_pos < b.size
    → length b.slots ≡ b.size
    → get_or b.slots ((b.last_ack_pos + offset) % b.size) none ≡ none
    → let r = add_data b unit offset in
      let r' = add_data r.0 other offset in
      (r.1 ≡ pos 0)
      × (get_or r.0.slots ((b.last_ack_pos + offset) % b.size) none ≡ some unit)
      × (r'.1 ≡ minus_one)
      × (r'.0.slots ≡ r.0.slots)
      × (r'.0.units ≡ r.0.units)
      × (r'.0.unit_count ≡ r.0.unit_count)
unfolding add_data
add_data-once b unit other offset h len free =
    let p = (b.last_ack_pos + offset) % b.size in
    let room : p < length b.slots = rw len (mod-lt (b.last_ack_pos + offset) (omega (arith, h))) in
    let stored : get_or (set b.slots p (some unit)) p none ≡ some unit =
      get_or-set_self b.slots p (some unit) none room in
    rw (free, stored) (refl, refl, refl, refl, refl, refl)
