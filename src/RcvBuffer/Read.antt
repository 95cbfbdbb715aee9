-- ===== src/RcvBuffer/Read.antt =====
-- udt-sys/udt/buffer.cpp: CRcvBuffer::scanMsg, readMsg and getRcvMsgNum.
use ninewire.Base.{
  ℕ, zero, suc, ◌+◌, ◌-◌, ◌%◌, ltb, ◌==◌, not, ◌&&◌, ◌||◌, if◌then◌else◌, Bool, true, false, List,
  [], ◌++◌, take, length, Option, none, some,
}
use ninewire.Packet.{Payload, null, pad, buffer, get_msg_boundary, get_msg_order_flag}
use ninewire.RcvBuffer.{
  RcvBuffer, PacketUnit, unit_at, is_null, flag_slot, release, next_pos, get_rcv_data_size,
}

-- A unit that is there and was not read or dropped, and its boundary bits.
abbrev pub occupied : Option PacketUnit → Bool
occupied none = false
occupied (some u) = u.flag == 1

unfoldable pub boundary : Option PacketUnit → ℕ
unfolding get_msg_boundary
boundary none = 0
boundary (some u) = get_msg_boundary u.packet

unfoldable pub ordered : Option PacketUnit → Bool
unfolding get_msg_order_flag
ordered none = false
ordered (some u) = get_msg_order_flag u.packet

-- Look ahead for the whole message; as many rounds as the buffer has slots are enough.
unfoldable pub whole_message : ℕ → RcvBuffer → ℕ → Bool
unfolding boundary
whole_message zero b i = false
whole_message (suc f) b i =
    let rest = whole_message f b (next_pos b i) in
    let u = unit_at b i in
    if i == b.last_ack_pos
    then true
    else if not (occupied u)
    then false
    else if boundary u == 1 || boundary u == 3
    then true
    else rest

-- Skip all bad messages at the beginning.
unfoldable pub skip_bad : ℕ → RcvBuffer → RcvBuffer
unfolding whole_message boundary release
skip_bad zero b = b
skip_bad (suc f) b =
    let u = unit_at b b.start_pos in
    let skipped = skip_bad f (record b { start_pos = next_pos b b.start_pos }) in
    let released =
      skip_bad f (record (release b b.start_pos) { start_pos = next_pos b b.start_pos }) in
    if b.start_pos == b.last_ack_pos
    then b
    else if is_null u
    then skipped
    else if occupied u && ltb 1 (boundary u) && whole_message b.size b b.start_pos
    then b
    else released

-- The results of `scanMsg`: the head of the message, -1 as `none`, and its tail.
pub record Scan : Type 0 where
  pub head : Option ℕ
  pub tail : ℕ
  pub passack : Bool
  pub found : Bool

-- The loop that looks for the first message, for a number of rounds.
unfoldable pub search_from : ℕ → RcvBuffer → Option ℕ → ℕ → Bool → Scan
unfolding boundary ordered
search_from zero b p q passack = record { head = p; tail = q; passack = passack; found = false }
search_from (suc k) b p q passack =
    let u = unit_at b q in
    let p' =
      if occupied u then if boundary u == 3 || boundary u == 2 then some q else p else none in
    let found = occupied u && (boundary u == 3 || boundary u == 1 && not (is_null p)) in
    let rest = search_from k b p' (next_pos b q) (passack || next_pos b q == b.last_ack_pos) in
    if found && (not passack || not (ordered u))
    then record { head = p'; tail = q; passack = passack; found = true }
    else rest

-- `(p != -1) && ((q + 1) % m_iSize == p)`
abbrev pub fills_buffer : RcvBuffer → Scan → Bool
fills_buffer b s = elim s.head [ none ↦ false | some p ↦ (s.tail + 1) % b.size == p ]

unfoldable pub scan_msg : RcvBuffer → RcvBuffer × Scan
unfolding skip_bad search_from get_rcv_data_size
scan_msg b =
    let b' = skip_bad b.size b in
    let s =
      search_from (b'.max_pos + get_rcv_data_size b' + 1) b' none b'.start_pos
        (b'.start_pos == b'.last_ack_pos) in
    if b.start_pos == b.last_ack_pos && b.max_pos == 0
    then (b, record { head = none; tail = b.start_pos; passack = true; found = false })
    else (b', record s { found = s.found || fills_buffer b' s })

abbrev pub bytes_of : Payload → ℕ → List ℕ
bytes_of null len = []
bytes_of pad len = []
bytes_of (buffer bytes) len = take len bytes

-- What `memcpy` takes of a unit when `rs` bytes of room are left.
abbrev pub copied : Option PacketUnit → ℕ → List ℕ
copied none rs = []
copied (some u) rs = take rs (bytes_of u.packet.payload u.packet.len)

-- The loop over the units from `p` to `stop`, with `rs` bytes of room left.
unfoldable pub read_from : ℕ → RcvBuffer → ℕ → ℕ → ℕ → Bool → RcvBuffer × List ℕ
unfolding release
read_from zero b p stop rs passack = (b, [])
read_from (suc f) b p stop rs passack =
    let bytes = copied (unit_at b p) rs in
    let b' = if passack then flag_slot b p 2 else release b p in
    let rest = read_from f b' (next_pos b p) stop (rs - length bytes) passack in
    if p == stop then (b, []) else (rest.0, bytes ++ rest.1)

-- The head of a message that was found.
abbrev pub get_head : Option ℕ → ℕ
get_head none = 0
get_head (some p) = p

-- The data that was read; its length is the result.
unfoldable pub read_msg : RcvBuffer → ℕ → RcvBuffer × List ℕ
unfolding scan_msg read_from
read_msg b len =
    let r = scan_msg b in
    let stop = (r.1.tail + 1) % b.size in
    let s = read_from b.size r.0 (get_head r.1.head) stop len r.1.passack in
    if not r.1.found
    then (r.0, [])
    else (if r.1.passack then s.0 else record s.0 { start_pos = stop }, s.1)

-- The scan may move the start as well.
unfoldable pub get_rcv_msg_num : RcvBuffer → RcvBuffer × ℕ
unfolding scan_msg
get_rcv_msg_num b = let r = scan_msg b in (r.0, if r.1.found then 1 else 0)
