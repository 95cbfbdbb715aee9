-- ===== src/SndBuffer.antt =====
-- udt-sys/udt/buffer.cpp: CSndBuffer, the packets that wait for sending and acknowledgement in a
-- circular linked list of blocks. A pointer to a block is its place in the circle from `m_pBlock`.
-- `CTimer::getTime()` is the argument `now`; an allocation that fails is not modelled.
pub mod Grow
pub mod Add
pub mod Stream
mod Tests
use ninewire.Base.{
  ℕ, zero, suc, ◌+◌, ◌-◌, ◌*◌, ◌/◌, ◌%◌, ◌^◌, ℤ, pos, pos_part, minus_one, ltb_ℤ, ltb, leb, ◌==◌,
  not, ◌&&◌, if◌then◌else◌, Bool, true, false, List, [], ◌∷◌, ◌++◌, length, get_or, set, take, drop,
  replicate, set_bit, low_bits, Option, none, some,
}
use ninewire.SeqNo.{max_msg_no}

-- `Block`; `payload` is what `m_pcData` points to, cut to `m_iLength` bytes.
pub record Block : Type 0 where
  pub payload : List ℕ
  pub msg_no : ℕ
  pub origin_time : ℕ
  pub ttl : ℤ

abbrev pub blank : Block
blank = record { payload = []; msg_no = 0; origin_time = 0; ttl = pos 0 }

-- `unit` is `m_pBuffer->m_iSize`.
pub record SndBuffer : Type 0 where
  pub circle : List Block
  pub first_block : ℕ
  pub curr_block : ℕ
  pub last_block : ℕ
  pub next_msg_no : ℕ
  pub size : ℕ
  pub unit : ℕ
  pub mss : ℕ
  pub count : ℕ

-- The constructor.
unfoldable pub new : ℕ → ℕ → SndBuffer
new size mss = record {
  circle = replicate size blank;
  first_block = 0;
  curr_block = 0;
  last_block = 0;
  next_msg_no = 1;
  size = size;
  unit = size;
  mss = mss;
  count = 0;
}

-- Where a place is after `unit` blocks are put in behind the last one.
unfoldable pub moved : SndBuffer → ℕ → ℕ
moved b p = if ltb b.last_block p then p + b.unit else p

unfoldable pub increase : SndBuffer → SndBuffer
unfolding moved
increase b = record b {
  circle =
      take (b.last_block + 1) b.circle
      ++ (replicate b.unit blank ++ drop (b.last_block + 1) b.circle);
  first_block = moved b b.first_block;
  curr_block = moved b b.curr_block;
  size = b.size + b.unit;
}

-- `while (size + m_iCount >= m_iSize) increase();` on fuel.
unfoldable pub increase_until : ℕ → ℕ → SndBuffer → SndBuffer
unfolding increase
increase_until zero need b = b
increase_until (suc f) need b = elim (leb b.size (need + b.count)) [
  | true ↦ increase_until f need (increase b)
  | false ↦ b
]

-- The message number of block `i` of `blocks`: bit 31 for the first, bit 30 for the last, bit 29
-- for in-order delivery.
unfoldable pub msg_word : ℕ → Bool → ℕ → ℕ → ℕ
msg_word next order blocks i =
    let ordered = if order then set_bit next 29 else next in
    let started = if i == 0 then set_bit ordered 31 else ordered in
    if i + 1 == blocks then set_bit started 30 else started

-- Block `i` of a message.
unfoldable pub block : SndBuffer → List ℕ → ℕ → ℤ → Bool → ℕ → ℕ → ℕ → Block
unfolding msg_word
block b bytes len ttl order now blocks i =
    let rest = len - i * b.mss in
    record {
      payload = take (if ltb b.mss rest then b.mss else rest) (drop (i * b.mss) bytes);
      msg_no = msg_word b.next_msg_no order blocks i;
      origin_time = now;
      ttl = ttl;
    }

-- The loop over the blocks of the message, from block `i` on; `f i` is what it stores.
unfoldable pub fill : ℕ → (ℕ → Block) → ℕ → SndBuffer → SndBuffer
fill zero f i b = b
fill (suc n) f i b = fill n f (i + 1) (record b {
  circle = set b.circle b.last_block (f i);
  last_block = (b.last_block + 1) % b.size;
})

-- `len / m_iMSS`, rounded up.
unfoldable pub blocks_of : ℕ → ℕ → ℕ
blocks_of len mss = if len % mss == 0 then len / mss else len / mss + 1

unfoldable pub add_buffer : SndBuffer → List ℕ → ℕ → ℤ → Bool → ℕ → SndBuffer
unfolding blocks_of increase_until fill block
add_buffer b bytes len ttl order now =
    let n = blocks_of len b.mss in
    let grown = increase_until (suc (n + b.count)) n b in
    let filled = fill n (block b bytes len ttl order now n) 0 grown in
    record filled {
      count = filled.count + n;
      next_msg_no = if b.next_msg_no + 1 == max_msg_no then 1 else b.next_msg_no + 1;
    }

-- `readData(data, msgno)`: the next packet that was never sent.
unfoldable pub read_data : SndBuffer → Option Block × SndBuffer
read_data b = if b.curr_block == b.last_block then (none, b) else (
  some (get_or b.circle b.curr_block blank),
  record b { curr_block = (b.curr_block + 1) % b.size },
)

-- `readData(data, offset, msgno, msglen)`: a packet to send again, or the number and the length of
-- a message whose time to live has passed.
pub data Resend : Type 0 where
  expired : ℕ → ℕ → Resend
  resend : Block → Resend

-- The loop over the other blocks of an expired message, on fuel: the length, whether the current
-- block was met, and the place where it goes.
unfoldable pub skip_message : ℕ → SndBuffer → ℕ → ℕ → ℕ → Bool → ℕ → ℕ × ℕ
skip_message zero b msgno p msglen move curr = (msglen, curr)
skip_message (suc f) b msgno p msglen move curr =
    let p' = (p + 1) % b.size in
    let met = if p == curr then true else move in
    let rest = skip_message f b msgno p' (msglen + 1) met (if met then p' else curr) in
    if low_bits (get_or b.circle p blank).msg_no 29 == msgno then rest else (msglen, curr)

unfoldable pub reread_data : SndBuffer → ℕ → ℕ → Resend × SndBuffer
unfolding skip_message
reread_data b offset now =
    let p = (b.first_block + offset) % b.size in
    let k = get_or b.circle p blank in
    let msgno = low_bits k.msg_no 29 in
    let (msglen, curr) = skip_message b.size b msgno ((p + 1) % b.size) 1 false b.curr_block in
    if not (ltb_ℤ k.ttl (pos 0))
      && ltb (pos_part k.ttl) ((now + 2 ^ 64 - k.origin_time) % 2 ^ 64 / 1000)
    then (expired msgno msglen, record b { curr_block = curr })
    else (resend k, b)

unfoldable pub ack_data : SndBuffer → ℕ → SndBuffer
ack_data b offset = record b {
  first_block = (b.first_block + offset) % b.size;
  count = b.count - offset;
}

abbrev pub get_curr_buf_size : SndBuffer → ℕ
get_curr_buf_size b = b.count
