-- ===== src/SndUList.antt =====
-- udt-sys/udt/queue.cpp: CSndUList, the sockets with data to send, in a binary heap by the time of
-- their next packet. A node (CSNode) belongs to one socket, so a pointer to either is the socket's
-- number; the nodes are a store. The lock makes each operation atomic.
pub mod Order
pub mod Up
pub mod Down
pub mod Pop
mod Tests
use ninewire.Base.{
  ℕ, zero, suc, ◌+◌, ◌-◌, ◌*◌, ◌/◌, ltb, leb, ◌==◌, not, ◌&&◌, ◌||◌, if◌then◌else◌, Bool, ℤ, pos,
  pos_part, minus_one, leb_ℤ, eqb_ℤ, put, Option, none, some,
}

-- `count` is m_iLastEntry + 1. `interrupts` and `notices` count the calls of the timer's
-- `interrupt` and of the condition's `notify_one`.
pub record SndUList : Type 0 where
  pub heap : ℕ → ℕ
  pub array_length : ℕ
  pub count : ℕ
  pub time : ℕ → ℕ
  pub loc : ℕ → ℤ
  pub interrupts : ℕ
  pub notices : ℕ

-- The constructor; no socket is on the list, and the fresh array holds nothing of use.
unfoldable pub new : SndUList
new = record {
  heap = λ i. 0;
  array_length = 4096;
  count = 0;
  time = λ u. 0;
  loc = λ u. minus_one;
  interrupts = 0;
  notices = 0;
}

-- `n->m_iHeapLoc >= 0`
abbrev pub on_heap : SndUList → ℕ → Bool
on_heap s u = leb_ℤ (pos 0) (s.loc u)

abbrev pub key : SndUList → ℕ → ℕ
key s i = s.time (s.heap i)

abbrev pub parent : ℕ → ℕ
parent q = (q - 1) / 2

-- One round of the loop of `insert_`: the entry at `q` changes places with its parent.
unfoldable pub raise : SndUList → ℕ → SndUList
raise s q = record s {
  heap = put (put s.heap (parent q) (s.heap q)) q (s.heap (parent q));
  loc = put s.loc (s.heap (parent q)) (pos q);
}

-- The loop of `insert_`, with its last value of `q`.
unfoldable pub sift_up : ℕ → SndUList → ℕ → SndUList × ℕ
unfolding raise
sift_up zero s q = (s, q)
sift_up (suc f) s q =
    let rest = sift_up f (raise s q) (parent q) in
    if q == 0 then (s, q) else if ltb (key s q) (key s (parent q)) then rest else (s, q)

-- The new entry behind the last one.
unfoldable pub append : SndUList → ℕ → ℕ → SndUList
append s ts u = record s {
  count = s.count + 1;
  heap = put s.heap s.count u;
  time = put s.time u ts;
}

-- The new entry at `q` gets its location and wakes up the workers.
unfoldable pub settle : SndUList → ℕ → ℕ → SndUList
settle s u q = record s {
  loc = put s.loc u (pos q);
  interrupts = if q == 0 then s.interrupts + 1 else s.interrupts;
  notices = if s.count == 1 then s.notices + 1 else s.notices;
}

-- `insert_`
unfoldable pub insert_node : SndUList → ℕ → ℕ → SndUList
unfolding append sift_up settle
insert_node s ts u =
    let r = sift_up s.count (append s ts u) s.count in if on_heap s u then s else settle r.0 u r.1

-- `insert`; a failing allocation is not modelled.
unfoldable pub insert : SndUList → ℕ → ℕ → SndUList
unfolding insert_node
insert s ts u =
    insert_node
      (if s.count == s.array_length then record s { array_length = s.array_length * 2 } else s) ts u

-- The lesser child of `q`, of those on the heap.
abbrev pub lesser_child : SndUList → ℕ → ℕ
lesser_child s q =
    let p = q * 2 + 1 in if ltb (p + 1) s.count && ltb (key s (p + 1)) (key s p) then p + 1 else p

-- One round of the loop of `remove_`: the entries at `q` and `p` change places.
unfoldable pub exchange : SndUList → ℕ → ℕ → SndUList
exchange s q p = record s {
  heap = put (put s.heap p (s.heap q)) q (s.heap p);
  loc = put (put s.loc (s.heap q) (pos p)) (s.heap p) (pos q);
}

-- The loop of `remove_`.
unfoldable pub sift_down : ℕ → SndUList → ℕ → SndUList
unfolding exchange
sift_down zero s q = s
sift_down (suc f) s q =
    let p = lesser_child s q in
    let rest = sift_down f (exchange s q p) p in
    if ltb (q * 2 + 1) s.count then if ltb (key s p) (key s q) then rest else s else s

-- The last entry takes the place of the one that goes.
unfoldable pub fill_hole : SndUList → ℕ → SndUList
fill_hole s k =
    let moved = s.heap (s.count - 1) in
    record s { heap = put s.heap k moved; count = s.count - 1; loc = put s.loc moved (pos k) }

-- A node that is on the heap leaves it.
unfoldable pub take_out : SndUList → ℕ → SndUList
unfolding fill_hole sift_down
take_out s u =
    let k = pos_part (s.loc u) in
    let sifted = sift_down s.count (fill_hole s k) k in
    record sifted { loc = put sifted.loc u minus_one }

-- The timer is interrupted when the index of the last entry is 0.
unfoldable pub wake : SndUList → SndUList
wake s = if s.count == 1 then record s { interrupts = s.interrupts + 1 } else s

-- `remove_`
unfoldable pub remove_node : SndUList → ℕ → SndUList
unfolding take_out wake
remove_node s u = wake (if on_heap s u then take_out s u else s)

-- `update`
unfoldable pub update : SndUList → ℕ → Bool → SndUList
unfolding insert_node remove_node
update s u reschedule =
    if on_heap s u
    then if not reschedule
      then s
      else if eqb_ℤ (s.loc u) (pos 0)
      then record s { time = put s.time u 1; interrupts = s.interrupts + 1 }
      else insert_node (remove_node s u) 1 u
    else insert_node s 1 u

-- `remove`
unfoldable pub remove : SndUList → ℕ → SndUList
unfolding remove_node
remove s u = remove_node s u

-- `getNextProcTime`
unfoldable pub get_next_proc_time : SndUList → ℕ
get_next_proc_time s = if s.count == 0 then 0 else key s 0

-- What `pop` is to do with the socket at the head: whether it is connected and not broken, and the
-- outcome of `packData`: nothing to send, or a packet and the time of the next one.
pub record Ready : Type 0 where
  pub connected : Bool
  pub broken : Bool
  pub packed : Option ℕ

-- The end of `pop`: a socket that sent comes back for its next packet.
unfoldable pub send_next : SndUList → ℕ → Option ℕ → SndUList × Option ℕ
unfolding insert_node
send_next s u none = (s, none)
send_next s u (some ts) = (if ltb 0 ts then insert_node s ts u else s, some u)

-- `pop`; the result is the socket whose packet is sent. `ready` answers for each socket at `now`.
unfoldable pub pop : SndUList → ℕ → (ℕ → Ready) → SndUList × Option ℕ
unfolding remove_node send_next
pop s now ready =
    let u = s.heap 0 in
    let s' = remove_node s u in
    if s.count == 0 || ltb now (key s 0)
    then (s, none)
    else if not (ready u).connected || (ready u).broken
    then (s', none)
    else send_next s' u (ready u).packed
