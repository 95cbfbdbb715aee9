-- ===== src/RcvUList.antt =====
-- udt-sys/udt/queue.h and queue.cpp: CRcvUList, the connections that a receiving thread checks, as
-- a doubly linked list of nodes. A node is the number of its connection; the fields of CRNode are
-- functions of it. A reading of CTimer::rdtsc is an argument.
pub mod Links
pub mod Order
mod Tests
use ninewire.Base.{ℕ, Bool, false, if◌then◌else◌, Option, none, some, put}

pub record RcvUList : Type 0 where
  pub u_list : Option ℕ
  pub last : Option ℕ
  pub prev : ℕ → Option ℕ
  pub next : ℕ → Option ℕ
  pub time_stamp : ℕ → ℕ
  pub on_list : ℕ → Bool

-- The constructor, with nodes that are on no list.
unfoldable pub new : RcvUList
new = record {
  u_list = none;
  last = none;
  prev = λ n. none;
  next = λ n. none;
  time_stamp = λ n. 0;
  on_list = λ n. false;
}

-- A write to the field of a node, where there is one.
abbrev pub put_at : (ℕ → Option ℕ) → Option ℕ → Option ℕ → ℕ → Option ℕ
put_at f none v = f
put_at f (some n) v = put f n v

abbrev stamp : RcvUList → ℕ → ℕ → RcvUList
stamp l n clock = record l { time_stamp = put l.time_stamp n clock }

-- `n` behind the last node.
unfoldable pub append : RcvUList → ℕ → RcvUList
append l n = record l {
  prev = put l.prev n l.last;
  next = put_at (put l.next n none) l.last (some n);
  last = some n;
}

-- `insert`, with the head of the list as the first argument.
unfoldable pub place : Option ℕ → RcvUList → ℕ → RcvUList
unfolding append
place none l n = record l {
  prev = put l.prev n none;
  next = put l.next n none;
  last = some n;
  u_list = some n;
}
place (some head) l n = append l n

unfoldable pub insert : RcvUList → ℕ → ℕ → RcvUList
unfolding place
insert l n clock = place l.u_list (stamp l n clock) n

-- The neighbours of `n` are linked with each other; NULL stands for the ends of the list.
unfoldable pub detach : RcvUList → ℕ → RcvUList
detach l n = record l {
  u_list = elim (l.prev n) [ none ↦ l.next n | some p ↦ l.u_list ];
  next = put_at l.next (l.prev n) (l.next n);
  last = elim (l.next n) [ none ↦ l.prev n | some q ↦ l.last ];
  prev = put_at l.prev (l.next n) (l.prev n);
}

unfoldable pub remove : RcvUList → ℕ → RcvUList
unfolding detach
remove l n =
    let cut = detach l n in
    if l.on_list n then record cut { next = put cut.next n none; prev = put cut.prev n none } else l

-- `update` for a node on the list, with its next node as the first argument: the last one stays.
unfoldable pub move_last : Option ℕ → RcvUList → ℕ → RcvUList
unfolding detach append
move_last none l n = l
move_last (some q) l n = append (detach l n) n

unfoldable pub update : RcvUList → ℕ → ℕ → RcvUList
unfolding move_last
update l n clock = if l.on_list n then move_last (l.next n) (stamp l n clock) n else l
