-- ===== src/RcvLossList.antt =====
-- udt-sys/udt/list.cpp: CRcvLossList, the sequence numbers that the receiver misses. A circular
-- array holds a doubly linked list of nodes; -1 marks a node with no data and the end of a chain.
pub mod Remove
pub mod Query
pub mod Spans
pub mod Insert
pub mod Append
pub mod Refine
pub mod Insertion
pub mod Empty
pub mod Report
mod Tests
use ninewire.Base.{
  ℕ, ◌%◌, ◌^◌, Bool, ℤ, pos, ◌+ℤ◌, ◌-ℤ◌, minus_one, eqb_ℤ, not, ◌&&◌, if◌then◌else◌, List,
  replicate, read, write, rem,
}
use ninewire.SeqNo.{seqoff, seqlen, incseq}

pub record RcvLossList : Type 0 where
  pub data1 : List ℤ
  pub data2 : List ℤ
  pub next : List ℤ
  pub prior : List ℤ
  pub head : ℤ
  pub tail : ℤ
  pub loss_length : ℤ
  pub size : ℕ

-- The constructor.
unfoldable pub new : ℕ → RcvLossList
new size = record {
  data1 = replicate size minus_one;
  data2 = replicate size minus_one;
  next = replicate size (pos 0);
  prior = replicate size (pos 0);
  head = minus_one;
  tail = minus_one;
  loss_length = pos 0;
  size = size;
}

-- The branch of `insert` for an empty list.
unfoldable pub insert_first : RcvLossList → ℤ → ℤ → RcvLossList
unfolding seqlen ◌+ℤ◌
insert_first l seqno1 seqno2 = record l {
  head = pos 0;
  tail = pos 0;
  data1 = write l.data1 (pos 0) seqno1;
  data2 = if eqb_ℤ seqno2 seqno1 then l.data2 else write l.data2 (pos 0) seqno2;
  next = write l.next (pos 0) minus_one;
  prior = write l.prior (pos 0) minus_one;
  loss_length = l.loss_length +ℤ seqlen seqno1 seqno2;
}

-- Coalesce with the prior node: [2, 5], [6, 7] becomes [2, 7].
unfoldable pub extend_tail : RcvLossList → ℤ → ℤ → RcvLossList
unfolding seqlen ◌+ℤ◌
extend_tail l seqno1 seqno2 = record l {
  data2 = write l.data2 l.tail seqno2;
  loss_length = l.loss_length +ℤ seqlen seqno1 seqno2;
}

-- Create a new node at `loc`, behind the tail.
unfoldable pub append_node : RcvLossList → ℤ → ℤ → ℤ → RcvLossList
unfolding seqlen ◌+ℤ◌
append_node l loc seqno1 seqno2 = record l {
  data1 = write l.data1 loc seqno1;
  data2 = if eqb_ℤ seqno2 seqno1 then l.data2 else write l.data2 loc seqno2;
  next = write (write l.next l.tail loc) loc minus_one;
  prior = write l.prior loc l.tail;
  tail = loc;
  loss_length = l.loss_length +ℤ seqlen seqno1 seqno2;
}

unfoldable pub insert : RcvLossList → ℤ → ℤ → RcvLossList
unfolding insert_first extend_tail append_node seqoff incseq rem ◌+ℤ◌
insert l seqno1 seqno2 =
    if eqb_ℤ l.loss_length (pos 0)
    then insert_first l seqno1 seqno2
    else if not (eqb_ℤ (read l.data2 l.tail) minus_one)
        && eqb_ℤ (incseq (read l.data2 l.tail)) seqno1
    then extend_tail l seqno1 seqno2
    else append_node l (rem (l.head +ℤ seqoff (read l.data1 l.head) seqno1) l.size) seqno1 seqno2
