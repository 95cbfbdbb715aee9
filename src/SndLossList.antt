-- ===== src/SndLossList.antt =====
-- udt-sys/udt/list.cpp: CSndLossList, the sequence numbers that the sender has to send again. A
-- circular array holds a singly linked list of nodes; -1 marks a node with no data and the end of
-- the chain. The two walks along the chain take fuel, one unit for each node of the array. The
-- lock makes each operation atomic.
pub mod Remove
pub mod Node
pub mod Drain
mod Tests
use ninewire.Base.{
  ℕ, zero, suc, Bool, ℤ, pos, ◌+ℤ◌, ◌-ℤ◌, minus_one, eqb_ℤ, ltb_ℤ, leb_ℤ, not, ◌&&◌, ◌||◌,
  if◌then◌else◌, List, replicate, read, write, rem,
}
use ninewire.SeqNo.{seqcmp, seqoff, seqlen, incseq}

pub record SndLossList : Type 0 where
  pub data1 : List ℤ
  pub data2 : List ℤ
  pub next : List ℤ
  pub head : ℤ
  pub loss_length : ℤ
  pub size : ℕ
  pub last_insert_pos : ℤ

-- The constructor.
unfoldable pub new : ℕ → SndLossList
new size = record {
  data1 = replicate size minus_one;
  data2 = replicate size minus_one;
  next = replicate size (pos 0);
  head = minus_one;
  loss_length = pos 0;
  size = size;
  last_insert_pos = minus_one;
}

-- Where `insert` goes on: `return 0`, or the coalescing from a node on.
pub data Placed : Type 0 where
  unchanged : SndLossList → Placed
  placed : SndLossList → ℤ → Placed

-- The branch for an empty list.
unfoldable pub insert_empty : SndLossList → ℤ → ℤ → SndLossList
unfolding seqlen ◌+ℤ◌
insert_empty l seqno1 seqno2 = record l {
  head = pos 0;
  data1 = write l.data1 (pos 0) seqno1;
  data2 = if eqb_ℤ seqno2 seqno1 then l.data2 else write l.data2 (pos 0) seqno2;
  next = write l.next (pos 0) minus_one;
  last_insert_pos = pos 0;
  loss_length = l.loss_length +ℤ seqlen seqno1 seqno2;
}

-- Insert data prior to the head pointer.
unfoldable pub insert_before : SndLossList → ℤ → ℤ → ℤ → Placed
unfolding seqlen ◌+ℤ◌
insert_before l loc seqno1 seqno2 =
    placed
      (record l {
        data1 = write l.data1 loc seqno1;
        data2 = if eqb_ℤ seqno2 seqno1 then l.data2 else write l.data2 loc seqno2;
        next = write l.next loc l.head;
        head = loc;
        last_insert_pos = loc;
        loss_length = l.loss_length +ℤ seqlen seqno1 seqno2;
      })
      loc

-- Lengthen the node `loc`, which begins with `seqno1` too.
unfoldable pub lengthen : SndLossList → ℤ → ℤ → ℤ → Placed
unfolding seqlen seqcmp ◌+ℤ◌ ◌-ℤ◌
lengthen l loc seqno1 seqno2 =
    if eqb_ℤ (read l.data2 loc) minus_one
    then if eqb_ℤ seqno2 seqno1
      then placed l loc
      else placed
          (record l {
            loss_length = l.loss_length +ℤ (seqlen seqno1 seqno2 -ℤ pos 1);
            data2 = write l.data2 loc seqno2;
          })
          loc
    else if ltb_ℤ (pos 0) (seqcmp seqno2 (read l.data2 loc))
    then placed
        (record l {
          loss_length = l.loss_length +ℤ (seqlen (read l.data2 loc) seqno2 -ℤ pos 1);
          data2 = write l.data2 loc seqno2;
        })
        loc
    else unchanged l

-- The walk to the last node that begins before `seqno`, from `i` on.
unfoldable pub prior_from : ℕ → SndLossList → ℤ → ℤ → ℤ
unfolding seqcmp
prior_from zero l seqno i = i
prior_from (suc f) l seqno i =
    let rest = prior_from f l seqno (read l.next i) in
    if not (eqb_ℤ (read l.next i) minus_one)
      && ltb_ℤ (seqcmp (read l.data1 (read l.next i)) seqno) (pos 0)
    then rest
    else i

-- Behind the node `i`: create a new node at `loc`, or coalesce with `i`.
unfoldable pub insert_after : SndLossList → ℤ → ℤ → ℤ → ℤ → Placed
unfolding seqlen seqcmp ◌+ℤ◌ ◌-ℤ◌
insert_after l i loc seqno1 seqno2 =
    if eqb_ℤ (read l.data2 i) minus_one || ltb_ℤ (seqcmp (read l.data2 i) seqno1) (pos 0)
    then placed
        (record l {
          last_insert_pos = loc;
          data1 = write l.data1 loc seqno1;
          data2 = if eqb_ℤ seqno2 seqno1 then l.data2 else write l.data2 loc seqno2;
          next = write (write l.next loc (read l.next i)) i loc;
          loss_length = l.loss_length +ℤ seqlen seqno1 seqno2;
        })
        loc
    else if ltb_ℤ (seqcmp (read l.data2 i) seqno2) (pos 0)
    then placed
        (record l {
          last_insert_pos = i;
          loss_length = l.loss_length +ℤ (seqlen (read l.data2 i) seqno2 -ℤ pos 1);
          data2 = write l.data2 i seqno2;
        })
        i
    else unchanged (record l { last_insert_pos = i })

unfoldable pub insert_behind : SndLossList → ℤ → ℤ → ℤ → Placed
unfolding lengthen prior_from insert_after seqcmp
insert_behind l loc seqno1 seqno2 =
    if eqb_ℤ seqno1 (read l.data1 loc)
    then lengthen (record l { last_insert_pos = loc }) loc seqno1 seqno2
    else let start =
        if not (eqb_ℤ l.last_insert_pos minus_one)
          && ltb_ℤ (seqcmp (read l.data1 l.last_insert_pos) seqno1) (pos 0)
        then l.last_insert_pos
        else l.head in
      insert_after l (prior_from l.size l seqno1 start) loc seqno1 seqno2

-- Insert to the head node.
unfoldable pub insert_at_head : SndLossList → ℤ → ℤ → ℤ → Placed
unfolding lengthen
insert_at_head l loc seqno1 seqno2 =
    let l' = record l { last_insert_pos = l.head } in
    if eqb_ℤ seqno2 seqno1 then unchanged l' else lengthen l' loc seqno1 seqno2

-- Merge the node `i`, the next one of `loc`, into `loc`.
unfoldable pub absorb : SndLossList → ℤ → ℤ → SndLossList
unfolding seqlen seqcmp incseq ◌-ℤ◌
absorb l loc i =
    let first = read l.data1 i in
    let last = read l.data2 i in
    let end = read l.data2 loc in
    let longer = ltb_ℤ (pos 0) (seqcmp last end) in
    let loss_length =
      if not (eqb_ℤ last minus_one)
      then if longer
        then if leb_ℤ (pos 0) (seqcmp end first)
          then l.loss_length -ℤ seqlen first end
          else l.loss_length
        else l.loss_length -ℤ seqlen first last
      else if eqb_ℤ first (incseq end)
      then l.loss_length
      else l.loss_length -ℤ pos 1 in
    let data2 =
      if not (eqb_ℤ last minus_one)
      then if longer then write l.data2 loc last else l.data2
      else if eqb_ℤ first (incseq end)
      then write l.data2 loc first
      else l.data2 in
    record l {
      loss_length = loss_length;
      data1 = write l.data1 i minus_one;
      data2 = write data2 i minus_one;
      next = write l.next loc (read l.next i);
    }

-- Coalesce with the next nodes.
unfoldable pub coalesce : ℕ → SndLossList → ℤ → SndLossList
unfolding absorb seqcmp incseq
coalesce zero l loc = l
coalesce (suc f) l loc =
    let i = read l.next loc in
    let rest = coalesce f (absorb l loc i) loc in
    if not (eqb_ℤ i minus_one)
      && not (eqb_ℤ (read l.data2 loc) minus_one)
      && leb_ℤ (seqcmp (read l.data1 i) (incseq (read l.data2 loc))) (pos 0)
    then rest
    else l

unfoldable pub finish_insert : ℤ → Placed → SndLossList × ℤ
unfolding coalesce ◌-ℤ◌
finish_insert origlen (unchanged l) = (l, pos 0)
finish_insert origlen (placed l loc) =
    let l' = coalesce l.size l loc in (l', l'.loss_length -ℤ origlen)

unfoldable pub insert : SndLossList → ℤ → ℤ → SndLossList × ℤ
unfolding insert_empty insert_before insert_behind insert_at_head finish_insert seqoff rem ◌+ℤ◌
insert l seqno1 seqno2 =
    if eqb_ℤ l.loss_length (pos 0)
    then (insert_empty l seqno1 seqno2, (insert_empty l seqno1 seqno2).loss_length)
    else let offset = seqoff (read l.data1 l.head) seqno1 in
      let loc = rem (l.head +ℤ offset +ℤ pos l.size) l.size in
      finish_insert l.loss_length (
        if ltb_ℤ offset (pos 0)
        then insert_before l loc seqno1 seqno2
        else if ltb_ℤ (pos 0) offset
        then insert_behind l loc seqno1 seqno2
        else insert_at_head l loc seqno1 seqno2)
