-- ===== src/RcvLossList/Remove.antt =====
-- udt-sys/udt/list.cpp: CRcvLossList::remove, of one number and of a range.
use ninewire.Base.{
  ℕ, zero, suc, Bool, true, false, ℤ, pos, ◌+ℤ◌, ◌-ℤ◌, pos_part, minus_one, eqb_ℤ, ltb_ℤ, leb_ℤ,
  not, ◌||◌, if◌then◌else◌, read, write, rem,
}
use ninewire.SeqNo.{max_seq_no, seqoff, seqcmp, incseq, decseq}
use ninewire.RcvLossList.{RcvLossList}

-- Only one loss in the sequence of the head: its node goes.
unfoldable pub unlink_head : RcvLossList → RcvLossList
unlink_head l =
    let head = read l.next l.head in
    record l {
      head = head;
      prior = if eqb_ℤ head minus_one then l.prior else write l.prior head minus_one;
    }

-- The same for a node that is not the head.
unfoldable pub unlink_inner : RcvLossList → ℤ → RcvLossList
unlink_inner l loc =
    let next = write l.next (read l.prior loc) (read l.next loc) in
    let last = eqb_ℤ (read next loc) minus_one in
    record l {
      next = next;
      prior = if last then l.prior else write l.prior (read next loc) (read l.prior loc);
      tail = if last then read l.prior loc else l.tail;
    }

unfoldable pub delete_node : RcvLossList → ℤ → RcvLossList
unfolding unlink_head unlink_inner
delete_node l loc =
    let l' = if eqb_ℤ l.head loc then unlink_head l else unlink_inner l loc in
    record l' { data1 = write l'.data1 loc minus_one }

-- More than one: the data move on by one slot,
unfoldable pub move_data : RcvLossList → ℤ → ℤ → RcvLossList
unfolding incseq seqcmp
move_data l loc i =
    let data1 = write l.data1 i (incseq (read l.data1 loc)) in
    let data2 =
      if ltb_ℤ (pos 0) (seqcmp (read l.data2 loc) (incseq (read data1 loc)))
      then write l.data2 i (read l.data2 loc)
      else l.data2 in
    record l { data1 = write data1 loc minus_one; data2 = write data2 loc minus_one }

-- and the links with them.
unfoldable pub move_links : RcvLossList → ℤ → ℤ → RcvLossList
move_links l loc i =
    let prior = write l.prior i (read l.prior loc) in
    let copied = write l.next i (read l.next loc) in
    let next = if eqb_ℤ l.head loc then copied else write copied (read prior i) i in
    record l {
      next = next;
      head = if eqb_ℤ l.head loc then i else l.head;
      prior = if eqb_ℤ l.tail loc then prior else write prior (read next i) i;
      tail = if eqb_ℤ l.tail loc then i else l.tail;
    }

unfoldable pub advance_node : RcvLossList → ℤ → RcvLossList
unfolding move_data move_links rem ◌+ℤ◌
advance_node l loc = let i = rem (loc +ℤ pos 1) l.size in move_links (move_data l loc i) loc i

-- `while (-1 == m_piData1[i]) i = (i - 1 + m_iSize) % m_iSize;` on fuel.
unfoldable pub previous_node : ℕ → RcvLossList → ℤ → ℤ
unfolding rem ◌+ℤ◌ ◌-ℤ◌
previous_node zero l i = i
previous_node (suc f) l i =
    let back = previous_node f l (rem (i -ℤ pos 1 +ℤ pos l.size) l.size) in
    if eqb_ℤ (read l.data1 i) minus_one then back else i

-- The end of what is left in front of the removed number.
unfoldable pub cut_end : RcvLossList → ℤ → ℤ → ℤ
unfolding incseq decseq
cut_end l i seqno = if eqb_ℤ seqno (incseq (read l.data1 i)) then minus_one else decseq seqno

-- The removed number ends the sequence of node `i`.
unfoldable pub drop_last : RcvLossList → ℤ → ℤ → RcvLossList
unfolding cut_end
drop_last l i seqno = record l { data2 = write l.data2 i (cut_end l i seqno) }

-- The removed number is inside: a second sequence is made at `loc`,
unfoldable pub split_data : RcvLossList → ℤ → ℤ → ℤ → RcvLossList
unfolding drop_last incseq seqcmp
split_data l i loc seqno =
    let data1 = write l.data1 loc (incseq seqno) in
    let data2 =
      if ltb_ℤ (pos 0) (seqcmp (read l.data2 i) (read data1 loc))
      then write l.data2 loc (read l.data2 i)
      else l.data2 in
    drop_last (record l { data1 = data1; data2 = data2 }) i seqno

-- and linked in behind node `i`.
unfoldable pub split_links : RcvLossList → ℤ → ℤ → RcvLossList
split_links l i loc =
    let next = write (write l.next loc (read l.next i)) i loc in
    let prior = write l.prior loc i in
    record l {
      next = next;
      prior = if eqb_ℤ l.tail i then prior else write prior (read next loc) loc;
      tail = if eqb_ℤ l.tail i then loc else l.tail;
    }

unfoldable pub split_node : RcvLossList → ℤ → ℤ → ℤ → RcvLossList
unfolding split_data split_links
split_node l i loc seqno = split_links (split_data l i loc seqno) i loc

unfoldable pub one_less : RcvLossList → RcvLossList
unfolding ◌-ℤ◌
one_less l = record l { loss_length = l.loss_length -ℤ pos 1 }

-- The part of `remove` for a number that starts no sequence.
unfoldable pub remove_inside : RcvLossList → ℤ → ℤ → Bool × RcvLossList
unfolding previous_node drop_last split_node one_less seqcmp rem ◌+ℤ◌ ◌-ℤ◌
remove_inside l loc seqno =
    let i = previous_node l.size l (rem (loc -ℤ pos 1 +ℤ pos l.size) l.size) in
    if eqb_ℤ (read l.data2 i) minus_one || ltb_ℤ (pos 0) (seqcmp seqno (read l.data2 i))
    then (false, l)
    else if eqb_ℤ seqno (read l.data2 i)
    then (true, one_less (drop_last l i seqno))
    else (true, one_less (split_node l i (rem (loc +ℤ pos 1) l.size) seqno))

-- The part of `remove` for a number at or after the head, at the slot of its offset.
unfoldable pub remove_at : RcvLossList → ℤ → ℤ → Bool × RcvLossList
unfolding delete_node advance_node remove_inside one_less
remove_at l loc seqno =
    if not (eqb_ℤ seqno (read l.data1 loc))
    then remove_inside l loc seqno
    else if eqb_ℤ (read l.data2 loc) minus_one
    then (true, one_less (delete_node l loc))
    else (true, one_less (advance_node l loc))

unfoldable pub remove : RcvLossList → ℤ → Bool × RcvLossList
unfolding remove_at seqoff rem ◌+ℤ◌
remove l seqno =
    let offset = seqoff (read l.data1 l.head) seqno in
    if eqb_ℤ l.loss_length (pos 0) || ltb_ℤ offset (pos 0)
    then (false, l)
    else remove_at l (rem (l.head +ℤ offset) l.size) seqno

-- `for (i = first; …; ++ i) remove(i);` over the number of rounds.
unfoldable pub remove_each : ℕ → ℤ → RcvLossList → RcvLossList
unfolding remove ◌+ℤ◌
remove_each zero first l = l
remove_each (suc n) first l = remove_each n (first +ℤ pos 1) (remove l first).1

-- The overload of `remove` for a range. In its second branch the first loop runs while
-- `j < m_iMaxSeqNo`.
unfoldable pub remove_range : RcvLossList → ℤ → ℤ → Bool × RcvLossList
unfolding remove_each ◌+ℤ◌ ◌-ℤ◌
remove_range l seqno1 seqno2 =
    if leb_ℤ seqno1 seqno2
    then (true, remove_each (pos_part (seqno2 -ℤ seqno1 +ℤ pos 1)) seqno1 l)
    else (
      true,
      remove_each (pos_part (seqno2 +ℤ pos 1)) (pos 0)
          (remove_each (pos_part (pos max_seq_no -ℤ seqno1)) seqno1 l),
    )
