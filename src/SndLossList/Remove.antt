-- ===== src/SndLossList/Remove.antt =====
-- udt-sys/udt/list.cpp: CSndLossList::remove, getLossLength and getLostSeq.
use ninewire.Base.{
  ℕ, zero, suc, ℤ, pos, ◌+ℤ◌, ◌-ℤ◌, minus_one, eqb_ℤ, ltb_ℤ, if◌then◌else◌, read, write, rem,
}
use ninewire.SeqNo.{seqcmp, seqoff, seqlen, incseq}
use ninewire.SndLossList.{SndLossList, prior_from}

-- `if (m_iLastInsertPos == p) m_iLastInsertPos = -1;`
abbrev pub clear_insert_pos : SndLossList → ℤ → ℤ
clear_insert_pos l p = if eqb_ℤ l.last_insert_pos p then minus_one else l.last_insert_pos

-- The position behind `p`.
unfoldable pub behind : SndLossList → ℤ → ℤ
unfolding rem ◌+ℤ◌
behind l p = rem (p +ℤ pos 1) l.size

-- The head node begins with `seqno`: it loses this number.
unfoldable pub shift_head : SndLossList → ℤ → SndLossList
unfolding behind seqcmp incseq ◌-ℤ◌
shift_head l seqno =
    let loc = behind l l.head in
    let last = read l.data2 l.head in
    if eqb_ℤ last minus_one
    then record l {
      data1 = write l.data1 l.head minus_one;
      last_insert_pos = clear_insert_pos l l.head;
      head = read l.next l.head;
      loss_length = l.loss_length -ℤ pos 1;
    }
    else record l {
      data1 = write (write l.data1 loc (incseq seqno)) l.head minus_one;
      data2 =
          write
            (if ltb_ℤ (pos 0) (seqcmp last (incseq seqno)) then write l.data2 loc last else l.data2)
            l.head minus_one;
      next = write l.next loc (read l.next l.head);
      last_insert_pos = clear_insert_pos l l.head;
      head = loc;
      loss_length = l.loss_length -ℤ pos 1;
    }

-- The node `temp` begins with `seqno`: what is left of it becomes the head.
unfoldable pub head_from_node : SndLossList → ℤ → ℤ → SndLossList
unfolding behind seqcmp incseq
head_from_node l temp seqno =
    let loc = behind l temp in
    let last = read l.data2 temp in
    if eqb_ℤ last minus_one then record l { head = read l.next temp } else record l {
      data1 = write l.data1 loc (incseq seqno);
      data2 =
          write
            (if ltb_ℤ (pos 0) (seqcmp last (incseq seqno)) then write l.data2 loc last else l.data2)
            temp minus_one;
      head = loc;
      next = write (write l.next loc (read l.next temp)) temp loc;
    }

-- `seqno` has no node of its own; `i` is the last node that begins before it.
unfoldable pub head_from_prior : SndLossList → ℤ → ℤ → ℤ → SndLossList
unfolding behind seqcmp incseq
head_from_prior l i loc seqno =
    let loc' = behind l loc in
    let last = read l.data2 i in
    if eqb_ℤ last minus_one
    then record l { head = read l.next i }
    else if ltb_ℤ (pos 0) (seqcmp last seqno)
    then record l {
      data1 = write l.data1 loc' (incseq seqno);
      data2 =
          write
            (if ltb_ℤ (pos 0) (seqcmp last (incseq seqno))
              then write l.data2 loc' last
              else l.data2)
            i seqno;
      next = write (write l.next loc' (read l.next i)) i loc';
      head = loc';
    }
    else record l { head = read l.next i }

-- Remove all nodes from `h` to the new head.
unfoldable pub clear_before : ℕ → SndLossList → ℤ → SndLossList
unfolding seqlen ◌-ℤ◌
clear_before zero l h = l
clear_before (suc f) l h =
    let last = read l.data2 h in
    let rest =
      clear_before f
        (record l {
          loss_length =
              if eqb_ℤ last minus_one
              then l.loss_length -ℤ pos 1
              else l.loss_length -ℤ seqlen (read l.data1 h) last;
          data2 = if eqb_ℤ last minus_one then l.data2 else write l.data2 h minus_one;
          data1 = write l.data1 h minus_one;
          last_insert_pos = clear_insert_pos l h;
        })
        (read l.next h) in
    if eqb_ℤ h l.head then l else rest

unfoldable pub remove : SndLossList → ℤ → SndLossList
unfolding shift_head head_from_node head_from_prior clear_before prior_from seqoff rem ◌+ℤ◌
remove l seqno =
    let offset = seqoff (read l.data1 l.head) seqno in
    let loc = rem (l.head +ℤ offset +ℤ pos l.size) l.size in
    if eqb_ℤ l.loss_length (pos 0)
    then l
    else if eqb_ℤ offset (pos 0)
    then shift_head l seqno
    else if ltb_ℤ (pos 0) offset
    then clear_before (suc l.size)
        (if eqb_ℤ seqno (read l.data1 loc)
          then head_from_node l loc seqno
          else head_from_prior l (prior_from l.size l seqno l.head) loc seqno)
        l.head
    else l

abbrev pub get_loss_length : SndLossList → ℤ
get_loss_length l = l.loss_length

-- The number, or -1, and the list behind it.
unfoldable pub get_lost_seq : SndLossList → SndLossList × ℤ
unfolding behind seqcmp incseq ◌-ℤ◌
get_lost_seq l =
    let seqno = read l.data1 l.head in
    let last = read l.data2 l.head in
    let loc = behind l l.head in
    if eqb_ℤ l.loss_length (pos 0)
    then (l, minus_one)
    else if eqb_ℤ last minus_one
    then (
      record l {
        last_insert_pos = clear_insert_pos l l.head;
        data1 = write l.data1 l.head minus_one;
        head = read l.next l.head;
        loss_length = l.loss_length -ℤ pos 1;
      },
      seqno,
    )
    else (
      record l {
        last_insert_pos = clear_insert_pos l l.head;
        data1 = write (write l.data1 loc (incseq seqno)) l.head minus_one;
        data2 =
            write
              (if ltb_ℤ (pos 0) (seqcmp last (incseq seqno))
                then write l.data2 loc last
                else l.data2)
              l.head minus_one;
        next = write l.next loc (read l.next l.head);
        head = loc;
        loss_length = l.loss_length -ℤ pos 1;
      },
      seqno,
    )
