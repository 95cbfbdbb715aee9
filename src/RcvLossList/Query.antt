-- ===== src/RcvLossList/Query.antt =====
-- udt-sys/udt/list.cpp: the queries of CRcvLossList. The walks along the chain take fuel.
use ninewire.Base.{
  ℕ, zero, suc, ◌+◌, ◌%◌, ◌^◌, Bool, true, false, ℤ, pos, pos_part, minus_one, eqb_ℤ, ltb_ℤ, leb_ℤ,
  not, ◌&&◌, ◌||◌, if◌then◌else◌, ltb, read, List, [], ◌∷◌,
}
use ninewire.SeqNo.{seqcmp}
use ninewire.RcvLossList.{RcvLossList}

-- Whether node `p` meets the range.
unfoldable pub node_meets : RcvLossList → ℤ → ℤ → ℤ → Bool
unfolding seqcmp
node_meets l seqno1 seqno2 p =
    eqb_ℤ (seqcmp (read l.data1 p) seqno1) (pos 0)
    || (ltb_ℤ (pos 0) (seqcmp (read l.data1 p) seqno1)
        && leb_ℤ (seqcmp (read l.data1 p) seqno2) (pos 0))
    || (ltb_ℤ (seqcmp (read l.data1 p) seqno1) (pos 0)
        && not (eqb_ℤ (read l.data2 p) minus_one)
        && leb_ℤ (pos 0) (seqcmp (read l.data2 p) seqno1))

unfoldable pub find_from : ℕ → RcvLossList → ℤ → ℤ → ℤ → Bool
unfolding node_meets
find_from zero l seqno1 seqno2 p = false
find_from (suc f) l seqno1 seqno2 p =
    let rest = find_from f l seqno1 seqno2 (read l.next p) in
    if eqb_ℤ p minus_one then false else if node_meets l seqno1 seqno2 p then true else rest

unfoldable pub find : RcvLossList → ℤ → ℤ → Bool
unfolding find_from
find l seqno1 seqno2 =
    if eqb_ℤ l.loss_length (pos 0) then false else find_from (suc l.size) l seqno1 seqno2 l.head

abbrev pub get_loss_length : RcvLossList → ℤ
get_loss_length l = l.loss_length

unfoldable pub get_first_lost_seq : RcvLossList → ℤ
get_first_lost_seq l = if eqb_ℤ l.loss_length (pos 0) then minus_one else read l.data1 l.head

-- `array[len] |= 0x80000000` on a number below 2^31 sets the top bit of the 32-bit word.
abbrev pub mark : ℕ → ℕ
mark a = a % 2 ^ 31 + 2 ^ 31

-- The words that the loop writes from position `len` on.
unfoldable pub loss_words : ℕ → RcvLossList → ℕ → ℕ → ℤ → List ℕ
loss_words zero l limit len i = []
loss_words (suc f) l limit len i =
    let one = loss_words f l limit (len + 1) (read l.next i) in
    let two = loss_words f l limit (len + 2) (read l.next i) in
    if ltb (len + 1) limit && not (eqb_ℤ i minus_one)
    then if eqb_ℤ (read l.data2 i) minus_one
      then pos_part (read l.data1 i) ∷ one
      else mark (pos_part (read l.data1 i)) ∷ pos_part (read l.data2 i) ∷ two
    else []

-- The array and its length are out parameters: the words written.
unfoldable pub get_loss_array : RcvLossList → ℕ → List ℕ
unfolding loss_words
get_loss_array l limit = loss_words (suc l.size) l limit 0 l.head
