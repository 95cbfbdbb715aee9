-- ===== src/SeqNo.antt =====
-- udt-sys/udt/udtCommon.h: CSeqNo, CAckNo and CMsgNo, the circular numbers of packets, of
-- acknowledgements and of messages, with their constants of udt-sys/udt/core.cpp.
pub mod Circle
mod Tests
use ninewire.Base.{ℕ, ◌+◌, ◌-◌, ℤ, pos, ◌+ℤ◌, ◌-ℤ◌, ltb_ℤ, leb_ℤ, eqb_ℤ, abs, ltb, if◌then◌else◌}

abbrev pub seq_no_th : ℕ
seq_no_th = 0x3FFF_FFFF

abbrev pub max_seq_no : ℕ
max_seq_no = 0x7FFF_FFFF

abbrev pub max_ack_seq_no : ℕ
max_ack_seq_no = 0x7FFF_FFFF

abbrev pub msg_no_th : ℕ
msg_no_th = 0x0FFF_FFFF

abbrev pub max_msg_no : ℕ
max_msg_no = 0x1FFF_FFFF

unfoldable pub seqcmp : ℤ → ℤ → ℤ
unfolding ◌-ℤ◌
seqcmp seq1 seq2 = if ltb (abs (seq1 -ℤ seq2)) seq_no_th then seq1 -ℤ seq2 else seq2 -ℤ seq1

unfoldable pub seqlen : ℤ → ℤ → ℤ
unfolding ◌-ℤ◌ ◌+ℤ◌
seqlen seq1 seq2 =
    if leb_ℤ seq1 seq2 then seq2 -ℤ seq1 +ℤ pos 1 else seq2 -ℤ seq1 +ℤ pos max_seq_no +ℤ pos 2

unfoldable pub seqoff : ℤ → ℤ → ℤ
unfolding ◌-ℤ◌ ◌+ℤ◌
seqoff seq1 seq2 =
    if ltb (abs (seq1 -ℤ seq2)) seq_no_th
    then seq2 -ℤ seq1
    else if ltb_ℤ seq1 seq2
    then seq2 -ℤ seq1 -ℤ pos max_seq_no -ℤ pos 1
    else seq2 -ℤ seq1 +ℤ pos max_seq_no +ℤ pos 1

unfoldable pub incseq : ℤ → ℤ
unfolding ◌+ℤ◌
incseq seq = if eqb_ℤ seq (pos max_seq_no) then pos 0 else seq +ℤ pos 1

unfoldable pub decseq : ℤ → ℤ
unfolding ◌-ℤ◌
decseq seq = if eqb_ℤ seq (pos 0) then pos max_seq_no else seq -ℤ pos 1

-- The overload of `incseq` with an increment.
unfoldable pub incseq_by : ℤ → ℤ → ℤ
unfolding ◌-ℤ◌ ◌+ℤ◌
incseq_by seq inc =
    if leb_ℤ inc (pos max_seq_no -ℤ seq) then seq +ℤ inc else seq -ℤ pos max_seq_no +ℤ inc -ℤ pos 1

unfoldable pub incack : ℤ → ℤ
unfolding ◌+ℤ◌
incack ackno = if eqb_ℤ ackno (pos max_ack_seq_no) then pos 0 else ackno +ℤ pos 1

unfoldable pub msgcmp : ℤ → ℤ → ℤ
unfolding ◌-ℤ◌
msgcmp msgno1 msgno2 =
    if ltb (abs (msgno1 -ℤ msgno2)) msg_no_th then msgno1 -ℤ msgno2 else msgno2 -ℤ msgno1

unfoldable pub msglen : ℤ → ℤ → ℤ
unfolding ◌-ℤ◌ ◌+ℤ◌
msglen msgno1 msgno2 =
    if leb_ℤ msgno1 msgno2
    then msgno2 -ℤ msgno1 +ℤ pos 1
    else msgno2 -ℤ msgno1 +ℤ pos max_msg_no +ℤ pos 2

unfoldable pub msgoff : ℤ → ℤ → ℤ
unfolding ◌-ℤ◌ ◌+ℤ◌
msgoff msgno1 msgno2 =
    if ltb (abs (msgno1 -ℤ msgno2)) msg_no_th
    then msgno2 -ℤ msgno1
    else if ltb_ℤ msgno1 msgno2
    then msgno2 -ℤ msgno1 -ℤ pos max_msg_no -ℤ pos 1
    else msgno2 -ℤ msgno1 +ℤ pos max_msg_no +ℤ pos 1

unfoldable pub incmsg : ℤ → ℤ
unfolding ◌+ℤ◌
incmsg msgno = if eqb_ℤ msgno (pos max_msg_no) then pos 0 else msgno +ℤ pos 1
