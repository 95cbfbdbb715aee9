-- ===== src/SeqNo/Circle.antt =====
-- The operations of CSeqNo (udt-sys/udt/udtCommon.h) on the circle of the 2^31 sequence numbers.
use ninewire.Base.{
  ℕ, suc, ◌+◌, ◌-◌, ◌%◌, ◌^◌, ◌≤◌, ◌<◌, ◌≡◌, ◌↔◌, arith, pos, ◌+ℤ◌, ◌-ℤ◌, ◌<ℤ◌, abs, pos_part,
  neg_part,
}
use ninewire.SeqNo.{
  seq_no_th, max_seq_no, max_msg_no, seqcmp, seqlen, seqoff, incseq, decseq, incseq_by, msgcmp,
  msglen, msgoff, incmsg,
}

-- The specification: the number `n` steps ahead of `s`.
abbrev pub ahead : ℕ → ℕ → ℕ
ahead s n = (s + n) % 2 ^ 31

-- For a number and an increment in range both overloads of `incseq` step forward on the circle
-- of 2^31 numbers, and `incseq` and `decseq` undo each other.
pub incseq_steps :
    (s n : ℕ)
    → s ≤ max_seq_no
    → n ≤ max_seq_no
    → (incseq_by (pos s) (pos n) ≡ pos (ahead s n))
      × (incseq (pos s) ≡ pos (ahead s 1))
      × (decseq (incseq (pos s)) ≡ pos s)
      × (incseq (decseq (pos s)) ≡ pos s)
unfolding incseq incseq_by decseq
incseq_steps s n hs hn = (ground arith, ground arith, ground arith, ground arith)

-- For numbers less than the threshold apart, `seqoff` is the signed distance from its first
-- argument to its second, also across the wrap-around.
pub seqoff_distance :
    (s n : ℕ)
    → s ≤ max_seq_no
    → n < seq_no_th
    → (seqoff (pos s) (pos (ahead s n)) ≡ pos n)
      × (seqoff (pos (ahead s n)) (pos s) ≡ pos 0 -ℤ pos n)
unfolding seqoff ◌-ℤ◌
seqoff_distance s n hs hn = (ground arith, ground arith)

-- For any two numbers in range, adding the offset of the second from the first to the first, on
-- the circle, gives the second, and the offset is at most 2^30 + 1 steps either way.
pub seqoff_bounds :
    (a b : ℕ)
    → a ≤ max_seq_no
    → b ≤ max_seq_no
    → let o = seqoff (pos a) (pos b) in
      ((a + pos_part o + 2 ^ 31 - neg_part o) % 2 ^ 31 ≡ b) × (abs o ≤ 2 ^ 30 + 1)
unfolding seqoff ◌-ℤ◌ ◌+ℤ◌
seqoff_bounds a b ha hb = (ground arith, ground arith)

-- A number that is ahead of another by less than the threshold compares greater, the other
-- smaller, and the other compares equal to a third number exactly if they are the same.
pub seqcmp_order :
    (s n b : ℕ)
    → s ≤ max_seq_no
    → suc n < seq_no_th
    → (pos 0 <ℤ seqcmp (pos (ahead s (suc n))) (pos s))
      × (seqcmp (pos s) (pos (ahead s (suc n))) <ℤ pos 0)
      × ((seqcmp (pos s) (pos b) ≡ pos 0) ↔ (s ≡ b))
unfolding seqcmp ◌-ℤ◌
seqcmp_order s n b hs hn = (ground arith, ground arith, ground arith)

-- `seqlen` counts the numbers of a range, both ends included, also across the wrap-around.
pub seqlen_count :
    (s n : ℕ) → s ≤ max_seq_no → n < max_seq_no → seqlen (pos s) (pos (ahead s n)) ≡ pos (suc n)
unfolding seqlen ◌-ℤ◌ ◌+ℤ◌
seqlen_count s n hs hn = ground arith

-- Message numbers go round a circle of 2^29: the offset of the successor is 1, the offset of two
-- numbers leads from the first to the second, and a successor compares greater.
pub msg_circle :
    (a b : ℕ)
    → a ≤ max_msg_no
    → b ≤ max_msg_no
    → let o = msgoff (pos a) (pos b) in
      ((a + pos_part o + 2 ^ 29 - neg_part o) % 2 ^ 29 ≡ b)
      × (msgoff (pos a) (incmsg (pos a)) ≡ pos 1)
      × (msglen (pos a) (incmsg (pos a)) ≡ pos 2)
      × (pos 0 <ℤ msgcmp (incmsg (pos a)) (pos a))
unfolding msgoff incmsg msglen msgcmp ◌-ℤ◌ ◌+ℤ◌
msg_circle a b ha hb = (ground arith, ground arith, ground arith, ground arith)
