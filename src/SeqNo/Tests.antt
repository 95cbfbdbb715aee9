-- ===== src/SeqNo/Tests.antt =====
-- Sequence numbers at concrete inputs, across the wrap-around.
use ninewire.Base.{◌≡◌, refl, arith, pos, pos_part, neg_part, ◌+◌, ◌-◌, ◌%◌, ◌^◌, ◌≤◌, abs}
use ninewire.SeqNo.{seqlen, seqoff}
use ninewire.SeqNo.Circle.{seqoff_bounds}

len_wraps : seqlen (pos 0x7FFF_FFFE) (pos 1) ≡ pos 4
unfolding seqlen
len_wraps = refl

seqoff_bounds_example :
    let o = seqoff (pos 0x7FFF_FFFE) (pos 1) in
    ((0x7FFF_FFFE + pos_part o + 2 ^ 31 - neg_part o) % 2 ^ 31 ≡ 1) × (abs o ≤ 2 ^ 30 + 1)
seqoff_bounds_example = seqoff_bounds 0x7FFF_FFFE 1 (omega arith) (omega arith)
