-- ===== src/SndLossList/Tests.antt =====
-- Runs of CSndLossList (udt-sys/udt/list.cpp) at concrete numbers.
use ninewire.Base.{◌≡◌, refl, arith, pos, ◌∷◌, []}
use ninewire.SeqNo.{max_seq_no}
use ninewire.SeqNo.Circle.{ahead}
use ninewire.SndLossList.{SndLossList, new, insert}
use ninewire.SndLossList.Remove.{remove}
use ninewire.SndLossList.Drain.{drain, drain-insert, numbers}

-- [3, 7], [12, 12] and [5, 10] make [3, 10], [12, 12]: nine numbers.
abbrev three_ranges : SndLossList
three_ranges =
    (insert (insert (insert (new 16) (pos 3) (pos 7)).0 (pos 12) (pos 12)).0 (pos 5) (pos 10)).0

overlap_merges :
    (drain 9 three_ranges).1
    ≡ pos 3 ∷ pos 4 ∷ pos 5 ∷ pos 6 ∷ pos 7 ∷ pos 8 ∷ pos 9 ∷ pos 10 ∷ pos 12 ∷ []
unfolding insert new drain
overlap_merges = refl

insert_counts_new_numbers : (insert (insert (new 16) (pos 3) (pos 7)).0 (pos 5) (pos 10)).1 ≡ pos 3
unfolding insert new
insert_counts_new_numbers = refl

remove_drops_the_prefix : (drain 3 (remove three_ranges (pos 8))).1 ≡ pos 9 ∷ pos 10 ∷ pos 12 ∷ []
unfolding insert new drain remove
remove_drops_the_prefix = refl

drain-insert_example :
    let r = drain 3 (insert (new 16) (pos max_seq_no) (pos (ahead max_seq_no 2))).0 in
    (r.1 ≡ numbers max_seq_no 3) × (r.0.loss_length ≡ pos 0)
drain-insert_example = drain-insert 16 max_seq_no 2 (omega arith) (omega arith) (omega arith)
