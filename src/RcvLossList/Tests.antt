-- ===== src/RcvLossList/Tests.antt =====
-- Loss lists of eight slots, with the sequences across the wrap-around of the numbers.
use ninewire.Base.{◌<◌, ◌+◌, ◌≡◌, refl, pos, [], ◌∷◌, arith}
use ninewire.SeqNo.{max_seq_no}
use ninewire.RcvLossList.{RcvLossList, new, insert}
use ninewire.RcvLossList.Remove.{remove, remove_range}
use ninewire.RcvLossList.Spans.{Holds, add}
use ninewire.RcvLossList.Empty.{new-IsEmpty, insert_first_refines}
use ninewire.RcvLossList.Insertion.{insert_refines}
use ninewire.RcvLossList.Report.{get_loss_array_lem, report}
use ninewire.RcvLossList.Query.{get_loss_array, get_first_lost_seq}

two_gaps : RcvLossList
unfolding new insert
two_gaps = insert (insert (new 8) (pos 3) (pos 5)) (pos 7) (pos 7)

insert_two : get_loss_array two_gaps 8 ≡ 2147483651 ∷ 5 ∷ 7 ∷ []
unfolding two_gaps get_loss_array
insert_two = refl

split_in_two : get_loss_array (remove two_gaps (pos 4)).1 8 ≡ 3 ∷ 5 ∷ 7 ∷ []
unfolding two_gaps get_loss_array remove
split_in_two = refl

move_on : get_loss_array (remove two_gaps (pos 3)).1 8 ≡ 2147483652 ∷ 5 ∷ 7 ∷ []
unfolding two_gaps get_loss_array remove
move_on = refl

drop_middle : get_loss_array (remove (remove two_gaps (pos 5)).1 (pos 7)).1 8 ≡ 2147483651 ∷ 4 ∷ []
unfolding two_gaps get_loss_array remove
drop_middle = refl

-- The range from 2^31 - 2 to 0 leaves 2^31 - 1 in the list.
wrap_range_misses_the_last :
    get_loss_array
      (remove_range (insert (new 8) (pos 0x7FFF_FFFE) (pos 0)) (pos 0x7FFF_FFFE) (pos 0)).1
      8
    ≡ max_seq_no ∷ []
unfolding new insert get_loss_array remove_range
wrap_range_misses_the_last = refl

-- A list with one span of three numbers, from slot 0 on.
abbrev one_gap : RcvLossList
one_gap = insert (new 8) (pos 3) (pos 5)

insert_first_refines_example : Holds 5 one_gap ((3, 5) ∷ [])
unfolding new
insert_first_refines_example =
    insert_first_refines (new 8) (new-IsEmpty 8 (omega arith) (omega arith)) 3 5 (omega arith)
      (omega arith)

one_gap-Holds : Holds 5 one_gap ((3, 5) ∷ [])
unfolding new
one_gap-Holds =
    insert_first_refines (new 8) (new-IsEmpty 8 (omega arith) (omega arith)) 3 5 (omega arith)
      (omega arith)

insert_refines_example : Holds 5 (insert one_gap (pos 7) (pos 7)) (add ((3, 5) ∷ []) (7, 7))
unfolding insert new
insert_refines_example =
    insert_refines 5 7 7 one_gap 3 5 [] one_gap-Holds (omega arith) (omega arith) (size_lap refl)
      (omega arith)
  where
    size_lap : one_gap.size ≡ 8 → 7 < 3 + one_gap.size
    size_lap e = omega (arith, e)

get_loss_array_lem_example :
    (get_loss_array one_gap 10 ≡ report 10 0 ((3, 5) ∷ [])) × (get_first_lost_seq one_gap ≡ pos 3)
get_loss_array_lem_example = get_loss_array_lem 5 10 one_gap 3 5 [] one_gap-Holds
