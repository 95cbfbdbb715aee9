-- ===== src/UnitQueue/Tests.antt =====
-- udt-sys/udt/queue.cpp: queues of three and four units.
use ninewire.Base.{ℕ, ◌≡◌, ◌<◌, ◌≤◌, ◌⊎◌, refl, arith, some, [], ◌∷◌, get_or, length}
use ninewire.UnitQueue.{UnitQueue, init, grown, get_next_avail_unit}
use ninewire.UnitQueue.Free.{IsFree, get_next_avail_unit-Handed}
use ninewire.UnitQueue.Full.{IsFull, get_next_avail_unit-none}

abbrev two_of_four : UnitQueue
two_of_four = record {
  entries = (1 ∷ 1 ∷ 0 ∷ 0 ∷ []) ∷ [];
  curr_queue = 0;
  avail_unit = 1;
  size = 4;
  count = 2;
}

abbrev two_of_three : UnitQueue
two_of_three = record {
  entries = (1 ∷ 1 ∷ 0 ∷ []) ∷ [];
  curr_queue = 0;
  avail_unit = 0;
  size = 3;
  count = 2;
}

get_next_avail_unit-Handed_example : IsFree (get_next_avail_unit two_of_four).1.entries (0, 2)
unfolding get_next_avail_unit
get_next_avail_unit-Handed_example = (get_next_avail_unit-Handed two_of_four (0, 2) refl).0

-- The last unit is free, but it is not handed out.
get_next_avail_unit-none_example :
    ((grown two_of_three).size ≤ (grown two_of_three).count)
    ⊎ ((t : ℕ)
        → t < length (grown two_of_three).entries
        → IsFull (get_or (grown two_of_three).entries t []))
unfolding get_next_avail_unit
get_next_avail_unit-none_example = get_next_avail_unit-none two_of_three refl (omega arith) refl

first_unit : (get_next_avail_unit (init 4)).0 ≡ some (0, 0)
unfolding get_next_avail_unit init
first_unit = refl
