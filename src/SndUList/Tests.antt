-- ===== src/SndUList/Tests.antt =====
-- Runs of CSndUList (udt-sys/udt/queue.cpp) at concrete times.
use ninewire.Base.{ℕ, ◌+◌, ◌≡◌, ◌||◌, ◌==◌, refl, arith, ltb, if◌then◌else◌, true, false, some, inl}
use ninewire.SndUList.{SndUList, Ready, new, key, on_heap, insert_node, remove_node, pop}
use ninewire.SndUList.Order.{IsValid}
use ninewire.SndUList.Up.{insert_node-IsValid}
use ninewire.SndUList.Down.{Removed, remove_node-Removed}
use ninewire.SndUList.Pop.{Popped, pop-Popped}

new-IsValid : IsValid new
unfolding new
new-IsValid = record {
  ordered = λ c a b. absurd (omega arith);
  linked = (λ i a. absurd (omega arith), λ u i e. absurd (cc));
}

abbrev two : SndUList
two = insert_node (insert_node new 20 7) 10 8

two-IsValid : IsValid two
unfolding insert_node new
two-IsValid =
    (insert_node-IsValid (insert_node new 20 7) 10 8
      (insert_node-IsValid new 20 7 new-IsValid refl).0 refl).0

insert_node-IsValid_example :
    let s' = insert_node two 5 3 in
    IsValid s'
    × (s'.count ≡ two.count + 1)
    × ((w : ℕ) → on_heap s' w ≡ (w == 3 || on_heap two w))
    × ((w : ℕ) → s'.time w ≡ (if w == 3 then 5 else two.time w))
unfolding insert_node new
insert_node-IsValid_example = insert_node-IsValid two 5 3 two-IsValid refl

remove_node-Removed_example : Removed two 8 (remove_node two 8)
unfolding insert_node new
remove_node-Removed_example = remove_node-Removed two 8 0 two-IsValid refl (inl refl)

abbrev ready : ℕ → Ready
ready u = record { connected = true; broken = false; packed = some 30 }

pop-Popped_example : Popped two 15 ready (pop two 15 ready)
pop-Popped_example = pop-Popped two 15 ready two-IsValid

-- The earlier one of two sockets sends first, and comes back behind the other.
pops_in_order : ((pop two 15 ready).1 ≡ some 8) × ((pop (pop two 15 ready).0 25 ready).1 ≡ some 7)
unfolding pop insert_node new
pops_in_order = (refl, refl)

abbrev six : SndUList
six =
    insert_node
      (insert_node (insert_node (insert_node (insert_node (insert_node new 1 0) 10 1) 2 2) 11 3) 12
        4)
      3 5

-- The entry that fills a hole may be earlier than the parent of the hole: it is not raised.
remove_breaks_the_order : ltb (key (remove_node six 3) 3) (key (remove_node six 3) 1) ≡ true
unfolding remove_node insert_node new
remove_breaks_the_order = refl
