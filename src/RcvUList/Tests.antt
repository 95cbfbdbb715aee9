-- ===== src/RcvUList/Tests.antt =====
-- A list of three nodes, 5, 6 and 7.
use ninewire.Base.{◌≡◌, refl, arith, true, false, some, [], ◌∷◌, ◌++◌}
use ninewire.RcvUList.{RcvUList, new, insert, remove, update}
use ninewire.RcvUList.Order.{Holds, remove_and_update}

new-Holds : Holds new []
unfolding new
new-Holds = record { start = refl; end = refl; linked = tt; distinct = tt }

abbrev three : RcvUList
three = record (insert (insert (insert new 5 0) 6 0) 7 0) { on_list = λ n. true }

three-Holds : Holds three (5 ∷ 6 ∷ 7 ∷ [])
unfolding insert new
three-Holds = record {
  start = refl;
  end = refl;
  linked = (refl, refl, (refl, refl, (refl, refl, tt)));
  distinct = ((omega arith, (omega arith, tt)), ((omega arith, tt), (tt, tt)));
}

the_first_moves :
    ((update three 5 9).u_list ≡ some 6)
    × ((update three 5 9).last ≡ some 5)
    × ((update three 5 9).time_stamp 5 ≡ 9)
unfolding update insert new
the_first_moves = (refl, refl, refl)

remove_and_update_example :
    (true ≡ true
      → Holds (remove three 6) ((5 ∷ []) ++ 7 ∷ [])
        × Holds (update three 6 9) ((5 ∷ []) ++ (7 ∷ []) ++ 6 ∷ []))
    × (true ≡ false → (remove three 6 ≡ three) × (update three 6 9 ≡ three))
remove_and_update_example = remove_and_update three 6 9 (5 ∷ []) (7 ∷ []) three-Holds
