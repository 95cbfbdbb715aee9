-- ===== src/UnitQueue/Full.antt =====
-- udt-sys/udt/queue.cpp: when CUnitQueue::getNextAvailUnit hands out nothing.
use ninewire.Base.{
  dec_le, if_false, ◌∙◌, length-append, replicate, ℕ, zero, suc, ◌+◌, ◌-◌, ◌*◌, ◌<◌, ◌≤◌, ◌≡◌, ◌≢◌,
  refl, ap, sym, subst, arith, ltb, leb, ◌⊎◌, inl, inr, if_chooses, List, [], ◌∷◌, length, get_or,
  Option, none, some, ℕ_discrete,
}
use ninewire.UnitQueue.{
  real_count, UnitQueue, first_free, or_first, free_in, search, next_queue, grown, hand_out,
  get_next_avail_unit, increase,
}

-- Each unit but the last is taken, and so is the first.
pub record IsFull (flags : List ℕ) : Type 0 where
  pub taken : (j : ℕ) → j + 1 < length flags → get_or flags j 0 ≢ 0
  pub first : get_or flags 0 0 ≢ 0

first_free-none :
    (n : ℕ) (flags : List ℕ) (i j : ℕ)
    → first_free n flags i ≡ none
    → i ≤ j
    → j < i + n
    → get_or flags j 0 ≢ 0
unfolding first_free
first_free-none zero flags i j e l h = ground (arith, l, h)
first_free-none (suc n) flags i j e l h = elim (ℕ_discrete i j) [
  | yes q ↦ λ z. ground (arith, e, subst (λ k. get_or flags k 0 ≡ 0) (sym q) z)
  | no q ↦
      first_free-none n flags (i + 1) j (ground (arith, e)) (ground (arith, l, q))
        (ground (arith, h))
]

or_first-none :
    (flags : List ℕ) (r : Option ℕ)
    → first_free (length flags - 1) flags 0 ≡ r
    → or_first flags r ≡ none
    → IsFull flags
unfolding or_first
or_first-none flags none h e = record {
  taken = λ j l. first_free-none (length flags - 1) flags 0 j h (omega arith) (omega (arith, l));
  first = ground (arith, e);
}
or_first-none flags (some j) h e = ground (arith, e)

free_in-none : (flags : List ℕ) → free_in flags 0 ≡ none → IsFull flags
unfolding free_in
free_in-none flags e =
    or_first-none flags (first_free (length flags - 1 - 0) flags 0)
      (ap (λ k. first_free k flags 0) (omega arith)) e

search-none :
    (n : ℕ) (entries : List (List ℕ)) (q t : ℕ)
    → search n entries q 0 ≡ none
    → q < length entries
    → t < length entries
    → ((q ≤ t) × (t < q + n)) ⊎ ((t < q) × (t + length entries < q + n))
    → IsFull (get_or entries t [])
unfolding search
search-none zero entries q t e h l c = ground (arith, h, l, c)
search-none (suc n) entries q t e h l c =
    by_queue (free_in (get_or entries q []) 0) refl e (λ e' ne.
      search-none n entries (next_queue entries q) t e' (ground (arith, h)) l
        (ground (arith, h, l, c, ne)))
  where
    by_queue :
        (r : Option ℕ)
        → free_in (get_or entries q []) 0 ≡ r
        → elim r [ some j ↦ some (q, j) | none ↦ search n entries (next_queue entries q) 0 ] ≡ none
        → (search n entries (next_queue entries q) 0 ≡ none
            → (t ≡ q → ⊥)
            → IsFull (get_or entries t []))
        → IsFull (get_or entries t [])
    by_queue none h e ih = elim (ℕ_discrete t q) [
      | yes same ↦
          subst (λ k. IsFull (get_or entries k [])) (sym same)
            (free_in-none (get_or entries q []) h)
      | no ne ↦ ih e ne
    ]
    by_queue (some j) h e ih = ground (arith, e)

hand_out-none : (g : UnitQueue) (r : Option (ℕ × ℕ)) → (hand_out g r).0 ≡ none → r ≡ none
unfolding hand_out
hand_out-none g none e = refl
hand_out-none g (some (q, i)) e = ground (arith, e)

grown_place :
    (u : UnitQueue)
    → ((grown u).avail_unit ≡ u.avail_unit)
      × ((grown u).curr_queue ≡ u.curr_queue)
      × (length u.entries ≤ length (grown u).entries)
unfolding grown increase
grown_place u =
    let Place = λ (g : UnitQueue).
      (g.avail_unit ≡ u.avail_unit)
      × (g.curr_queue ≡ u.curr_queue)
      × (length u.entries ≤ length g.entries) in
    if_chooses Place (ltb (u.size * 9) (u.count * 10))
      (λ f.
        if_chooses Place (ltb (real_count u.entries * 10) (u.size * 9))
          (λ l. (refl, refl, omega arith))
          λ l. (
            refl,
            refl,
            omega (
              arith,
              length-append u.entries (replicate (length (get_or u.entries 0 [])) 0 ∷ []),
            ),
          ))
      (λ f. (refl, refl, omega arith))

either_side : (q t n : ℕ) → t < n → ((q ≤ t) × (t < q + n)) ⊎ ((t < q) × (t + n < q + n))
either_side q t n l = ground (arith, l)

-- Let the search begin at the first unit of a queue. If `getNextAvailUnit` hands out nothing, either
-- the count says that there is no room, or in every queue all units but the last are taken.
pub get_next_avail_unit-none :
    (u : UnitQueue)
    → u.avail_unit ≡ 0
    → u.curr_queue < length u.entries
    → (get_next_avail_unit u).0 ≡ none
    → let g = grown u in
      (g.size ≤ g.count) ⊎ ((t : ℕ) → t < length g.entries → IsFull (get_or g.entries t []))
unfolding get_next_avail_unit
get_next_avail_unit-none u z c e = elim (dec_le (grown u).size (grown u).count) [
  | yes full ↦ inl full
  | no room ↦
      let g = grown u in
      let place = grown_place u in
      let found = search (length g.entries) g.entries g.curr_queue g.avail_unit in
      let searched : get_next_avail_unit u ≡ hand_out g found =
        if_false (leb g.size g.count) (none, g) (hand_out g found) (ground (arith, room)) in
      let handed : (hand_out g found).0 ≡ none =
        subst (λ (r : Option (ℕ × ℕ) × UnitQueue). r.0 ≡ none) searched e in
      inr λ t l.
        search-none (length g.entries) g.entries g.curr_queue t
          (subst (λ i. search (length g.entries) g.entries g.curr_queue i ≡ none) (place.0 ∙ z)
            (hand_out-none g found handed))
          (omega (arith, c, place.1, place.2)) l (either_side g.curr_queue t (length g.entries) l)
]
