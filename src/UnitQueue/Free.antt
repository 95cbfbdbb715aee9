-- ===== src/UnitQueue/Free.antt =====
-- udt-sys/udt/queue.cpp: the unit that CUnitQueue::getNextAvailUnit hands out.
use ninewire.Base.{
  ◌∙◌, get_or-append_left, replicate, ℕ, zero, suc, ◌+◌, ◌-◌, ◌*◌, ◌<◌, ◌≤◌, ◌≡◌, refl, ap, subst,
  arith, ltb, leb, ◌⊎◌, if_chooses, List, [], ◌∷◌, length, get_or, Option, none, some,
}
use ninewire.UnitQueue.{
  hand_out, real_count, UnitQueue, flag_at, first_free, free_in, or_first, search, next_queue,
  grown, get_next_avail_unit, increase,
}

first_free_says :
    (n : ℕ) (flags : List ℕ) (i j : ℕ)
    → first_free n flags i ≡ some j
    → (get_or flags j 0 ≡ 0) × (i ≤ j) × (j < i + n)
unfolding first_free
first_free_says zero flags i j e = ground (arith, e)
first_free_says (suc n) flags i j e = ground (arith, e, first_free_says n flags (i + 1) j)

free_in_says :
    (flags : List ℕ) (i j : ℕ)
    → free_in flags i ≡ some j
    → (get_or flags j 0 ≡ 0) × ((j + 1 < length flags) ⊎ (j ≡ 0))
unfolding free_in or_first
free_in_says flags i j e = ground (arith, e, first_free_says (length flags - 1 - i) flags i j)

-- A unit that may be handed out.
pub record IsFree (entries : List (List ℕ)) (unit : ℕ × ℕ) : Type 0 where
  pub free : flag_at entries unit.0 unit.1 ≡ 0
  pub not_last : (unit.1 + 1 < length (get_or entries unit.0 [])) ⊎ (unit.1 ≡ 0)

abbrev of : Option (ℕ × ℕ) → ℕ × ℕ → ℕ × ℕ
of none d = d
of (some x) d = x

search-IsFree :
    (n : ℕ) (entries : List (List ℕ)) (q i : ℕ) (unit : ℕ × ℕ)
    → search n entries q i ≡ some unit
    → IsFree entries unit
unfolding search
search-IsFree zero entries q i unit e = ground (arith, e)
search-IsFree (suc n) entries q i unit e =
    found (free_in (get_or entries q []) i) refl e
      (search-IsFree n entries (next_queue entries q) 0 unit)
  where
    found :
        (r : Option ℕ)
        → free_in (get_or entries q []) i ≡ r
        → elim r [ some j ↦ some (q, j) | none ↦ search n entries (next_queue entries q) 0 ]
          ≡ some unit
        → (search n entries (next_queue entries q) 0 ≡ some unit → IsFree entries unit)
        → IsFree entries unit
    found none h e ih = ih e
    found (some j) h e ih =
        let says = free_in_says (get_or entries q []) i j h in
        subst (IsFree entries) (ap (λ o. of o unit) e) (record { free = says.0; not_last = says.1 })

grown_keeps :
    (u : UnitQueue) (q i : ℕ)
    → q < length u.entries
    → flag_at (grown u).entries q i ≡ flag_at u.entries q i
unfolding grown increase
grown_keeps u q i h =
    let Keeps = λ (g : UnitQueue). flag_at g.entries q i ≡ flag_at u.entries q i in
    if_chooses Keeps (ltb (u.size * 9) (u.count * 10))
      (λ f.
        if_chooses Keeps (ltb (real_count u.entries * 10) (u.size * 9)) (λ l. refl)
          λ l.
            ap (λ flags. get_or flags i 0)
              (get_or-append_left u.entries (replicate (length (get_or u.entries 0 [])) 0 ∷ []) q []
                h))
      (λ f. refl)

-- The unit of a result, in the state after the call.
abbrev pub Handed : UnitQueue → Option (ℕ × ℕ) × UnitQueue → Type 0
Handed u (r, v) =
    (unit : ℕ × ℕ)
    → r ≡ some unit
    → IsFree v.entries unit
      × (v.curr_queue ≡ unit.0)
      × (v.avail_unit ≡ unit.1)
      × ((q i : ℕ) → q < length u.entries → flag_at v.entries q i ≡ flag_at u.entries q i)

hand_out-Handed :
    (u : UnitQueue) (r : Option (ℕ × ℕ))
    → search (length (grown u).entries) (grown u).entries (grown u).curr_queue (grown u).avail_unit
      ≡ r
    → Handed u (hand_out (grown u) r)
unfolding hand_out
hand_out-Handed u none h unit e = ground (arith, e)
hand_out-Handed u (some (q, i)) h unit e =
    let same : (q, i) ≡ unit = ap (λ o. of o unit) e in
    (
      search-IsFree _ (grown u).entries _ _ unit (h ∙ e),
      ap (λ p. p.0) same,
      ap (λ p. p.1) same,
      grown_keeps u,
    )

-- A unit that `getNextAvailUnit` hands out is free, in the queues after the call, and it is not the
-- last one of its queue, unless it is the first one as well. The next search begins there, and no
-- unit that was there before the call has another flag.
pub get_next_avail_unit-Handed : (u : UnitQueue) → Handed u (get_next_avail_unit u)
unfolding get_next_avail_unit
get_next_avail_unit-Handed u =
    if_chooses (Handed u) (leb (grown u).size (grown u).count) (λ f unit e. ground (arith, e))
      λ f. hand_out-Handed u _ refl
