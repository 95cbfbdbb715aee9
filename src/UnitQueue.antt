-- ===== src/UnitQueue.antt =====
-- udt-sys/udt/queue.cpp: CUnitQueue, the storage of the packets that arrive. The entries of the circle
-- of queues are listed from m_pQEntry to m_pLastQueue, each as the flags of its units; a pointer to a
-- unit is the number of its queue and its place there. An allocation that fails is not modelled.
pub mod Free
pub mod Full
mod Tests
use ninewire.Base.{
  ℕ, zero, suc, ◌+◌, ◌-◌, ◌*◌, Bool, true, false, ltb, leb, ◌==◌, not, if◌then◌else◌, List, [], ◌∷◌,
  ◌++◌, length, get_or, replicate, Option, none, some,
}

pub record UnitQueue : Type 0 where
  pub entries : List (List ℕ)
  pub curr_queue : ℕ
  pub avail_unit : ℕ
  pub size : ℕ
  pub count : ℕ

-- `m_iFlag` of a unit
abbrev pub flag_at : List (List ℕ) → ℕ → ℕ → ℕ
flag_at entries q i = get_or (get_or entries q []) i 0

-- `init` of a new object
unfoldable pub init : ℕ → UnitQueue
init size = record {
  entries = replicate size 0 ∷ [];
  curr_queue = 0;
  avail_unit = 0;
  size = size;
  count = 0;
}

unfoldable pub used_of : List ℕ → ℕ
used_of [] = 0
used_of (flag ∷ flags) = if flag == 0 then used_of flags else suc (used_of flags)

unfoldable pub real_count : List (List ℕ) → ℕ
unfolding used_of
real_count [] = 0
real_count (flags ∷ entries) = used_of flags + real_count entries

-- The quotient of the count and the size is less than 0.9 as a `double` just if it is so exactly, as
-- both are ints.
unfoldable pub increase : UnitQueue → UnitQueue
unfolding real_count
increase u =
    let count = real_count u.entries in
    let size = length (get_or u.entries 0 []) in
    if ltb (count * 10) (u.size * 9) then record u { count = count } else record u {
      count = count;
      entries = u.entries ++ replicate size 0 ∷ [];
      size = u.size + size;
    }

-- The loop from place `i` up to the last place, whose unit it does not look at, with the number of
-- places to go.
unfoldable pub first_free : ℕ → List ℕ → ℕ → Option ℕ
first_free zero flags i = none
first_free (suc n) flags i =
    let rest = first_free n flags (i + 1) in if get_or flags i 0 == 0 then some i else rest

abbrev pub next_queue : List (List ℕ) → ℕ → ℕ
next_queue entries q = if q + 1 == length entries then 0 else q + 1

-- The first unit, if the loop finds none.
unfoldable pub or_first : List ℕ → Option ℕ → Option ℕ
or_first flags (some j) = some j
or_first flags none = if get_or flags 0 0 == 0 then some 0 else none

-- What is left to do in a queue from the place `i` on: the unit that is found there.
unfoldable pub free_in : List ℕ → ℕ → Option ℕ
unfolding first_free or_first
free_in flags i = or_first flags (first_free (length flags - 1 - i) flags i)

-- The loop over the queues for a number of rounds; the result is the queue and the place.
unfoldable pub search : ℕ → List (List ℕ) → ℕ → ℕ → Option (ℕ × ℕ)
unfolding free_in
search zero entries q i = none
search (suc n) entries q i = elim (free_in (get_or entries q []) i) [
  | some j ↦ some (q, j)
  | none ↦ search n entries (next_queue entries q) 0
]

-- `if (m_iCount * 10 > m_iSize * 9) increase();`
unfoldable pub grown : UnitQueue → UnitQueue
unfolding increase
grown u = if ltb (u.size * 9) (u.count * 10) then increase u else u

-- What the search comes to; after a round that finds nothing, the place is the first of the queue
-- where it began.
unfoldable pub hand_out : UnitQueue → Option (ℕ × ℕ) → Option (ℕ × ℕ) × UnitQueue
unfolding increase
hand_out g (some (q, i)) = (some (q, i), record g { curr_queue = q; avail_unit = i })
hand_out g none = (none, increase (record g { avail_unit = 0 }))

unfoldable pub get_next_avail_unit : UnitQueue → Option (ℕ × ℕ) × UnitQueue
unfolding grown search hand_out
get_next_avail_unit u =
    let g = grown u in
    if leb g.size g.count
    then (none, g)
    else hand_out g (search (length g.entries) g.entries g.curr_queue g.avail_unit)
