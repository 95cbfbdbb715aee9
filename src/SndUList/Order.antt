-- ===== src/SndUList/Order.antt =====
-- What it means for the heap of CSndUList (udt-sys/udt/queue.cpp) to be in order.
use ninewire.Base.{ℕ, zero, suc, ◌≤◌, ◌<◌, ◌≡◌, arith, pos}
use ninewire.SndUList.{SndUList, key, parent}

-- Each edge of the tree is in order.
abbrev pub IsHeap : SndUList → Type 0
IsHeap s = (c : ℕ) → 0 < c → c < s.count → key s (parent c) ≤ key s c

-- The locations of the nodes and the entries of the array agree, so no socket is there twice.
abbrev pub IsLinked : SndUList → Type 0
IsLinked s =
    ((i : ℕ) → i < s.count → s.loc (s.heap i) ≡ pos i)
    × ((u i : ℕ) → s.loc u ≡ pos i → (i < s.count) × (s.heap i ≡ u))

pub record IsValid (s : SndUList) : Type 0 where
  pub ordered : IsHeap s
  pub linked : IsLinked s

-- The edges past `i`, from its parent to its children, are in order.
abbrev pub IsBridged : SndUList → ℕ → Type 0
IsBridged s i = (c : ℕ) → 0 < c → c < s.count → parent c ≡ i → 0 < i → key s (parent i) ≤ key s c

root_least_below :
    (k : ℕ) (s : SndUList) (i : ℕ) → IsHeap s → i < k → i < s.count → key s 0 ≤ key s i
root_least_below zero s i h f p = absurd (omega arith)
root_least_below (suc k) s i h f p = ground (arith, h i, root_least_below k s (parent i) h)

pub root_least : (s : SndUList) (u i : ℕ) → IsValid s → s.loc u ≡ pos i → key s 0 ≤ s.time u
root_least s u i v e =
    let (inside, here) = v.linked.1 u i e in
    ground (arith, root_least_below (suc i) s i v.ordered (omega arith) inside, here)
