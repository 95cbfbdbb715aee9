-- ===== src/SndUList/Down.antt =====
-- CSndUList::remove_ (udt-sys/udt/queue.cpp) and the order of the heap.
use ninewire.Base.{
  ℕ, zero, suc, ◌+◌, ◌-◌, ◌*◌, ◌≤◌, ◌<◌, ◌≡◌, ◌≢◌, ◌⊎◌, ◌&&◌, not, refl, ap, ◌∙◌, arith, pos,
  minus_one, ltb, put, true, false, ◌==◌, Bool-cases, inl, inr,
}
use ninewire.SndUList.{
  SndUList, key, parent, on_heap, lesser_child, exchange, sift_down, fill_hole, take_out, wake,
  remove_node,
}
use ninewire.SndUList.Order.{IsHeap, IsValid, IsBridged}

-- Only the edges below `q` may be out of order; the node `n` has left the array.
record Sinking (s : SndUList) (n q : ℕ) : Type 0 where
  edges : (c : ℕ) → 0 < c → c < s.count → parent c ≢ q → key s (parent c) ≤ key s c
  bridged : IsBridged s q
  gone : (i : ℕ) → i < s.count → s.heap i ≢ n
  located : (i : ℕ) → i < s.count → s.loc (s.heap i) ≡ pos i
  listed : (u i : ℕ) → u ≢ n → s.loc u ≡ pos i → (i < s.count) × (s.heap i ≡ u)

children : (q c : ℕ) → 0 < c → parent c ≡ q → (c ≡ q * 2 + 1) ⊎ (c ≡ q * 2 + 1 + 1)
children q c a e = ground arith

not_less : (a b : ℕ) → ltb a b ≡ false → b ≤ a
not_less a b h = ground arith

lesser_child-least :
    (s : SndUList) (q : ℕ)
    → q * 2 + 1 < s.count
    → let p = lesser_child s q in
      (p < s.count)
      × (parent p ≡ q)
      × (q < p)
      × ((c : ℕ) → 0 < c → c < s.count → parent c ≡ q → key s p ≤ key s c)
lesser_child-least s q h = (
  ground arith,
  ground arith,
  ground arith,
  λ c a b e. elim (children q c a e) [
    | inl f ↦ rw f (ground arith)
    | inr f ↦ ground (arith, f, ap (key s) f)
  ],
)

exchange-Sinking :
    (s : SndUList) (n q p : ℕ)
    → Sinking s n q
    → p < s.count
    → parent p ≡ q
    → q < p
    → ((c : ℕ) → 0 < c → c < s.count → parent c ≡ q → key s p ≤ key s c)
    → key s p < key s q
    → Sinking (exchange s q p) n p
unfolding exchange
exchange-Sinking s n q p v inside child above least below = record {
  edges = λ c a b ne. ground (arith, v.edges c, v.bridged p, least c);
  bridged = λ c a b e z. ground (arith, v.edges c);
  gone = λ i a. ground (arith, v.gone i, v.gone p, v.gone q);
  located = λ i a. ground (arith, v.located i, v.located p, v.located q);
  listed = λ u i ne e. ground (arith, v.listed u i, v.located p, v.located q);
}

exchange-frame :
    (s : SndUList) (q p : ℕ) → ((exchange s q p).time ≡ s.time) × ((exchange s q p).count ≡ s.count)
unfolding exchange
exchange-frame s q p = (refl, refl)

exchange-on_heap :
    (s : SndUList) (n q p : ℕ)
    → Sinking s n q
    → p < s.count
    → q < p
    → (u : ℕ) → on_heap (exchange s q p) u ≡ on_heap s u
unfolding exchange
exchange-on_heap s n q p v inside above u = ground (arith, v.located p, v.located q)

-- `r` is what the loop makes of `s`.
record Sunk (s : SndUList) (n : ℕ) (r : SndUList) : Type 0 where
  ordered : IsHeap r
  gone : (i : ℕ) → i < r.count → r.heap i ≢ n
  located : (i : ℕ) → i < r.count → r.loc (r.heap i) ≡ pos i
  listed : (u i : ℕ) → u ≢ n → r.loc u ≡ pos i → (i < r.count) × (r.heap i ≡ u)
  same_time : (u : ℕ) → r.time u ≡ s.time u
  same_count : r.count ≡ s.count
  same_members : (u : ℕ) → on_heap r u ≡ on_heap s u

stop-Sunk :
    (s : SndUList) (n q : ℕ)
    → Sinking s n q
    → ((c : ℕ) → 0 < c → c < s.count → parent c ≡ q → key s q ≤ key s c)
    → Sunk s n s
stop-Sunk s n q v bottom = record {
  ordered = λ c a b. ground (arith, v.edges c, bottom c);
  gone = v.gone;
  located = v.located;
  listed = v.listed;
  same_time = λ u. refl;
  same_count = refl;
  same_members = λ u. refl;
}

sift_down-Sunk :
    (f : ℕ) (s : SndUList) (n q : ℕ) → s.count ≤ q + f → Sinking s n q → Sunk s n (sift_down f s q)
unfolding sift_down
sift_down-Sunk zero s n q h v = stop-Sunk s n q v (λ c a b e. absurd (omega (arith, h, e, b)))
sift_down-Sunk (suc f) s n q h v = elim (Bool-cases (ltb (q * 2 + 1) s.count)) [
  | inr z ↦ rw z (stop-Sunk s n q v (λ c a b e. ground (arith, z)))
  | inl z ↦
      let p = lesser_child s q in
      let l = lesser_child-least s q (ground (arith, z)) in
      elim (Bool-cases (ltb (key s p) (key s q))) [
        | inr t ↦
            rw (z, t)
              (stop-Sunk s n q v
                (λ c a b e. omega (arith, l.3 c a b e, not_less (key s p) (key s q) t)))
        | inl t ↦
            let frame = exchange-frame s q p in
            let r =
              sift_down-Sunk f (exchange s q p) n p (rw frame.1 (omega (arith, h, l.2)))
                (exchange-Sinking s n q p v l.0 l.1 l.2 l.3 (ground (arith, t))) in
            rw (z, t)
              (record {
                ordered = r.ordered;
                gone = r.gone;
                located = r.located;
                listed = r.listed;
                same_time = λ u. r.same_time u ∙ ap (λ t. t u) frame.0;
                same_count = r.same_count ∙ frame.1;
                same_members = λ u. r.same_members u ∙ exchange-on_heap s n q p v l.0 l.2 u;
              })
      ]
]

-- The hole at `k`, filled by the last entry.
fill_hole-Sinking :
    (s : SndUList) (n k : ℕ)
    → IsValid s
    → s.loc n ≡ pos k
    → (k ≡ 0) ⊎ (key s (parent k) ≤ key s (s.count - 1))
    → Sinking (fill_hole s k) n k
unfolding fill_hole
fill_hole-Sinking s n k v at above =
    let (inside, here) = v.linked.1 n k at in
    record {
      edges = λ c a b ne. ground (arith, v.ordered c, inside);
      bridged = λ c a b e z. ground (arith, v.ordered c, v.ordered k, inside);
      gone = λ i a. ground (arith, v.linked.0 i, v.linked.0 (s.count - 1), at, inside);
      located = λ i a. ground (arith, v.linked.0 i, v.linked.0 (s.count - 1), inside);
      listed = λ u i ne e. ground (arith, v.linked.1 u i, here, inside);
    }

fill_hole-frame :
    (s : SndUList) (n k : ℕ)
    → IsValid s
    → s.loc n ≡ pos k
    → ((fill_hole s k).count + 1 ≡ s.count) × ((u : ℕ) → on_heap (fill_hole s k) u ≡ on_heap s u)
unfolding fill_hole
fill_hole-frame s n k v at =
    let (inside, here) = v.linked.1 n k at in
    (omega (arith, inside), λ u. ground (arith, v.linked.0 (s.count - 1), inside))

fill_hole-time : (s : SndUList) (k : ℕ) → (fill_hole s k).time ≡ s.time
unfolding fill_hole
fill_hole-time s k = refl

-- `r` is in order, and has the sockets of `s` but for `n`, with their times.
pub record Removed (s : SndUList) (n : ℕ) (r : SndUList) : Type 0 where
  pub valid : IsValid r
  pub one_less : r.count + 1 ≡ s.count
  pub members : (u : ℕ) → on_heap r u ≡ (not (u == n) && on_heap s u)
  pub times : (u : ℕ) → r.time u ≡ s.time u

-- `r` with the node `n` unmarked.
unmark-IsValid :
    (s r : SndUList) (n : ℕ) → Sunk s n r → IsValid (record r { loc = put r.loc n minus_one })
unmark-IsValid s r n v = record {
  ordered = v.ordered;
  linked = (λ i a. ground (arith, v.located i, v.gone i), λ u i e. ground (arith, v.listed u i));
}

take_out-Removed :
    (s : SndUList) (n k : ℕ)
    → IsValid s
    → s.loc n ≡ pos k
    → (k ≡ 0) ⊎ (key s (parent k) ≤ key s (s.count - 1))
    → Removed s n (take_out s n)
unfolding take_out
take_out-Removed s n k v at above =
    let hole = fill_hole s k in
    let fuel : hole.count ≤ k + s.count = omega (arith, (fill_hole-frame s n k v at).0) in
    let sunk = sift_down-Sunk s.count hole n k fuel (fill_hole-Sinking s n k v at above) in
    let frame = fill_hole-frame s n k v at in
    rw at (record {
      valid = unmark-IsValid hole (sift_down s.count hole k) n sunk;
      one_less = omega (arith, sunk.same_count, frame.0);
      members = λ u. ground (arith, sunk.same_members u, frame.1 u);
      times = λ u. sunk.same_time u ∙ ap (λ t. t u) (fill_hole-time s k);
    })

wake-Removed : (s r : SndUList) (n : ℕ) → Removed s n r → Removed s n (wake r)
unfolding wake
wake-Removed s r n v = elim (Bool-cases (r.count == 1)) [
  | inl t ↦ rw t (record {
    valid = record { ordered = v.valid.ordered; linked = v.valid.linked };
    one_less = v.one_less;
    members = v.members;
    times = v.times;
  })
  | inr t ↦ rw t v
]

-- Let a socket be at the head of the heap, or its parent's time be not later than that of the last
-- entry, which takes its place. Then `remove_` keeps the heap in order and its locations right,
-- takes just this socket from the list, and leaves all times.
pub remove_node-Removed :
    (s : SndUList) (n k : ℕ)
    → IsValid s
    → s.loc n ≡ pos k
    → (k ≡ 0) ⊎ (key s (parent k) ≤ key s (s.count - 1))
    → Removed s n (remove_node s n)
unfolding remove_node
remove_node-Removed s n k v at above =
    let on : on_heap s n ≡ true = rw at (ground arith) in
    rw on (wake-Removed s (take_out s n) n (take_out-Removed s n k v at above))
