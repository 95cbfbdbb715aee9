-- ===== src/SndUList/Up.antt =====
-- CSndUList::insert_ (udt-sys/udt/queue.cpp) keeps the heap in order.
use ninewire.Base.{
  ℕ, zero, suc, ◌+◌, ◌≤◌, ◌<◌, ◌≡◌, ◌≢◌, ◌||◌, refl, ap, ◌∙◌, arith, pos, ltb, false, ◌==◌,
  if◌then◌else◌, Bool-cases, inl, inr,
}
use ninewire.SndUList.{SndUList, key, parent, on_heap, raise, sift_up, append, settle, insert_node}
use ninewire.SndUList.Order.{IsValid, IsBridged}

-- Only the edge above `q` may be out of order, and only the node at `q`, `n`, has no location yet.
record Rising (s : SndUList) (n q : ℕ) : Type 0 where
  inside : q < s.count
  here : s.heap q ≡ n
  fresh : (i : ℕ) → s.loc n ≢ pos i
  edges : (c : ℕ) → 0 < c → c < s.count → c ≢ q → key s (parent c) ≤ key s c
  bridged : IsBridged s q
  located : (i : ℕ) → i < s.count → i ≢ q → s.loc (s.heap i) ≡ pos i
  listed : (u i : ℕ) → s.loc u ≡ pos i → (i < s.count) × (s.heap i ≡ u)

raise-Rising :
    (s : SndUList) (n q : ℕ)
    → Rising s n q
    → 0 < q
    → key s q < key s (parent q)
    → Rising (raise s q) n (parent q)
unfolding raise
raise-Rising s n q v hq below = record {
  inside = ground (arith, v.inside);
  here = ground (arith, v.here);
  fresh = λ i. ground (arith, v.fresh i, v.fresh (parent q), v.here, v.located (parent q));
  edges = λ c a b ne. ground (arith, v.edges c, v.bridged c);
  bridged = λ c a b e z. ground (arith, v.edges c, v.edges (parent q), v.bridged c);
  located = λ i a ne. ground (
    arith,
    v.located i a,
    v.located (parent q),
    v.located q,
    v.here,
    v.listed (s.heap (parent q)),
  );
  listed = λ u i e. ground (arith, v.listed u i, v.inside, v.here, v.fresh i, v.located (parent q));
}

-- `r` is what the loop makes of `s`: the edge above the node is in order too, and the times, the
-- number of entries and which nodes have a location are those of `s`.
record Risen (s : SndUList) (n : ℕ) (r : SndUList × ℕ) : Type 0 where
  rising : Rising r.0 n r.1
  top : 0 < r.1 → key r.0 (parent r.1) ≤ key r.0 r.1
  same_time : (u : ℕ) → r.0.time u ≡ s.time u
  same_count : r.0.count ≡ s.count
  same_members : (u : ℕ) → on_heap r.0 u ≡ on_heap s u

raise-on_heap :
    (s : SndUList) (n q : ℕ) → Rising s n q → 0 < q → (u : ℕ) → on_heap (raise s q) u ≡ on_heap s u
unfolding raise
raise-on_heap s n q v hq u = ground (arith, v.located (parent q), v.inside)

raise-frame : (s : SndUList) (q : ℕ) → ((raise s q).time ≡ s.time) × ((raise s q).count ≡ s.count)
unfolding raise
raise-frame s q = (refl, refl)

sift_up-Risen : (f : ℕ) (s : SndUList) (n q : ℕ) → q ≤ f → Rising s n q → Risen s n (sift_up f s q)
unfolding sift_up
sift_up-Risen zero s n q h v = record {
  rising = v;
  top = λ p. absurd (omega arith);
  same_time = λ u. refl;
  same_count = refl;
  same_members = λ u. refl;
}
sift_up-Risen (suc f) s n q h v = elim (Bool-cases (q == 0)) [
  | inl z ↦ rw z (record {
    rising = v;
    top = λ p. ground (arith, z);
    same_time = λ u. refl;
    same_count = refl;
    same_members = λ u. refl;
  })
  | inr z ↦ elim (Bool-cases (ltb (key s q) (key s (parent q)))) [
    | inl t ↦
        let r =
          sift_up-Risen f (raise s q) n (parent q) (ground arith)
            (raise-Rising s n q v (ground arith) (ground arith)) in
        rw (z, t)
          (record {
            rising = r.rising;
            top = r.top;
            same_time = λ u. r.same_time u ∙ ap (λ t. t u) (raise-frame s q).0;
            same_count = r.same_count ∙ (raise-frame s q).1;
            same_members = λ u. r.same_members u ∙ raise-on_heap s n q v (ground arith) u;
          })
    | inr t ↦
        rw (z, t)
          (record {
            rising = v;
            top = λ p. ground (arith, t);
            same_time = λ u. refl;
            same_count = refl;
            same_members = λ u. refl;
          })
  ]
]

append-Rising :
    (s : SndUList) (ts u : ℕ) → IsValid s → on_heap s u ≡ false → Rising (append s ts u) u s.count
unfolding append
append-Rising s ts u v off = record {
  inside = omega arith;
  here = ground arith;
  fresh = λ i. ground (arith, off);
  edges = λ c a b ne. ground (arith, v.ordered c, v.linked.0 c, v.linked.0 (parent c));
  bridged = λ c a b e z. absurd (omega arith);
  located = λ i a ne. ground (arith, v.linked.0 i);
  listed = λ w i e. ground (arith, v.linked.1 w i);
}

settle-IsValid :
    (s : SndUList) (n q : ℕ)
    → Rising s n q
    → (0 < q → key s (parent q) ≤ key s q)
    → IsValid (settle s n q)
unfolding settle
settle-IsValid s n q v top = record {
  ordered = λ c a b. ground (arith, v.edges c, top);
  linked = (
    λ i a. ground (arith, v.located i, v.here, v.fresh i),
    λ u i e. ground (arith, v.listed u i, v.here, v.inside),
  );
}

settle-frame :
    (s : SndUList) (ts u q : ℕ) (r : SndUList × ℕ)
    → Risen (append s ts u) u r
    → ((settle r.0 u q).count ≡ s.count + 1)
      × ((w : ℕ) → on_heap (settle r.0 u q) w ≡ (w == u || on_heap s w))
      × ((w : ℕ) → (settle r.0 u q).time w ≡ (if w == u then ts else s.time w))
unfolding settle append
settle-frame s ts u q r v =
    (v.same_count, λ w. ground (arith, v.same_members w), λ w. v.same_time w)

-- `insert_` of a socket that is not on the list keeps the heap in order and its locations right.
-- Then just the sockets from before and the new one are on the list, the new one with its time and
-- all others with theirs.
pub insert_node-IsValid :
    (s : SndUList) (ts u : ℕ)
    → IsValid s
    → on_heap s u ≡ false
    → let s' = insert_node s ts u in
      IsValid s'
      × (s'.count ≡ s.count + 1)
      × ((w : ℕ) → on_heap s' w ≡ (w == u || on_heap s w))
      × ((w : ℕ) → s'.time w ≡ (if w == u then ts else s.time w))
unfolding insert_node
insert_node-IsValid s ts u v off =
    let r =
      sift_up-Risen s.count (append s ts u) u s.count (omega arith) (append-Rising s ts u v off) in
    let frame =
      settle-frame s ts u (sift_up s.count (append s ts u) s.count).1
        (sift_up s.count (append s ts u) s.count) r in
    rw off (settle-IsValid _ u _ r.rising r.top, frame.0, frame.1, frame.2)
