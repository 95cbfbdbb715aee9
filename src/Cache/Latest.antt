-- ===== src/Cache/Latest.antt =====
-- udt-sys/udt/cache.h: the cache gives back what was put into it last.
use ninewire.Base.{
  subst, length-set, ℕ, ◌+◌, ◌<◌, ◌≡◌, refl, sym, ap, arith, true, false, leb, ==_self, if_false,
  List, [], ◌∷◌, get_or, set, length, Option, none, some, ℤ, pos, ltb_ℤ, get_or-set_self, ◌∙◌,
}
use ninewire.Cache.{
  drop_item, drop_handle, InfoBlock, Cache, Found, hit, miss, deleted, same_peer, copied_to,
  get_key, slot, item, walk, retrieved, lookup, push_front, refresh, add_item, after_walk, update,
}

-- The round-trip time and the bandwidth that a lookup gives.
abbrev pub known : Found → Option (ℤ × ℤ)
known (hit h a) = some (a.rtt, a.bandwidth)
known miss = none
known deleted = none

-- A block of the same IPv4 address.
pub record IsSameHost (q b : InfoBlock) : Type 0 where
  pub here : q.ipv4 ≡ true
  pub there : b.ipv4 ≡ true
  pub address : q.ip.0 ≡ b.ip.0

same_key : (q b : InfoBlock) → IsSameHost q b → get_key q ≡ get_key b
unfolding get_key
same_key q b v = rw v.here (rw v.there (rw v.address refl))

same_peer-IsSameHost :
    (q b : InfoBlock) (own : ℕ) → IsSameHost q b → same_peer q (copied_to own b) ≡ true
unfolding same_peer copied_to
same_peer-IsSameHost q b own v = rw v.here (rw v.there (rw v.address (==_self b.ip.0)))

-- The walk meets the newest item first.
walk-front :
    (items : List (ℕ × InfoBlock)) (q a : InfoBlock) (h : ℕ) (hs : List ℕ)
    → same_peer q a ≡ true
    → walk ((h, a) ∷ items) q (h ∷ hs) ≡ hit h a
unfolding walk item
walk-front items q a h hs e =
    let newest : item ((h, a) ∷ items) h ≡ some a = rw (==_self h, item) refl in
    rw (newest, walk) (rw e refl)

-- What was put to the front of its bucket is found.
lookup-push_front :
    (c : Cache) (q b : InfoBlock) (own : ℕ)
    → IsSameHost q b
    → ltb_ℤ (get_key b) (pos 0) ≡ false
    → slot c (get_key b) < length c.hash_ptr
    → known (lookup (push_front c (slot c (get_key b)) (copied_to own b)) q)
      ≡ some (b.rtt, b.bandwidth)
unfolding lookup push_front retrieved slot copied_to
lookup-push_front c q b own v n l =
    let k = slot c (get_key b) in
    let bucket = c.handles ∷ get_or c.hash_ptr k [] in
    let key = same_key q b v in
    let positive = subst (λ z. ltb_ℤ z (pos 0) ≡ false) (sym key) n in
    let found =
      ap (λ z. get_or (set c.hash_ptr k bucket) (slot c z) []) key
      ∙ get_or-set_self c.hash_ptr k bucket [] l in
    let items = (c.handles, copied_to own b) ∷ c.storage in
    ap known (if_false (ltb_ℤ (get_key q) (pos 0)) miss _ positive)
    ∙ ap (λ hs. known (retrieved q (walk items q hs))) found
    ∙ ap (λ r. known (retrieved q r))
        (walk-front c.storage q (copied_to own b) c.handles (get_or c.hash_ptr k [])
          (same_peer-IsSameHost q b own v))

-- The same from the value that `update` leaves.
abbrev pub latest : Option Cache → InfoBlock → Option (ℤ × ℤ)
latest none q = none
latest (some c) q = known (lookup c q)

after_walk-latest :
    (c : Cache) (q b : InfoBlock) (own : ℕ) (r : Found)
    → IsSameHost q b
    → ltb_ℤ (get_key b) (pos 0) ≡ false
    → slot c (get_key b) < length c.hash_ptr
    → c.curr_size + 1 < c.max_size
    → (r ≡ deleted → ⊥)
    → latest (after_walk c own (slot c (get_key b)) b r) q ≡ some (b.rtt, b.bandwidth)
unfolding after_walk refresh add_item slot lookup
after_walk-latest c q b own (hit h a) v n l z d =
    lookup-push_front
      (record c {
        storage = drop_item c.storage h;
        hash_ptr =
            set c.hash_ptr (slot c (get_key b))
              (drop_handle (get_or c.hash_ptr (slot c (get_key b)) []) h);
      })
      q b a.ip.3 v n
      (omega (
        arith,
        l,
        length-set c.hash_ptr (slot c (get_key b))
            (drop_handle (get_or c.hash_ptr (slot c (get_key b)) []) h),
      ))
after_walk-latest c q b own miss v n l z d =
    ap (λ o. latest o q)
      (if_false (leb c.max_size (c.curr_size + 1)) _
        (some (record (push_front c (slot c (get_key b)) (copied_to own b)) {
          curr_size = c.curr_size + 1;
        }))
        (ground (arith, z)))
    ∙ lookup-push_front c q b own v n l
after_walk-latest c q b own deleted v n l z d = elim (d refl) [ ]

-- Let a block have an IPv4 address, read as a number that is not negative, and let its bucket be one of
-- the table's. If there is room for one more item, and the walk along the bucket meets no item that
-- was deleted, then `update` puts the block into the cache, and a `lookup` of the same address
-- gives its round-trip time and its bandwidth, whether or not the cache knew the peer before.
pub lookup-update :
    (c : Cache) (q b : InfoBlock) (own : ℕ)
    → IsSameHost q b
    → ltb_ℤ (get_key b) (pos 0) ≡ false
    → slot c (get_key b) < length c.hash_ptr
    → c.curr_size + 1 < c.max_size
    → (walk c.storage b (get_or c.hash_ptr (slot c (get_key b)) []) ≡ deleted → ⊥)
    → latest (update c own b) q ≡ some (b.rtt, b.bandwidth)
unfolding update
lookup-update c q b own v n l z d =
    ap (λ o. latest o q) (if_false (ltb_ℤ (get_key b) (pos 0)) (some c) _ n)
    ∙ after_walk-latest c q b own _ v n l z d
