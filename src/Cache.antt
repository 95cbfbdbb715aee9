-- ===== src/Cache.antt =====
-- udt-sys/udt/cache.h and cache.cpp: CCache of CInfoBlock, what is known of the ways to peers. A pointer
-- into the list of items is a number that no other item has or had; one whose item was deleted is in
-- no entry of `storage`.
pub mod Latest
mod Tests
use ninewire.Base.{
  ℕ, ◌+◌, ◌-◌, ◌*◌, ◌%◌, ◌^◌, Bool, true, false, ltb, leb, ◌==◌, not, ◌&&◌, ◌||◌, if◌then◌else◌,
  List, [], ◌∷◌, ◌++◌, get_or, set, replicate, Option, none, some, ℤ, pos, negsuc, signed32,
  pos_part, ltb_ℤ,
}

-- `m_piIP`, `m_iIPversion` (whether it is AF_INET), `m_iRTT` and `m_iBandwidth`; the other fields
-- are never set.
pub record InfoBlock : Type 0 where
  pub ip : ℕ × ℕ × ℕ × ℕ
  pub ipv4 : Bool
  pub rtt : ℤ
  pub bandwidth : ℤ

-- `operator==`
unfoldable pub same_peer : InfoBlock → InfoBlock → Bool
same_peer a b =
    let (a0, a1, a2, a3) = a.ip in
    let (b0, b1, b2, b3) = b.ip in
    if not (if a.ipv4 then b.ipv4 else not b.ipv4)
    then false
    else if a.ipv4
    then a0 == b0
    else a0 == b0 && a1 == b1 && a2 == b2 && a3 == b3

-- Three words of the address are copied; the fourth one, `own`, stays, in a new block as it happens
-- to be.
unfoldable pub copied_to : ℕ → InfoBlock → InfoBlock
copied_to own b = record b { ip = (b.ip.0, b.ip.1, b.ip.2, own) }

unfoldable pub get_key : InfoBlock → ℤ
get_key b = if b.ipv4 then signed32 b.ip.0 else signed32 (b.ip.0 + b.ip.1 + b.ip.2 + b.ip.3)

-- `handles` is the next number for an item.
pub record Cache : Type 0 where
  pub storage : List (ℕ × InfoBlock)
  pub hash_ptr : List (List ℕ)
  pub max_size : ℕ
  pub hash_size : ℕ
  pub curr_size : ℕ
  pub handles : ℕ

unfoldable pub new : ℕ → Cache
new size = record {
  storage = [];
  hash_ptr = replicate (size * 3) [];
  max_size = size;
  hash_size = size * 3;
  curr_size = 0;
  handles = 0;
}

unfoldable pub item : List (ℕ × InfoBlock) → ℕ → Option InfoBlock
item [] h = none
item ((k, b) ∷ items) h = let rest = item items h in if k == h then some b else rest

unfoldable pub drop_item : List (ℕ × InfoBlock) → ℕ → List (ℕ × InfoBlock)
drop_item [] h = []
drop_item ((k, b) ∷ items) h =
    let rest = drop_item items h in if k == h then items else (k, b) ∷ rest

unfoldable pub drop_handle : List ℕ → ℕ → List ℕ
drop_handle [] h = []
drop_handle (k ∷ hs) h = let rest = drop_handle hs h in if k == h then hs else k ∷ rest

-- The walk along a bucket: the first item of the same peer, or none, or an item that was deleted.
pub data Found : Type 0 where
  hit : ℕ → InfoBlock → Found
  miss : Found
  deleted : Found

unfoldable pub walk : List (ℕ × InfoBlock) → InfoBlock → List ℕ → Found
unfolding item same_peer
walk items b [] = miss
walk items b (h ∷ hs) =
    let rest = walk items b hs in
    elim (item items h) [ none ↦ deleted | some a ↦ if same_peer b a then hit h a else rest ]

-- The bucket of a key that is not negative.
unfoldable pub slot : Cache → ℤ → ℕ
slot c key = if leb c.max_size (pos_part key) then pos_part key % c.hash_size else pos_part key

-- The block that is looked up takes the values of the item.
unfoldable pub retrieved : InfoBlock → Found → Found
unfolding copied_to
retrieved b (hit h a) = hit h (copied_to b.ip.3 a)
retrieved b miss = miss
retrieved b deleted = deleted

-- What `lookup` comes to: -1, the block with the values of the cache, or a deleted item that is read.
unfoldable pub lookup : Cache → InfoBlock → Found
unfolding get_key slot walk retrieved
lookup c b =
    if ltb_ℤ (get_key b) (pos 0)
    then miss
    else retrieved b (walk c.storage b (get_or c.hash_ptr (slot c (get_key b)) []))

-- An item goes to the front of the list and of its bucket.
unfoldable pub push_front : Cache → ℕ → InfoBlock → Cache
push_front c k b = record c {
  storage = (c.handles, b) ∷ c.storage;
  hash_ptr = set c.hash_ptr k (c.handles ∷ get_or c.hash_ptr k []);
  handles = c.handles + 1;
}

-- The item `h` of the bucket `k` is taken out and put to the front with the new values.
unfoldable pub refresh : Cache → ℕ → ℕ → InfoBlock → InfoBlock → Cache
unfolding drop_item drop_handle push_front copied_to
refresh c k h old b =
    push_front
      (record c {
        storage = drop_item c.storage h;
        hash_ptr = set c.hash_ptr k (drop_handle (get_or c.hash_ptr k []) h);
      })
      k (copied_to old.ip.3 b)

unfoldable pub oldest : List (ℕ × InfoBlock) → Option (ℕ × InfoBlock)
oldest [] = none
oldest (x ∷ []) = some x
oldest (x ∷ y ∷ items) = oldest (y ∷ items)

-- The oldest item is deleted; a negative key, which is out of bounds, reads bucket 0. `item_list = m_vHashPtr[last_key]` writes its bucket over the bucket
-- `k` of the new item, from where it is taken out; its own bucket stays as it was.
unfoldable pub evict : Cache → ℕ → Option Cache
unfolding oldest get_key walk drop_item drop_handle
evict c k = elim (oldest c.storage) [
  | none ↦ none
  | some (h, b) ↦
      let last = get_or c.hash_ptr (pos_part (get_key b) % c.hash_size) [] in
      let left = λ (bucket : List ℕ). some (record c {
        storage = drop_item c.storage h;
        hash_ptr = set c.hash_ptr k bucket;
        curr_size = c.curr_size - 1;
      }) in
      elim (walk c.storage b last) as (λ f. Option Cache) [
        | hit g a ↦ left (drop_handle last g)
        | miss ↦ left last
        | deleted ↦ none
      ]
]

-- A new item. `own` is the word that `clone` does not set.
unfoldable pub add_item : Cache → ℕ → ℕ → InfoBlock → Option Cache
unfolding push_front evict copied_to
add_item c own k b =
    let c' = record (push_front c k (copied_to own b)) { curr_size = c.curr_size + 1 } in
    if leb c'.max_size c'.curr_size then evict c' k else some c'

-- For what the walk found; `none` is a deleted item that is read.
unfoldable pub after_walk : Cache → ℕ → ℕ → InfoBlock → Found → Option Cache
unfolding refresh add_item
after_walk c own k b (hit h a) = some (refresh c k h a b)
after_walk c own k b miss = add_item c own k b
after_walk c own k b deleted = none

-- A negative key changes nothing.
unfoldable pub update : Cache → ℕ → InfoBlock → Option Cache
unfolding get_key slot walk after_walk
update c own b =
    let k = slot c (get_key b) in
    if ltb_ℤ (get_key b) (pos 0)
    then some c
    else after_walk c own k b (walk c.storage b (get_or c.hash_ptr k []))
