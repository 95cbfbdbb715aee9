-- ===== src/Cache/Tests.antt =====
-- udt-sys/udt/cache.h and cache.cpp: a cache of three items.
use ninewire.Base.{ℕ, ◌≡◌, refl, arith, true, false, Option, none, some, pos}
use ninewire.Cache.{InfoBlock, Cache, Found, miss, deleted, new, update, lookup}
use ninewire.Cache.Latest.{latest, lookup-update}

abbrev host : ℕ → ℕ → InfoBlock
host a rtt = record { ip = (a, 0, 0, 0); ipv4 = true; rtt = pos rtt; bandwidth = pos 5 }

lookup-update_example : latest (update (new 3) 0 (host 7 100)) (host 7 0) ≡ some (pos 100, pos 5)
unfolding new update lookup
lookup-update_example =
    lookup-update (new 3) (host 7 0) (host 7 100) 0
      (record { here = refl; there = refl; address = refl }) refl (omega arith) (omega arith)
      (λ e. ground (arith, e))

abbrev then_update : Option Cache → InfoBlock → Option Cache
then_update none b = none
then_update (some c) b = update c 0 b

-- The third item takes the place of the first, whose bucket is written over its own: it is not found
-- itself, and a lookup of the first one reads the item that was deleted.
abbrev full : Option Cache
full = then_update (then_update (update (new 3) 0 (host 1 10)) (host 2 20)) (host 4 40)

abbrev found_in : Option Cache → InfoBlock → Found
found_in none b = deleted
found_in (some c) b = lookup c b

newest_is_lost : found_in full (host 4 0) ≡ miss
unfolding new update lookup
newest_is_lost = refl

deleted_is_read : found_in full (host 1 0) ≡ deleted
unfolding new update lookup
deleted_is_read = refl

-- The fourth word of an IPv6 address is not kept.
address_is_cut :
    found_in
      (update (new 3) 9 (record (host 1 10) { ip = (1, 2, 3, 4); ipv4 = false }))
      (record (host 1 0) { ip = (1, 2, 3, 4); ipv4 = false })
    ≡ miss
unfolding new update lookup
address_is_cut = refl
