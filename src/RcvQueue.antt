-- ===== src/RcvQueue.antt =====
-- udt-sys/udt/queue.cpp: CRcvQueue, where the packets for connecting sockets wait, the listener and
-- the new entries are kept and incoming packets are sent on, and CRendezvousQueue, the sockets that
-- connect. A map is the list of its entries, with one entry for a key; a packet that std::move took
-- out of a queue is `none`.
pub mod Mailbox
pub mod Waiting
pub mod Delivery
mod Tests
use ninewire.Base.{
  ℕ, ◌+◌, ◌-◌, ◌<◌, Bool, true, false, ltb, leb, ◌==◌, not, ◌&&◌, ◌||◌, if◌then◌else◌, List, [],
  ◌∷◌, ◌++◌, length, Option, none, some,
}
use ninewire.Packet.{Packet}

abbrev pub Mail : Type 0
Mail = List (ℕ × List (Option Packet))

module _ {A : Type 0} where
  -- `find_entry`, the entry's value put in place, and `erase_entry`
  unfoldable pub find_entry : List (ℕ × A) → ℕ → Option A
  find_entry [] id = none
  find_entry ((k, a) ∷ m) id = let rest = find_entry m id in if k == id then some a else rest

  unfoldable pub set_entry : List (ℕ × A) → ℕ → A → List (ℕ × A)
  set_entry [] id a = []
  set_entry ((k, b) ∷ m) id a =
      let rest = set_entry m id a in if k == id then (k, a) ∷ m else (k, b) ∷ rest

  unfoldable pub erase_entry : List (ℕ × A) → ℕ → List (ℕ × A)
  erase_entry [] id = []
  erase_entry ((k, b) ∷ m) id = let rest = erase_entry m id in if k == id then m else (k, b) ∷ rest

-- For the queue that was found.
unfoldable pub push_pkt : Mail → ℕ → Packet → Option (List (Option Packet)) → Mail
unfolding set_entry
push_pkt m id p none = (id, some p ∷ []) ∷ m
push_pkt m id p (some q) = if ltb 16 (length q) then m else set_entry m id (q ++ some p ∷ [])

unfoldable pub store_pkt : Mail → ℕ → Packet → Mail
unfolding find_entry push_pkt
store_pkt m id p = push_pkt m id p (find_entry m id)

-- What `recvfrom` comes to: -1 with nothing there, -1 with a packet that is too long for the caller
-- and that was moved out of the queue, a packet, or a read through a null pointer.
pub data Received : Type 0 where
  nothing : Received
  too_long : Received
  packet : Packet → Received
  undefined : Received

-- A queue with nothing left is released.
unfoldable pub leave : Mail → ℕ → List (Option Packet) → Mail
unfolding set_entry erase_entry
leave m id [] = erase_entry m id
leave m id (x ∷ q) = set_entry m id (x ∷ q)

-- The queue that was found, when the wait is over; `room` is the length of the caller's packet.
unfoldable pub take_front : Mail → ℕ → ℕ → Option (List (Option Packet)) → Received × Mail
unfolding set_entry leave
take_front m id room none = (nothing, m)
take_front m id room (some []) = (undefined, m)
take_front m id room (some (none ∷ q)) = (undefined, m)
take_front m id room (some (some p ∷ q)) =
    if ltb room p.len then (too_long, set_entry m id (none ∷ q)) else (packet p, leave m id q)

unfoldable pub recvfrom : Mail → ℕ → ℕ → Received × Mail
unfolding find_entry take_front
recvfrom m id room = take_front m id room (find_entry m id)

-- CRL, a socket that connects; an address is a number.
pub record Connector : Type 0 where
  pub id : ℕ
  pub peer_addr : ℕ
  pub ttl : ℕ

unfoldable pub insert : List Connector → Connector → List Connector
insert q r = q ++ r ∷ []

unfoldable pub remove : List Connector → ℕ → List Connector
remove [] id = []
remove (r ∷ q) id = let rest = remove q id in if r.id == id then q else r ∷ rest

unfoldable pub retrieve : List Connector → ℕ → ℕ → Option ℕ
retrieve [] addr id = none
retrieve (r ∷ q) addr id =
    let rest = retrieve q addr id in
    if r.peer_addr == addr && (id == 0 || id == r.id) then some r.id else rest

-- `listener` and `new_entry` hold the identifiers of sockets.
pub record RcvQueue : Type 0 where
  pub listener : Option ℕ
  pub rendezvous_queue : List Connector
  pub new_entry : List ℕ
  pub mail : Mail

-- `setListener`: whether it gives -1
unfoldable pub set_listener : RcvQueue → ℕ → Bool × RcvQueue
set_listener s u = elim s.listener [
  | none ↦ (false, record s { listener = some u })
  | some v ↦ (true, s)
]

unfoldable pub remove_listener : RcvQueue → ℕ → RcvQueue
remove_listener s u = elim s.listener [
  | none ↦ s
  | some v ↦ if v == u then record s { listener = none } else s
]

unfoldable pub register_connector : RcvQueue → Connector → RcvQueue
unfolding insert
register_connector s r = record s { rendezvous_queue = insert s.rendezvous_queue r }

-- The loop that frees the packets reads through each pointer.
unfoldable pub all_there : List (Option Packet) → Bool
all_there [] = true
all_there (none ∷ q) = false
all_there (some p ∷ q) = all_there q

-- `none` is a read through a null pointer.
unfoldable pub remove_connector : RcvQueue → ℕ → Option RcvQueue
unfolding remove find_entry erase_entry all_there
remove_connector s id =
    let left = record s { rendezvous_queue = remove s.rendezvous_queue id } in
    elim (find_entry s.mail id) [
      | none ↦ some left
      | some q ↦ if all_there q then some (record left { mail = erase_entry s.mail id }) else none
    ]

unfoldable pub set_new_entry : RcvQueue → ℕ → RcvQueue
set_new_entry s u = record s { new_entry = s.new_entry ++ u ∷ [] }

unfoldable pub get_new_entry : RcvQueue → Option ℕ × RcvQueue
get_new_entry s = elim s.new_entry [
  | [] ↦ (none, s)
  | u ∷ us ↦ (some u, record s { new_entry = us })
]
