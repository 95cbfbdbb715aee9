-- ===== src/RcvQueue/Delivery.antt =====
-- udt-sys/udt/queue.cpp: whatever packets come and whichever sockets ask for them.
use ninewire.Base.{ap₂, ℕ, ◌≤◌, ◌≡◌, refl, sym, subst, List, [], ◌∷◌}
use ninewire.Packet.{Packet}
use ninewire.RcvQueue.{Mail, Received, find_entry, push_pkt, store_pkt, take_front, recvfrom}
use ninewire.RcvQueue.Mailbox.{IsDistinct}
use ninewire.RcvQueue.Waiting.{
  Waiting, at, enqueue, rest_of, front_of, nil, Holds, push_pkt-Holds, take_front-Holds,
}

-- A packet that comes for a socket, and a socket that asks for one with this much room.
pub data Action : Type 0 where
  comes : ℕ → Packet → Action
  asks : ℕ → ℕ → Action

unfoldable pub run : Mail → List Action → List Received
unfolding store_pkt recvfrom
run m [] = []
run m (comes id p ∷ actions) = run (store_pkt m id p) actions
run m (asks id room ∷ actions) = (recvfrom m id room).0 ∷ run (recvfrom m id room).1 actions

unfoldable pub queues : Waiting → List Action → List Received
queues w [] = []
queues w (comes id p ∷ actions) = queues (at w id (enqueue (w id) p)) actions
queues w (asks id room ∷ actions) = front_of (w id) ∷ queues (at w id (rest_of (w id))) actions

-- No packet is longer than the room that any socket has.
abbrev pub AllFit : ℕ → List Action → Type 0
AllFit limit [] = Unit
AllFit limit (comes id p ∷ actions) = (p.len ≤ limit) × AllFit limit actions
AllFit limit (asks id room ∷ actions) = (limit ≤ room) × AllFit limit actions

run-queues :
    (limit : ℕ) (m : Mail) (w : Waiting) (actions : List Action)
    → Holds limit m w
    → AllFit limit actions
    → run m actions ≡ queues w actions
unfolding run queues
run-queues limit m w [] v f = refl
run-queues limit m w (comes id p ∷ actions) v (h, f) =
    let held = push_pkt-Holds limit m w id p (w id) h v refl in
    run-queues limit (store_pkt m id p) (at w id (enqueue (w id) p)) actions
      (subst (λ o. Holds limit (push_pkt m id p o) (at w id (enqueue (w id) p))) (sym (v.same id))
        held)
      f
run-queues limit m w (asks id room ∷ actions) v (h, f) =
    let taken : ((recvfrom m id room).0 ≡ front_of (w id))
        × Holds limit (recvfrom m id room).1 (at w id (rest_of (w id))) =
      subst
        (λ o.
          ((take_front m id room o).0 ≡ front_of (w id))
          × Holds limit (take_front m id room o).1 (at w id (rest_of (w id))))
        (sym (v.same id)) (take_front-Holds limit room m w id (w id) h v refl) in
    ap₂ (λ r rs. r ∷ rs) taken.0
      (run-queues limit (recvfrom m id room).1 (at w id (rest_of (w id))) actions taken.1 f)

empty-Holds : (limit : ℕ) → Holds limit [] (λ id. [])
unfolding IsDistinct find_entry
empty-Holds limit = record { distinct = tt; same = λ j. refl; fits = λ j. nil }

-- Let no packet be longer than the room of any socket that asks. Whatever packets come and whichever
-- sockets ask, in any order, `recvfrom` gives each socket just its own packets, in the order in
-- which they came, and says that there is none only when none waits. A packet that comes while 17
-- wait for its socket is lost, and no other.
pub run_refines :
    (limit : ℕ) (actions : List Action)
    → AllFit limit actions
    → run [] actions ≡ queues (λ id. []) actions
run_refines limit actions f = run-queues limit [] (λ id. []) actions (empty-Holds limit) f
