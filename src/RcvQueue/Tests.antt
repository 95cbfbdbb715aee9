-- ===== src/RcvQueue/Tests.antt =====
-- udt-sys/udt/queue.cpp: two sockets that connect.
use ninewire.Base.{ℕ, ◌≡◌, refl, arith, none, List, [], ◌∷◌}
use ninewire.Packet
use ninewire.Packet.{Packet}
use ninewire.RcvQueue.{nothing, packet, undefined, recvfrom, store_pkt, remove_connector}
use ninewire.RcvQueue.Delivery.{Action, comes, asks, run, queues, run_refines}

abbrev sized : ℕ → Packet
sized n = record Packet.new { len = n }

abbrev traffic : List Action
traffic =
    comes 7 (sized 48)
    ∷ comes 8 (sized 20)
    ∷ comes 7 (sized 30)
    ∷ asks 7 64
    ∷ asks 9 48
    ∷ asks 7 50
    ∷ asks 7 48
    ∷ []

run_refines_example :
    run [] traffic ≡ packet (sized 48) ∷ nothing ∷ packet (sized 30) ∷ nothing ∷ []
unfolding queues
run_refines_example = run_refines 48 traffic (
  omega arith,
  (omega arith, (omega arith, (omega arith, (omega arith, (omega arith, (omega arith, tt)))))),
)

-- A packet that is too long for the caller is gone, and its place is read all the same.
null_packet : (recvfrom (recvfrom (store_pkt [] 7 (sized 48)) 7 20).1 7 64).0 ≡ undefined
unfolding store_pkt recvfrom
null_packet = refl

null_packet_when_removed :
    remove_connector
      (record {
        listener = none;
        rendezvous_queue = [];
        new_entry = [];
        mail = (recvfrom (store_pkt [] 7 (sized 48)) 7 20).1;
      })
      7
    ≡ none
unfolding store_pkt recvfrom remove_connector
null_packet_when_removed = refl
