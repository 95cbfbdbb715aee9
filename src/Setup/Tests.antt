-- ===== src/Setup/Tests.antt =====
-- udt-sys/udt/core.cpp: a client and a server with a congestion control that keeps a window of 16.
use ninewire.Base.{ℕ, ◌+◌, ◌^◌, ◌≡◌, refl, arith, true, false, none, some, pos, List, [], ◌∷◌}
use ninewire.Connection.{Congestion}
use ninewire.Options
use ninewire.Packet.HandShake.{HandShake, words, deserialize}
use ninewire.Setup.{max_flight, Socket, new, open_socket}
use ninewire.Setup.Connect.{
  Factory, is_handshake, read_response, connect, send_request, connect_response,
}
use ninewire.Setup.Roles.{HasOneRole}
use ninewire.Setup.Cycle.{Action, listens, connects, responds, closes, run, run-HasOneRole}
use ninewire.Setup.Negotiate.{End, opened, meet, packet_of}
use ninewire.Setup.Feeds.{BothFeed, meet-BothFeed}
use ninewire.Setup.Responses.{in_short, connect_response_decides}

abbrev fixed : Congestion
fixed = record {
  C = Unit;
  set_rtt = λ c x. c;
  set_rcv_rate = λ c x. c;
  set_bandwidth = λ c x. c;
  set_snd_curr_seq_no = λ c x. c;
  on_ack = λ c x y. c;
  on_loss = λ c x y. c;
  on_timeout = λ c x. c;
  on_pkt_sent = λ c. c;
  on_pkt_received = λ c x y. c;
  process_custom_msg = λ c x. c;
  pkt_interval = λ c f. f;
  window = λ c. pos 16;
  ack_interval = λ c. pos 0;
  ack_period = λ c. pos 0;
  rto = λ c. none;
}

abbrev pub factory : Factory
factory = record {
  k = fixed;
  W = Unit;
  create = λ mss window seq rate rtt bandwidth. tt;
  paced = λ bw mss. none;
  times = tt;
  units = [];
  unit_count = pos 0;
}

abbrev pub small : ℕ → Options.Options
small mss = record (Options.default 0) { mss = mss; flight_flag_size = 4; rcv_buf_size = 4 }

abbrev end_of : ℕ → ℕ → End
end_of mss id = record {
  options = small mss;
  id = id;
  sock_type = 2;
  ip = 1 ∷ 2 ∷ 3 ∷ 4 ∷ [];
  frequency = 1;
  clock = 50;
  now = 60;
  scratch = [];
  cached = none;
}

meet-BothFeed_example :
    BothFeed (meet factory factory (pos 1000) 77 (end_of 1400 5) (end_of 1300 6))
unfolding max_flight
meet-BothFeed_example =
    meet-BothFeed factory factory (end_of 1400 5) (end_of 1300 6) 1000 77 (omega arith) refl
      (omega arith) (omega arith) (omega arith) (omega arith) (omega arith) (omega arith)
      (omega arith)

-- A packet size of 100 bytes is allowed, but such packets do not hold a handshake.
too_small_to_meet : meet factory factory (pos 1000) 77 (end_of 100 5) (end_of 1300 6) ≡ none
unfolding meet connect open_socket new
too_small_to_meet = refl

abbrev asking : Socket Unit Unit
asking = send_request factory [] (pos 1000) 60 [] (opened (end_of 1400 5))

-- The answer of a server that refuses: the request with the type 1002.
abbrev answer_with : ℕ → HandShake
answer_with mss = record {
  version = 4;
  type = 2;
  isn = 1000;
  mss = mss;
  flight_flag_size = 4;
  req_type = 1002;
  id = 5;
  cookie = 77;
  peer_ip = 0 ∷ 0 ∷ 0 ∷ 0 ∷ [];
}

connect_response_decides_example :
    in_short (connect_response factory (packet_of (answer_with 1400)) none asking)
    ≡ some (pos 0, true, 0)
unfolding send_request is_handshake read_response words deserialize open_socket new
connect_response_decides_example =
    connect_response_decides factory (packet_of (answer_with 1400)) none asking refl

small_packets_end_the_program :
    in_short (connect_response factory (packet_of (answer_with 63)) none asking) ≡ none
unfolding connect_response send_request open_socket new words deserialize
small_packets_end_the_program = refl

-- So does an MSS for which the bytes of 32 packets do not fit an int.
large_packets_end_the_program :
    in_short (connect_response factory (packet_of (answer_with (2 ^ 26 + 64))) none asking) ≡ none
unfolding connect_response send_request open_socket new words deserialize
large_packets_end_the_program = refl

abbrev life : List Action
life =
    connects [] (pos 1000) 60 []
    ∷ listens false
    ∷ responds (packet_of (answer_with 1400)) none
    ∷ closes
    ∷ []

abbrev end_of_life : Socket Unit Unit
end_of_life = elim (run factory life (opened (end_of 1400 5))) [ none ↦ asking | some t ↦ t ]

run-HasOneRole_example : HasOneRole factory end_of_life
unfolding run open_socket new words deserialize
run-HasOneRole_example =
    run-HasOneRole factory life (opened (end_of 1400 5)) end_of_life
      (record {
        free = λ h. refl;
        alone = λ h. refl;
        unconnected = λ h. refl;
        buffers = λ h. ground (arith, h);
      })
      refl
