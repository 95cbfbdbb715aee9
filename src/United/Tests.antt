-- ===== src/United/Tests.antt =====
-- udt-sys/udt/api.cpp: a server with a receiver's buffer that is smaller than its window.
use ninewire.Base.{◌≡◌, refl, true, false, Option, none, some, ℤ, pos, [], ◌∷◌}
use ninewire.Base.Results.{ok, err, ◌>>=◌}
use ninewire.Options
use ninewire.Packet.HandShake.{HandShake}
use ninewire.RcvQueue.{find_entry}
use ninewire.Setup.Tests.{factory, small}
use ninewire.United.{UdtSocket, United, new_socket, closed}
use ninewire.Setup.{new, max_flight}
use ninewire.United.Calls.{Env, new_connection, bind, listen, accept}
use ninewire.United.Repeat.{IsKnown, new_connection-IsKnown}

abbrev Sockets : Type 0
Sockets = United factory.k.C factory.W

abbrev env : Env
env = record {
  frequency = 1;
  clock = 5;
  now = 6;
  cached = none;
  bound = true;
  ip = 9 ∷ 9 ∷ 9 ∷ 9 ∷ [];
}

abbrev empty : Sockets
empty = record { sockets = []; closed_sockets = []; peer_rec = []; socket_id = 1000 }

abbrev options : Options.Options
options = record (small 1400) { rcv_buf_size = 2 }

-- The server's socket is 999.
abbrev server : Sockets
server =
    let bound = bind factory 999 true env (new_socket options 2 empty).1 in
    (listen factory 999 (pos 3) false bound.0).0

abbrev asks : HandShake
asks = record {
  version = 4;
  type = 2;
  isn = 50;
  mss = 1300;
  flight_flag_size = 4;
  req_type = 4294967295;
  id = 7;
  cookie = 1;
  peer_ip = 1 ∷ 2 ∷ 3 ∷ 4 ∷ [];
}

abbrev first_answer : ℤ × HandShake × Sockets
first_answer = new_connection factory 999 33 env server asks

abbrev socket_of : Option (UdtSocket factory.k.C factory.W) → UdtSocket factory.k.C factory.W
socket_of none = record {
  status = closed;
  time_stamp = 0;
  peer_addr = 0;
  listen_socket = 0;
  peer_id = 0;
  isn = 0;
  backlog = 0;
  queued_sockets = [];
  accept_sockets = [];
  udt = new options 0 2;
}
socket_of (some s) = s

new_connection-IsKnown_example : IsKnown factory 999 33 env asks first_answer.2
unfolding new_connection bind listen new_socket find_entry
new_connection-IsKnown_example =
    new_connection-IsKnown factory server 999 33 (socket_of (find_entry server.sockets 999)) env env
      asks refl refl refl refl refl

-- The answer that is repeated allows more packets than the first one, and than the buffer has room for.
two_windows :
    (first_answer.1.flight_flag_size ≡ 2)
    × ((new_connection factory 999 33 env first_answer.2 asks).1.flight_flag_size ≡ 4)
unfolding new_connection bind listen new_socket find_entry max_flight
two_windows = (refl, refl)

-- The socket of the connection is 998, and `accept` gives it to the program.
accepts_the_new_socket : (accept factory 999 first_answer.2 >>= λ r. ok r.0) ≡ ok 998
unfolding new_connection bind listen new_socket find_entry accept
accepts_the_new_socket = refl

-- A bind that fails has opened the socket, which then takes no change of its packets' size.
failed_bind_opens :
    let r = bind factory 999 true (record env { bound = false }) (new_socket options 2 empty).1 in
    (r.1 ≡ err 3 1) × ((socket_of (find_entry r.0.sockets 999)).udt.opened ≡ true)
unfolding bind new_socket find_entry
failed_bind_opens = (refl, refl)
