-- ===== src/United/Calls.antt =====
-- udt-sys/udt/api.cpp: the calls of the program and of the listener. `bind` and `listen` return the
-- registry also if they throw; another call that throws changes nothing.
use ninewire.Base.{
  ℕ, ◌-◌, Bool, true, false, leb, not, if◌then◌else◌, List, [], ◌∷◌, length, Option, none, some, ℤ,
  pos, pos_part, minus_one, leb_ℤ,
}
use ninewire.Base.Results.{Result, ok, err, ◌>>=◌}
use ninewire.Options.{inherit}
use ninewire.Packet.HandShake.{HandShake}
use ninewire.RcvQueue.{find_entry, set_entry, erase_entry}
use ninewire.Setup.{Socket, new, open_socket, start_listening}
use ninewire.Setup.Close
use ninewire.Setup.Connect.{Factory, answered, connect_peer}
use ninewire.United.{
  SocketStatus, UdtSocket, United, init, opened, listening, connected, broken, closed, nonexist,
  assign, set_insert, set_erase, peer_key, or_empty, locate, locate_peer, is_broken, answer_again,
}

-- What a call takes from the system: the clocks, the entry of the cache for the peer, whether the
-- multiplexer binds the socket, and the words of the peer's address.
pub record Env : Type 0 where
  pub frequency : ℕ
  pub clock : ℕ
  pub now : ℕ
  pub cached : Option (ℤ × ℤ)
  pub bound : Bool
  pub ip : List ℕ

module _ (f : Factory) where
  open f use {k, W}

  abbrev Sockets : Type 0
  Sockets = United k.C W

  -- The old socket of a peer is broken: it is closed, and leaves the queues of the listener.
  unfoldable pub discard : ℕ → ℕ → UdtSocket k.C W → Env → Sockets → Sockets
  unfolding set_erase set_entry
  discard listener id old env g =
      elim (find_entry
        (set_entry g.sockets id (record old { status = closed; time_stamp = env.now })) listener) [
          | none ↦ g
          | some ls ↦ record g {
            sockets =
                set_entry
                  (set_entry g.sockets id (record old { status = closed; time_stamp = env.now }))
                  listener
                  (record ls {
                    queued_sockets = set_erase ls.queued_sockets id;
                    accept_sockets = set_erase ls.accept_sockets id;
                  });
          }
        ]

  -- A socket that `connect` set up goes into the registry and the queue of its listener.
  unfoldable pub register : ℕ → UdtSocket k.C W → ℕ → UdtSocket k.C W → Sockets → Sockets
  unfolding assign set_insert peer_key or_empty set_entry
  register listener ls id ns g =
      let key = peer_key ns.peer_id ns.isn in
      record g {
        sockets =
            set_entry (assign g.sockets id ns) listener
              (record ls { queued_sockets = set_insert ls.queued_sockets id });
        peer_rec = assign g.peer_rec key (set_insert (or_empty (find_entry g.peer_rec key)) id);
        socket_id = id;
      }

  -- The new socket of a listener, before `connect`.
  unfoldable pub fresh_end : UdtSocket k.C W → Env → ℕ → Socket k.C W
  unfolding open_socket new
  fresh_end ls env id =
      open_socket env.frequency env.clock (new (inherit ls.udt.options) id ls.udt.sock_type)

  unfoldable pub entry_for : ℕ → ℕ → HandShake → Socket k.C W → UdtSocket k.C W
  entry_for listener peer hs s = record {
    status = connected;
    time_stamp = 0;
    peer_addr = peer;
    listen_socket = listener;
    peer_id = hs.id;
    isn = hs.isn;
    backlog = 0;
    queued_sockets = [];
    accept_sockets = [];
    udt = s;
  }

  -- Identifiers go down by one also if the new socket fails. The handshake is left as it is if the
  -- socket was not bound, and rewritten already if `connect` throws.
  unfoldable pub refuse : HandShake → Sockets → ℤ × HandShake × Sockets
  refuse hs g = (minus_one, hs, record g { socket_id = g.socket_id - 1 })

  unfoldable pub finish_connection :
      ℕ
      → UdtSocket k.C W
      → ℕ
      → HandShake
      → Env
      → Sockets
      → Result (Socket k.C W)
      → ℤ × HandShake × Sockets
  unfolding register fresh_end answered refuse entry_for
  finish_connection listener ls peer hs env g (ok s) = (
    pos 1,
    answered f (fresh_end ls env (g.socket_id - 1)) env.ip hs,
    register listener ls (g.socket_id - 1) (entry_for listener peer hs s) g,
  )
  finish_connection listener ls peer hs env g (err i j) =
      refuse (answered f (fresh_end ls env (g.socket_id - 1)) env.ip hs) g

  -- From the test of the backlog on.
  unfoldable pub add_connection :
      ℕ → UdtSocket k.C W → ℕ → HandShake → Env → Sockets → ℤ × HandShake × Sockets
  unfolding finish_connection refuse fresh_end connect_peer
  add_connection listener ls peer hs env g =
      if leb ls.backlog (length ls.queued_sockets)
      then (minus_one, hs, g)
      else if not env.bound
      then refuse hs g
      else finish_connection listener ls peer hs env g
          (connect_peer f env.ip hs env.cached env.now (fresh_end ls env (g.socket_id - 1)))

  -- For the socket that was found for the peer.
  unfoldable pub known_peer :
      ℕ
      → UdtSocket k.C W
      → ℕ
      → HandShake
      → Env
      → Sockets
      → ℕ
      → UdtSocket k.C W
      → ℤ × HandShake × Sockets
  unfolding discard add_connection is_broken answer_again
  known_peer listener ls peer hs env g id old =
      let g' = discard listener id old env g in
      let again = elim (find_entry g'.sockets listener) as (λ o. ℤ × HandShake × Sockets) [
        | none ↦ (minus_one, hs, g')
        | some ls' ↦ add_connection listener ls' peer hs env g'
      ] in
      if is_broken old then again else (pos 0, answer_again old hs, g)

  unfoldable pub process_request :
      ℕ → UdtSocket k.C W → ℕ → HandShake → Env → Sockets → Option ℕ → ℤ × HandShake × Sockets
  unfolding known_peer add_connection
  process_request listener ls peer hs env g none = add_connection listener ls peer hs env g
  process_request listener ls peer hs env g (some id) = elim (find_entry g.sockets id) [
    | none ↦ add_connection listener ls peer hs env g
    | some old ↦ known_peer listener ls peer hs env g id old
  ]

  unfoldable pub new_connection : ℕ → ℕ → Env → Sockets → HandShake → ℤ × HandShake × Sockets
  unfolding locate locate_peer process_request
  new_connection listener peer env g hs = elim (locate g listener) [
    | none ↦ (minus_one, hs, g)
    | some ls ↦ process_request listener ls peer hs env g (locate_peer g peer hs.id hs.isn)
  ]

  unfoldable pub get_status : Sockets → ℕ → SocketStatus
  unfolding find_entry is_broken
  get_status g u = elim (find_entry g.sockets u) [
    | none ↦ elim (find_entry g.closed_sockets u) [ none ↦ nonexist | some s ↦ closed ]
    | some s ↦ if is_broken s then broken else s.status
  ]

  abbrev found : Option (UdtSocket k.C W) → Result (UdtSocket k.C W)
  found none = err 5 4
  found (some s) = ok s

  -- `lookup`: the CUDT
  unfoldable pub lookup : Sockets → ℕ → Result (UdtSocket k.C W)
  unfolding locate
  lookup g u = found (locate g u)

  abbrev is_init : SocketStatus → Bool
  is_init init = true
  is_init s = false

  abbrev pub is_opened : SocketStatus → Bool
  is_opened opened = true
  is_opened s = false

  abbrev pub is_listening : SocketStatus → Bool
  is_listening listening = true
  is_listening s = false

  unfoldable pub set_socket : Sockets → ℕ → UdtSocket k.C W → Sockets
  unfolding set_entry
  set_socket g u s = record g { sockets = set_entry g.sockets u s }

  -- `fits` says that the address has the right length; the multiplexer binds the socket, which is
  -- opened before, also if this fails.
  unfoldable pub bind_at : ℕ → Bool → Env → Sockets → UdtSocket k.C W → Sockets × Result ℤ
  unfolding open_socket set_socket
  bind_at u fits env g s =
      let s' = record s { udt = open_socket env.frequency env.clock s.udt } in
      if not (is_init s.status)
      then (g, err 5 0)
      else if not fits
      then (g, err 5 3)
      else if not env.bound
      then (set_socket g u s', err 3 1)
      else (set_socket g u (record s' { status = opened }), ok (pos 0))

  unfoldable pub bind : ℕ → Bool → Env → Sockets → Sockets × Result ℤ
  unfolding locate bind_at
  bind u fits env g = elim (locate g u) [ none ↦ (g, err 5 4) | some s ↦ bind_at u fits env g s ]

  -- What CUDT::listen comes to, for a socket `s` whose backlog is set and whose queues are cleared.
  unfoldable pub listening_or :
      ℕ → Sockets → UdtSocket k.C W → Result (Socket k.C W) → Sockets × Result ℤ
  unfolding set_socket
  listening_or u g s (ok udt) =
      (set_socket g u (record s { status = listening; udt = udt }), ok (pos 0))
  listening_or u g s (err i j) = (set_socket g u s, err i j)

  unfoldable pub listen_at : ℕ → ℤ → Bool → Sockets → UdtSocket k.C W → Sockets × Result ℤ
  unfolding start_listening listening_or
  listen_at u backlog taken g s =
      let s' = record s { backlog = pos_part backlog; queued_sockets = []; accept_sockets = [] } in
      if is_listening s.status
      then (g, ok (pos 0))
      else if not (is_opened s.status)
      then (g, err 5 5)
      else if s.udt.options.rendezvous
      then (g, err 5 7)
      else if leb_ℤ backlog (pos 0)
      then (g, err 5 3)
      else listening_or u g s' (start_listening taken s.udt)

  unfoldable pub listen : ℕ → ℤ → Bool → Sockets → Sockets × Result ℤ
  unfolding locate listen_at
  listen u backlog taken g = elim (locate g u) [
    | none ↦ (g, err 5 4)
    | some s ↦ listen_at u backlog taken g s
  ]

  -- The first of the queue, by its identifier.
  unfoldable pub accept_from : ℕ → UdtSocket k.C W → Sockets → List ℕ → Result (ℕ × Sockets)
  unfolding set_socket set_insert
  accept_from listener ls g [] = err 6 2
  accept_from listener ls g (u ∷ us) = ok (
    u,
    set_socket g listener
        (record ls { queued_sockets = us; accept_sockets = set_insert ls.accept_sockets u }),
  )

  unfoldable pub accept : ℕ → Sockets → Result (ℕ × Sockets)
  unfolding locate accept_from
  accept listener g = found (locate g listener) >>= λ ls.
      if not (is_listening ls.status)
      then err 5 6
      else if ls.udt.options.rendezvous
      then err 5 7
      else accept_from listener ls g ls.queued_sockets

  -- The socket goes from the map of open sockets to that of the closed ones. For a listener the
  -- others do this later.
  unfoldable pub close : ℕ → Env → Sockets → Result Sockets
  unfolding locate set_socket assign erase_entry Close.close
  close u env g = found (locate g u) >>= λ s.
      let broken_off = record s {
        time_stamp = env.now;
        udt = record s.udt { status = record s.udt.status { broken = true } };
      } in
      let left = record s { status = closed; time_stamp = env.now; udt = Close.close s.udt } in
      if is_listening s.status
      then if is_broken s then ok g else ok (set_socket g u broken_off)
      else ok (record g {
        sockets = erase_entry g.sockets u;
        closed_sockets = assign g.closed_sockets u left;
      })
