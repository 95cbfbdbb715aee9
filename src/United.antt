-- ===== src/United.antt =====
-- udt-sys/udt/api.cpp: CUDTUnited, the sockets of a process and what the program may call when. A
-- CUDT is a socket of Setup. The multiplexer, which binds a socket to a UDP port, is not modelled:
-- `bound` says whether updateMux returns. An address is a number; a std::map is the list of its
-- entries, a std::set the sorted list of its members.
pub mod Calls
pub mod Repeat
pub mod Served
mod Tests
use ninewire.Base.{
  ℕ, ◌+◌, ◌-◌, ◌*◌, ◌^◌, ◌%◌, Bool, true, false, ltb, leb, ◌==◌, not, ◌&&◌, ◌||◌, if◌then◌else◌,
  List, [], ◌∷◌, ◌++◌, length, Option, none, some, ℤ, pos, pos_part, minus_one, to_word, signed32,
}
use ninewire.Base.Results.{Result, ok, err, ◌>>=◌}
use ninewire.Options.{Options, inherit}
use ninewire.Packet.HandShake.{HandShake}
use ninewire.RcvQueue.{find_entry, set_entry}
use ninewire.Setup.{Socket, new, open_socket}
use ninewire.Setup.Connect.{Factory, answered, connect_peer}

-- UDTSTATUS, in the order of its numbers
pub data SocketStatus : Type 0 where
  init opened listening connecting connected broken closing closed nonexist : SocketStatus

-- CUDTSocket
pub record UdtSocket (C W : Type 0) : Type 0 where
  pub status : SocketStatus
  pub time_stamp : ℕ
  pub peer_addr : ℕ
  pub listen_socket : ℕ
  pub peer_id : ℕ
  pub isn : ℕ
  pub backlog : ℕ
  pub queued_sockets : List ℕ
  pub accept_sockets : List ℕ
  pub udt : Socket C W

-- `socket_id` is the last identifier that was given; identifiers go down. `peer_rec` has the sockets
-- of a key.
pub record United (C W : Type 0) : Type 0 where
  pub sockets : List (ℕ × UdtSocket C W)
  pub closed_sockets : List (ℕ × UdtSocket C W)
  pub peer_rec : List (ℕ × List ℕ)
  pub socket_id : ℕ

module _ {A : Type 0} where
  -- `m[k] = a`
  unfoldable pub assign : List (ℕ × A) → ℕ → A → List (ℕ × A)
  unfolding find_entry set_entry
  assign m k a = elim (find_entry m k) [ none ↦ (k, a) ∷ m | some b ↦ set_entry m k a ]

unfoldable pub set_insert : List ℕ → ℕ → List ℕ
set_insert [] x = x ∷ []
set_insert (y ∷ ys) x =
    let rest = set_insert ys x in
    if ltb x y then x ∷ y ∷ ys else if x == y then y ∷ ys else y ∷ rest

unfoldable pub set_erase : List ℕ → ℕ → List ℕ
set_erase [] x = []
set_erase (y ∷ ys) x = let rest = set_erase ys x in if x == y then ys else y ∷ rest

-- `(id << 30) + isn`, in 32 bits
unfoldable pub peer_key : ℕ → ℕ → ℕ
peer_key id isn = (id * 2 ^ 30 + isn) % 2 ^ 32

abbrev pub is_closed : SocketStatus → Bool
is_closed closed = true
is_closed s = false

unfoldable pub or_empty : Option (List ℕ) → List ℕ
or_empty none = []
or_empty (some ids) = ids

module _ {C W : Type 0} where
  -- `locate(u)`
  unfoldable pub open_only : Option (UdtSocket C W) → Option (UdtSocket C W)
  open_only none = none
  open_only (some s) = if is_closed s.status then none else some s

  unfoldable pub locate : United C W → ℕ → Option (UdtSocket C W)
  unfolding find_entry open_only
  locate g u = open_only (find_entry g.sockets u)

  -- Whether the socket with this identifier has this peer.
  unfoldable pub has_peer : ℕ → Option (UdtSocket C W) → Bool
  has_peer peer none = false
  has_peer peer (some s) = s.peer_addr == peer

  -- The first socket of the set that has this peer.
  unfoldable pub first_with : United C W → ℕ → List ℕ → Option ℕ
  unfolding has_peer find_entry
  first_with g peer [] = none
  first_with g peer (j ∷ js) =
      let rest = first_with g peer js in
      if has_peer peer (find_entry g.sockets j) then some j else rest

  -- `locate(peer, id, isn)`; the identifier of the socket
  unfoldable pub locate_peer : United C W → ℕ → ℕ → ℕ → Option ℕ
  unfolding find_entry or_empty first_with peer_key
  locate_peer g peer id isn = first_with g peer (or_empty (find_entry g.peer_rec (peer_key id isn)))

  unfoldable pub new_socket : Options → ℕ → United C W → ℕ × United C W
  unfolding assign new
  new_socket o sock_type g =
      let id = g.socket_id - 1 in
      let s : UdtSocket C W = record {
        status = init;
        time_stamp = 0;
        peer_addr = 0;
        listen_socket = 0;
        peer_id = 0;
        isn = 0;
        backlog = 0;
        queued_sockets = [];
        accept_sockets = [];
        udt = new o id sock_type;
      } in
      (id, record g { sockets = assign g.sockets id s; socket_id = id })

  -- `m_bBroken` of the CUDT
  unfoldable pub is_broken : UdtSocket C W → Bool
  is_broken s = elim s.udt.conn [ none ↦ s.udt.status.broken | some u ↦ u.status.broken ]

  -- The answer to a request that was answered before.
  unfoldable pub answer_again : UdtSocket C W → HandShake → HandShake
  answer_again s hs = record hs {
    isn = to_word s.udt.isn;
    mss = to_word s.udt.mss;
    flight_flag_size = s.udt.options.flight_flag_size;
    req_type = 2 ^ 32 - 1;
    id = s.udt.id;
  }
