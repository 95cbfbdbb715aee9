-- ===== src/Setup/Negotiate.antt =====
-- udt-sys/udt/core.cpp and api.cpp: the two ends of a connection that is set up, a client that calls
-- connect and the socket that the server makes for it (CUDTUnited::newConnection).
use ninewire.Base.{
  eqb_ℤ, get_or, ℕ, ◌^◌, ◌≡◌, refl, true, false, ◌==◌, if◌then◌else◌, List, [], ◌∷◌, Option, none,
  some, ℤ, pos, ltb_ℤ,
}
use ninewire.Base.Results.{Result, ok, err}
use ninewire.Connection.{Udt}
use ninewire.Options.{Options}
use ninewire.Packet.{Packet, buffer}
use ninewire.Packet.HandShake.{HandShake, words, deserialize, content_size}
use ninewire.Setup.{Socket, new, open_socket}
use ninewire.Setup.Connect.{
  asked_again, written, is_handshake, read_response, ask_again, shows_connected, negotiate,
  post_connect, Factory, Outcome, returned, terminated, connect, connect_response, connect_peer,
  answered, finish, prepare, agree,
}

-- A handshake as it comes out of the network.
abbrev pub packet_of : HandShake → Packet
packet_of hs = record {
  word0 = 2 ^ 31;
  word1 = 0;
  word2 = 0;
  word3 = 0;
  payload = buffer (words hs);
  len = 48;
}

-- The handshake that a listener reads from a packet with this content and length.
unfoldable pub arrives : List ℕ × ℤ → Option HandShake
unfolding deserialize
arrives (content, len) =
    if eqb_ℤ len (pos content_size) then deserialize content content_size else none

-- The four words of the address of a handshake that was read.
abbrev pub as_read : HandShake → HandShake
as_read hs = record hs {
  peer_ip =
      get_or hs.peer_ip 0 0
      ∷ get_or hs.peer_ip 1 0
      ∷ get_or hs.peer_ip 2 0
      ∷ get_or hs.peer_ip 3 0
      ∷ [];
}

pub arrives-written :
    (hs : HandShake) (scratch : List ℕ) (size : ℤ)
    → ltb_ℤ size (pos content_size) ≡ false
    → arrives (written hs scratch size) ≡ some (as_read hs)
unfolding arrives written words
arrives-written hs scratch size h = rw h refl

-- What both ends have of the program and of the system.
pub record End : Type 0 where
  pub options : Options
  pub id : ℕ
  pub sock_type : ℕ
  -- the address of the other end
  pub ip : List ℕ
  pub frequency : ℕ
  pub clock : ℕ
  pub now : ℕ
  pub scratch : List ℕ
  pub cached : Option (ℤ × ℤ)

abbrev pub opened : {C W : Type 0} → End → Socket C W
opened e = open_socket e.frequency e.clock (new e.options e.id e.sock_type)

module _ (f g : Factory) where
  abbrev Client : Type 0
  Client = Socket f.k.C f.W

  abbrev Server : Type 0
  Server = Socket g.k.C g.W

  abbrev Ends : Type 0
  Ends = Option (Udt f.k.C f.W × Udt g.k.C g.W)

  abbrev pub both_connected : Option (Udt f.k.C f.W) → Option (Udt g.k.C g.W) → Ends
  both_connected (some u) (some v) = some (u, v)
  both_connected none v = none
  both_connected (some u) none = none

  abbrev pub client_done : Server → Outcome Client → Ends
  client_done v (returned r c) = both_connected c.conn v.conn
  client_done v terminated = none

  -- The server has a socket, and its handshake goes back to the client.
  unfoldable pub reply : End → End → Client → HandShake → Result Server → Ends
  reply a b c hs (ok v) =
      client_done v (connect_response f (packet_of (answered g (opened b) b.ip hs)) a.cached c)
  reply a b c hs (err i j) = none

  -- The client sends its handshake again, with the cookie.
  unfoldable pub request_again : End → End → Outcome Client → Ends
  unfolding reply arrives written
  request_again a b (returned r c) = elim (arrives (written c.conn_req a.scratch c.payload_size)) [
    | none ↦ none
    | some hs ↦ reply a b c hs (connect_peer g b.ip hs b.cached b.now (opened b))
  ]
  request_again a b terminated = none

  -- The client has sent its request, and the listener answers it with a cookie.
  unfoldable pub request : ℕ → End → End → Result Client → Ends
  unfolding request_again arrives written
  request cookie a b (ok c) = elim (arrives (written c.conn_req a.scratch c.payload_size)) [
    | none ↦ none
    | some hs ↦
        request_again a b
          (connect_response f (packet_of (record hs { cookie = cookie })) a.cached c)
  ]
  request cookie a b (err i j) = none

  -- `a` connects to a server with the options of `b`, from the sequence number `isn` on.
  unfoldable pub meet : ℤ → ℕ → End → End → Ends
  unfolding request
  meet isn cookie a b = request cookie a b (connect f a.ip isn a.now a.scratch (opened a))

  -- Responses to a client that is not in rendezvous mode.
  pub resp_again :
      (p : Packet) (cached : Option (ℤ × ℤ)) (s : Client)
      → s.connecting ≡ true
      → s.options.rendezvous ≡ false
      → is_handshake f p ≡ true
      → ((read_response f p s).conn_res.req_type == 1) ≡ true
      → connect_response f p cached s
        ≡ ask_again f (read_response f p s) (read_response f p s).conn_res.cookie
  unfolding connect_response shows_connected negotiate read_response asked_again
  resp_again p cached s c r h q = rw c (rw r (rw h (rw q refl)))

  pub resp_post :
      (p : Packet) (cached : Option (ℤ × ℤ)) (s : Client)
      → s.connecting ≡ true
      → s.options.rendezvous ≡ false
      → is_handshake f p ≡ true
      → ((read_response f p s).conn_res.req_type == 1) ≡ false
      → connect_response f p cached s ≡ finish f (prepare f cached (agree f (read_response f p s)))
  unfolding connect_response shows_connected negotiate read_response post_connect
  resp_post p cached s c r h q = rw c (rw r (rw h (rw q refl)))
