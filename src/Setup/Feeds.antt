-- ===== src/Setup/Feeds.antt =====
-- udt-sys/udt/core.cpp: what the two ends of a new connection agree on.
use Prim.Native.Nat.{min}
use ninewire.Base.{
  ℕ, ◌^◌, ◌<◌, ◌≤◌, ◌≡◌, refl, ap, sym, subst, ◌∙◌, arith, true, false, ltb, if◌then◌else◌,
  if_chooses, Option, none, some, ℤ, pos, pos_part, signed32, to_word, scale, ◌||◌, ltb_ℤ, ◌-ℤ◌,
  ◌≤ℤ◌, ◌+◌,
}
use ninewire.Base.Results.{ok}
use ninewire.Connection.{Udt}
use ninewire.Options.{Options}
use ninewire.Packet.HandShake.{HandShake, words, deserialize, content_size}
use ninewire.Setup.{
  call, new_entry, Socket, new, open_socket, max_flight, set_sizes, start_receiving, start_sending,
}
use ninewire.Setup.Connect.{
  too_large, Factory, is_handshake, written, returned, connect, connect_response, connect_peer,
  agree_peer, answered, finish, prepare, build, from_cache, agree, send_request, asked_again,
  read_response,
}
use ninewire.Setup.Negotiate.{
  arrives, End, opened, meet, request, request_again, reply, packet_of, as_read, arrives-written,
  resp_again, resp_post,
}

-- One direction: what `u` sends next is what `v` waits for, the packets have one size, and what may be
-- in flight has room in the buffer and the loss list of the receiver.
pub record Feeds {C W D X : Type 0} (u : Udt C W) (v : Udt D X) : Type 0 where
  pub sent : u.snd_curr_seq_no ≡ v.rcv_curr_seq_no
  pub acked : u.snd_last_ack ≡ v.rcv_last_ack
  pub data_acked : u.snd_last_data_ack ≡ v.rcv_last_ack_ack
  pub fits : u.payload_size ≡ v.payload_size
  pub room : u.flow_window_size ≤ℤ pos v.rcv_buffer.size
  pub losses : u.flow_window_size ≤ℤ pos v.rcv_loss_list.size

abbrev pub BothFeed : {C W D X : Type 0} → Option (Udt C W × Udt D X) → Type 0
BothFeed none = ⊥
BothFeed (some (u, v)) = Feeds u v × Feeds v u

signed32-to_word : (n : ℕ) → n < 2 ^ 31 → signed32 (to_word (pos n)) ≡ pos n
unfolding to_word
signed32-to_word n h = ground (arith, h)

max_flight_bounds :
    (o : Options) → (max_flight o ≤ o.rcv_buf_size) × (max_flight o ≤ o.flight_flag_size)
unfolding max_flight
max_flight_bounds o = ground arith

-- The size of a packet that carries a handshake.
holds_handshake : (m : ℕ) → 112 ≤ m → ltb_ℤ (pos m -ℤ pos 48 -ℤ pos 16) (pos content_size) ≡ false
unfolding ◌-ℤ◌
holds_handshake m h = ground (arith, h)

-- The arrays for a packet size and a window can be made.
enough_room :
    (m w : ℕ)
    → 64 ≤ m
    → m < 2 ^ 26 + 64
    → w < 2 ^ 30
    → (ltb_ℤ (signed32 (to_word (scale 32 (pos m -ℤ pos 48 -ℤ pos 16)))) (pos 0)
        || ltb_ℤ (signed32 (to_word (scale 2 (pos w)))) (pos 0))
      ≡ false
unfolding ◌-ℤ◌ to_word scale
enough_room m w h k l = ground (arith, h, k, l)

prepare-ok :
    (f : Factory) (cached : Option (ℤ × ℤ)) (s : Socket f.k.C f.W)
    → too_large f s ≡ false
    → let i = from_cache cached s.initial in
      prepare f cached s
      ≡ ok (call new_entry (record s { initial = i; connected = true; conn = some (build f s i) }))
unfolding prepare
prepare-ok f cached s p = rw p refl

-- The smaller packet size, as the server and as the client finds it.
unfoldable smaller : ℕ → ℕ → ℕ
smaller mb ma = if ltb mb ma then mb else ma

at_server :
    (mb ma : ℕ)
    → ma < 2 ^ 31
    → (if ltb_ℤ (pos mb) (signed32 (to_word (pos ma))) then pos mb else signed32 (to_word (pos ma)))
      ≡ pos (smaller mb ma)
unfolding smaller
at_server mb ma h = rw (signed32-to_word ma h) (ground arith)

at_client :
    (mb ma : ℕ)
    → mb < 2 ^ 31
    → ma < 2 ^ 31
    → signed32 (
        if ltb_ℤ (pos mb) (signed32 (to_word (pos ma))) then to_word (pos mb) else to_word (pos ma))
      ≡ pos (smaller mb ma)
unfolding smaller
at_client mb ma hb ha =
    if_chooses (λ w. signed32 w ≡ pos (smaller mb ma))
      (ltb_ℤ (pos mb) (signed32 (to_word (pos ma))))
      (λ c.
        rw (signed32-to_word mb hb)
          (ground (arith, subst (λ z. ltb_ℤ (pos mb) z ≡ true) (signed32-to_word ma ha) c)))
      (λ c.
        rw (signed32-to_word ma ha)
          (ground (arith, subst (λ z. ltb_ℤ (pos mb) z ≡ false) (signed32-to_word ma ha) c)))

module _ (f g : Factory) (a b : End) (n cookie : ℕ) where
  -- The client after its request, the handshake that the listener reads, the client with the
  -- cookie, the handshake that comes then, and both ends.
  abbrev c1 : Socket f.k.C f.W
  c1 = send_request f a.ip (pos n) a.now a.scratch (opened a)

  abbrev h1 : HandShake
  h1 = record (as_read c1.conn_req) { cookie = cookie }

  abbrev c2 : Socket f.k.C f.W
  c2 = asked_again f (read_response f (packet_of h1) c1) cookie

  abbrev h2 : HandShake
  h2 = as_read c2.conn_req

  abbrev server_end : Socket g.k.C g.W
  server_end = agree_peer g h2 b.now (opened b)

  abbrev client_end : Socket f.k.C f.W
  client_end = agree f (read_response f (packet_of (answered g (opened b) b.ip h2)) c2)

  t1 : connect f a.ip (pos n) a.now a.scratch (opened a) ≡ ok c1
  unfolding connect open_socket new
  t1 = refl

  t2 :
      112 ≤ a.options.mss
      → arrives (written c1.conn_req a.scratch c1.payload_size) ≡ some (as_read c1.conn_req)
  unfolding open_socket new send_request set_sizes
  t2 h = arrives-written c1.conn_req a.scratch c1.payload_size (holds_handshake a.options.mss h)

  t3 :
      a.options.rendezvous ≡ false
      → connect_response f (packet_of h1) a.cached c1 ≡ returned (pos 1) c2
  unfolding open_socket new send_request set_sizes is_handshake read_response words deserialize
  t3 r = resp_again f g (packet_of h1) a.cached c1 refl r refl (rw r refl)

  t4 : 112 ≤ a.options.mss → arrives (written c2.conn_req a.scratch c2.payload_size) ≡ some h2
  unfolding open_socket new send_request set_sizes asked_again read_response
  t4 h = arrives-written c2.conn_req a.scratch c2.payload_size (holds_handshake a.options.mss h)

  t5 :
      a.options.rendezvous ≡ false
      → connect_response f (packet_of (answered g (opened b) b.ip h2)) a.cached c2
        ≡ finish f (prepare f a.cached client_end)
  unfolding open_socket new send_request set_sizes is_handshake read_response words deserialize
      asked_again answered
  t5 r = resp_post f g _ a.cached c2 refl r refl refl

  module _ (ra : a.options.rendezvous ≡ false) (la : 112 ≤ a.options.mss)
      (ha : a.options.mss < 2 ^ 31) (lb : 64 ≤ b.options.mss) (hb : b.options.mss < 2 ^ 31) where
    s_mss : server_end.mss ≡ pos (smaller b.options.mss a.options.mss)
    unfolding open_socket new send_request set_sizes is_handshake read_response words deserialize
        asked_again answered agree_peer start_receiving start_sending
    s_mss = at_server b.options.mss a.options.mss ha

    c_mss : client_end.mss ≡ pos (smaller b.options.mss a.options.mss)
    unfolding open_socket new send_request set_sizes is_handshake read_response words deserialize
        asked_again answered agree_peer start_receiving start_sending agree
    c_mss = at_client b.options.mss a.options.mss hb ha

    abbrev payload : ℕ → ℤ
    payload m = pos m -ℤ pos 48 -ℤ pos 16

    s_size : server_end.payload_size ≡ payload (smaller b.options.mss a.options.mss)
    unfolding agree_peer set_sizes
    s_size = ap (λ z. z -ℤ pos 48 -ℤ pos 16) s_mss

    c_size : client_end.payload_size ≡ payload (smaller b.options.mss a.options.mss)
    unfolding agree set_sizes
    c_size = ap (λ z. z -ℤ pos 48 -ℤ pos 16) c_mss

    smaller_holds : 64 ≤ smaller b.options.mss a.options.mss
    unfolding smaller
    smaller_holds = ground (arith, la, lb)

    module _ (hm : min a.options.mss b.options.mss < 2 ^ 26 + 64)
        (wa : max_flight a.options < 2 ^ 30) (wb : max_flight b.options < 2 ^ 30) where
      smaller_fits : smaller b.options.mss a.options.mss < 2 ^ 26 + 64
      unfolding smaller
      smaller_fits = ground (arith, hm)

      s_flow : server_end.flow_window_size ≡ pos (max_flight a.options)
      unfolding open_socket new send_request set_sizes is_handshake read_response words deserialize
          asked_again answered agree_peer start_receiving start_sending agree
      s_flow = ground (arith, wa)

      c_flow : client_end.flow_window_size ≡ pos (max_flight b.options)
      unfolding open_socket new send_request set_sizes is_handshake read_response words deserialize
          asked_again answered agree_peer start_receiving start_sending agree
      c_flow = ground (arith, wb)

      s_done :
          prepare g b.cached server_end
          ≡ ok (
              call new_entry (record server_end {
                initial = from_cache b.cached server_end.initial;
                connected = true;
                conn = some (build g server_end (from_cache b.cached server_end.initial));
              }))
      unfolding too_large
      s_done = prepare-ok g b.cached server_end (
          rw (s_size, s_flow)
            (enough_room (smaller b.options.mss a.options.mss) (max_flight a.options) smaller_holds
              smaller_fits wa))

      c_done :
          prepare f a.cached client_end
          ≡ ok (
              call new_entry (record client_end {
                initial = from_cache a.cached client_end.initial;
                connected = true;
                conn = some (build f client_end (from_cache a.cached client_end.initial));
              }))
      unfolding too_large
      c_done = prepare-ok f a.cached client_end (
          rw (c_size, c_flow)
            (enough_room (smaller b.options.mss a.options.mss) (max_flight b.options) smaller_holds
              smaller_fits wb))

      met :
          meet f g (pos n) cookie a b
          ≡ some (
            build f client_end (from_cache a.cached client_end.initial),
            build g server_end (from_cache b.cached server_end.initial),
          )
      unfolding meet request request_again reply connect_peer finish
      met = rw t1 (
          rw (t2 la, request)
            (rw (t3 ra) (
              rw (t4 la, request_again)
                (rw (s_done, connect_peer) (rw (t5 ra, reply) (rw c_done refl))))))

      module _ (hn : n < 2 ^ 31) where
        client-Feeds :
            Feeds
              (build f client_end (from_cache a.cached client_end.initial))
              (build g server_end (from_cache b.cached server_end.initial))
        unfolding build open_socket new send_request set_sizes is_handshake read_response words
            deserialize asked_again answered agree_peer start_receiving start_sending agree
        client-Feeds = record {
          sent = ap (λ z. z -ℤ pos 1) (sym (signed32-to_word n hn));
          acked = sym (signed32-to_word n hn);
          data_acked = sym (signed32-to_word n hn);
          fits = ap pos_part (c_size ∙ sym s_size);
          room =
              subst (λ z. z ≤ℤ pos b.options.rcv_buf_size) (sym c_flow)
                (ground (arith, max_flight_bounds b.options));
          losses =
              subst (λ z. z ≤ℤ pos b.options.flight_flag_size) (sym c_flow)
                (ground (arith, max_flight_bounds b.options));
        }

        server-Feeds :
            Feeds
              (build g server_end (from_cache b.cached server_end.initial))
              (build f client_end (from_cache a.cached client_end.initial))
        unfolding build open_socket new send_request set_sizes is_handshake read_response words
            deserialize asked_again answered agree_peer start_receiving start_sending agree
        server-Feeds = record {
          sent = refl;
          acked = refl;
          data_acked = refl;
          fits = ap pos_part (s_size ∙ sym c_size);
          room =
              subst (λ z. z ≤ℤ pos a.options.rcv_buf_size) (sym s_flow)
                (ground (arith, max_flight_bounds a.options));
          losses =
              subst (λ z. z ≤ℤ pos a.options.flight_flag_size) (sym s_flow)
                (ground (arith, max_flight_bounds a.options));
        }

-- Let a client that is not in rendezvous mode call connect, with a packet size from 112 bytes on, and
-- let the server's packets have at least 64 bytes, all numbers in 31 bits, the smaller packet size
-- less than 2^26 + 64 and the windows less than 2^30, so that no int overflows. Once the client has
-- answered the listener's cookie and has read the handshake of the server's new socket, both ends
-- are connected, and in both directions: the number that is sent next and the acknowledgements are
-- those that the other end waits for, the packets have one size, and the packets that may be in
-- flight have room in the receiver's buffer and in its loss list.
pub meet-BothFeed :
    (f g : Factory) (a b : End) (n cookie : ℕ)
    → n < 2 ^ 31
    → a.options.rendezvous ≡ false
    → 112 ≤ a.options.mss
    → a.options.mss < 2 ^ 31
    → 64 ≤ b.options.mss
    → b.options.mss < 2 ^ 31
    → min a.options.mss b.options.mss < 2 ^ 26 + 64
    → max_flight a.options < 2 ^ 30
    → max_flight b.options < 2 ^ 30
    → BothFeed (meet f g (pos n) cookie a b)
meet-BothFeed f g a b n cookie hn ra la ha lb hb hm wa wb =
    subst BothFeed (sym (met f g a b n cookie ra la ha lb hb hm wa wb)) (
      client-Feeds f g a b n cookie ra la ha lb hb hm wa wb hn,
      server-Feeds f g a b n cookie ra la ha lb hb hm wa wb hn,
    )
