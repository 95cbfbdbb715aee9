-- ===== src/Listen/Cookies.antt =====
-- udt-sys/udt/core.cpp: the cookies of CUDT::listen.
use ninewire.Base.{
  ℕ, ◌≡◌, ◌⊎◌, inl, inr, refl, ap, sym, ◌∙◌, if_chooses, Bool, true, false, not, ◌==◌, ==_self,
  if_true, if_false, ◌&&◌, ◌||◌, ℤ, pos, List, [], ◌∷◌, get_or, Option, none, some, eqb_ℤ,
}
use ninewire.Packet.{Packet, get_flag, get_type}
use ninewire.Packet.HandShake.{HandShake, content_size, serialize, deserialize, words}
use ninewire.Listen.{
  Registry, Listener, Peer, Answer, cookie_text, minute, content, knows_cookie, write, answer_new,
  accept_peer, listen_handshake, listen,
}

module _ (md5 : List ℕ → ℕ) (g : Registry) where
  open g use {S}

  -- The registry was asked for a connection, by a peer with a cookie.
  pub record Admitted (l : Listener) (peer : Peer) (p : Packet) (now : ℕ) (s s' : S) : Type 0 where
    pub hs : HandShake
    pub parsed : deserialize (content p.payload) p.len ≡ some hs
    pub open_socket : l.closing ≡ false
    pub no_request : (hs.req_type == 1) ≡ false
    pub cookie : knows_cookie md5 peer (minute l now) hs ≡ true
    pub handshake : (get_flag p == 1 && get_type p == 0) ≡ true
    pub version : (hs.version == l.version) ≡ true
    pub type : (hs.type == l.sock_type) ≡ true
    pub state : let t = (g.new_connection s hs).2 in (s' ≡ t) ⊎ (s' ≡ g.opened t)

  both_hold : (a b : Bool) → (not a || not b) ≡ false → (a ≡ true) × (b ≡ true)
  both_hold true true h = (refl, refl)
  both_hold true false h = cc
  both_hold false b h = cc

  answer_new-state :
      (hs : HandShake) (buf : List ℕ) (id : ℕ) (r : ℤ × HandShake × S)
      → let s' = (answer_new md5 g hs buf id r).1 in (s' ≡ r.2) ⊎ (s' ≡ g.opened r.2)
  unfolding answer_new
  answer_new-state hs buf id (result, left, s) =
      if_chooses (λ (x : ℤ × S × List Answer). (x.1 ≡ s) ⊎ (x.1 ≡ g.opened s))
        (eqb_ℤ result (pos 1)) (λ y. inr refl) (λ n. inl refl)

  module _ (l : Listener) (peer : Peer) (p : Packet) (now : ℕ) (s : S) where
    -- What holds of a result of `listen`.
    abbrev LetsIn : ℤ × S × List Answer → Type 0
    LetsIn x = (x.1 ≡ s) ⊎ Admitted l peer p now s x.1

    listen_handshake-LetsIn :
        (hs : HandShake)
        → l.closing ≡ false
        → deserialize (content p.payload) p.len ≡ some hs
        → LetsIn (listen_handshake md5 g l peer hs p now s)
    unfolding listen_handshake accept_peer
    listen_handshake-LetsIn hs open_socket parsed =
        if_chooses LetsIn (hs.req_type == 1) (λ y. inl refl)
          (λ no_request.
            if_chooses LetsIn (knows_cookie md5 peer (minute l now) hs)
              (λ cookie.
                if_chooses LetsIn (get_flag p == 1 && get_type p == 0)
                  (λ handshake.
                    if_chooses LetsIn
                      (not (hs.version == l.version) || not (hs.type == l.sock_type))
                      (λ y. inl refl)
                      (λ same.
                        let (version, type) =
                          both_hold (hs.version == l.version) (hs.type == l.sock_type) same in
                        inr (record {
                          hs = hs;
                          parsed = parsed;
                          open_socket = open_socket;
                          no_request = no_request;
                          cookie = cookie;
                          handshake = handshake;
                          version = version;
                          type = type;
                          state =
                              answer_new-state hs (content p.payload) hs.id (g.new_connection s hs);
                        })))
                  (λ n. inl refl))
              (λ n. inl refl))

    parsed-LetsIn :
        (o : Option HandShake)
        → l.closing ≡ false
        → deserialize (content p.payload) p.len ≡ o
        → LetsIn (elim o [
          | none ↦ (pos 1004, s, [])
          | some hs ↦ listen_handshake md5 g l peer hs p now s
        ])
    parsed-LetsIn none a e = inl refl
    parsed-LetsIn (some hs) a e = listen_handshake-LetsIn hs a e

    -- A peer gets in touch with the registry only by a handshake packet of the right length with a
    -- cookie that the listener accepts in this minute, and with its version and socket type; any
    -- other packet leaves the registry as it is.
    pub listen_admits : LetsIn (listen md5 g l peer p now s)
    unfolding listen
    listen_admits =
        if_chooses LetsIn l.closing (λ y. inl refl)
          (λ open_socket.
            if_chooses LetsIn (not (p.len == content_size)) (λ y. inl refl)
              (λ n. parsed-LetsIn (deserialize (content p.payload) p.len) open_socket refl))

  listen_parsed :
      (l : Listener) (peer : Peer) (p : Packet) (now : ℕ) (s : S) (hs : HandShake)
      → l.closing ≡ false
      → p.len ≡ content_size
      → deserialize (content p.payload) p.len ≡ some hs
      → listen md5 g l peer p now s ≡ listen_handshake md5 g l peer hs p now s
  unfolding listen
  listen_parsed l peer p now s hs open_socket e d =
      if_false l.closing _ _ open_socket
      ∙ if_false (not (p.len == content_size)) _ _ (rw e refl)
      ∙ ap
          (λ o. elim o [
            | none ↦ (pos 1004, s, [])
            | some hs ↦ listen_handshake md5 g l peer hs p now s
          ])
          d

  -- An answer to a request, and its cookie with anything else in a later handshake.
  module _ (l : Listener) (peer : Peer) (now later : ℕ) (s s' : S)
      (open_socket : l.closing ≡ false) where
    asked_for :
        (p : Packet) (asks : HandShake)
        → asks.req_type ≡ 1
        → listen_handshake md5 g l peer asks p now s ≡ (
          pos 0,
          s,
          record {
            id = asks.id;
            words =
                write md5
                  (record asks { cookie = md5 (cookie_text peer (minute l now)) })
                  (content p.payload)
                  p.len;
          }
              ∷ [],
        )
    unfolding listen_handshake
    asked_for p asks e = rw e refl

    written_cookie :
        (hs : HandShake) (buf : List ℕ) → get_or (write md5 hs buf content_size) 7 0 ≡ hs.cookie
    unfolding serialize words
    written_cookie hs buf = refl

    known :
        (hs : HandShake)
        → hs.cookie ≡ md5 (cookie_text peer (minute l later))
        → knows_cookie md5 peer (minute l later) hs ≡ true
    unfolding knows_cookie
    known hs e = rw (e, ==_self (md5 (cookie_text peer (minute l later)))) refl

    brought_back :
        (q : Packet) (hs : HandShake)
        → (hs.req_type == 1) ≡ false
        → hs.cookie ≡ md5 (cookie_text peer (minute l later))
        → (hs.version == l.version) ≡ true
        → (hs.type == l.sock_type) ≡ true
        → (get_flag q == 1 && get_type q == 0) ≡ true
        → listen_handshake md5 g l peer hs q later s'
          ≡ answer_new md5 g hs (content q.payload) hs.id (g.new_connection s' hs)
    unfolding listen_handshake accept_peer
    brought_back q hs nr e ver typ shape =
        if_false (hs.req_type == 1) _ _ nr
        ∙ if_true (knows_cookie md5 peer (minute l later) hs) _ _ (known hs e)
        ∙ if_true (get_flag q == 1 && get_type q == 0) _ _ shape
        ∙ if_false (not (hs.version == l.version) || not (hs.type == l.sock_type)) _ _
            (rw (ver, typ) refl)

    -- A request leaves the registry as it is and gets one answer. A handshake with the cookie of
    -- this answer that the same peer sends back in the same minute, not as a request, with the
    -- listener's version and socket type, is handed to the registry, whose result counts.
    pub cookie_round_trip :
        (p q : Packet) (asks brings : HandShake)
        → p.len ≡ content_size
        → deserialize (content p.payload) p.len ≡ some asks
        → asks.req_type ≡ 1
        → q.len ≡ content_size
        → deserialize (content q.payload) q.len ≡ some brings
        → minute l later ≡ minute l now
        → (brings.req_type == 1) ≡ false
        → (brings.version == l.version) ≡ true
        → (brings.type == l.sock_type) ≡ true
        → (get_flag q == 1 && get_type q == 0) ≡ true
        → let r = listen md5 g l peer p now s in
          (r.1 ≡ s)
          × ((answer : Answer) × (r.2 ≡ answer ∷ [])
              × (answer.id ≡ asks.id)
              × (brings.cookie ≡ get_or answer.words 7 0
                  → listen md5 g l peer q later s'
                    ≡ answer_new md5 g brings
                        (content q.payload)
                        brings.id
                        (g.new_connection s' brings)))
    cookie_round_trip p q asks brings lp ep rp lq eq same nr ver typ shape =
        rw (listen_parsed l peer p now s asks open_socket lp ep) (
          rw (asked_for p asks rp) (
            refl,
            (
              record {
                id = asks.id;
                words =
                    write md5 (record asks { cookie = md5 (cookie_text peer (minute l now)) })
                      (content p.payload) p.len;
              },
              refl,
              refl,
              λ e.
                  listen_parsed l peer q later s' brings open_socket lq eq
                  ∙ brought_back q brings nr
                      (e
                        ∙ ap
                            (λ n.
                              get_or
                                (write md5
                                  (record asks { cookie = md5 (cookie_text peer (minute l now)) })
                                  (content p.payload) n)
                                7 0)
                            lp
                        ∙ written_cookie
                            (record asks { cookie = md5 (cookie_text peer (minute l now)) })
                            (content p.payload)
                        ∙ ap (λ m. md5 (cookie_text peer m)) (sym same))
                      ver typ shape,
            ),
          ))
