-- ===== src/Listen.antt =====
-- udt-sys/udt/core.cpp: CUDT::listen, what a listening socket does with a handshake packet: it
-- answers a request with a cookie, and hands a peer that knows the cookie on to
-- CUDTUnited::newConnection, which is an interface here. A text is the list of its characters.
pub mod Cookies
mod Tests
use ninewire.Base.{
  ℕ, zero, suc, ◌+◌, ◌-◌, ◌/◌, ◌%◌, ◌^◌, Bool, true, false, ltb, ◌==◌, not, ◌&&◌, ◌||◌,
  if◌then◌else◌, ℤ, pos, negsuc, signed32, ◌-ℤ◌, eqb_ℤ, List, [], ◌∷◌, ◌++◌, get_or, Option, none,
  some,
}
use ninewire.Packet.{Packet, Payload, null, pad, buffer, get_flag, get_type}
use ninewire.Packet.HandShake.{HandShake, content_size, serialize, deserialize}

-- CUDTUnited (udt-sys/udt/api.cpp) as `listen` uses it: the result, the handshake as it is left
-- and the registry after the call. `opened` puts the socket into epoll's set for writing.
pub record Registry : Type 1 where
  pub S : Type 0
  pub new_connection : S → HandShake → ℤ × HandShake × S
  pub opened : S → S

-- What `listen` reads of the socket.
pub record Listener : Type 0 where
  pub closing : Bool
  pub version : ℕ
  pub sock_type : ℕ
  pub start_time : ℕ

-- The texts of a peer's address, and the first four bytes of the MD5 of a text, as a word.
pub record Peer : Type 0 where
  pub host : List ℕ
  pub port : List ℕ

-- A packet that is sent back: the field m_iID and the words of its content.
pub record Answer : Type 0 where
  pub id : ℕ
  pub words : List ℕ

-- `cookiestr << timestamp`, with fuel for the number of digits.
unfoldable pub digits : ℕ → ℕ → List ℕ → List ℕ
digits zero n text = text
digits (suc fuel) n text =
    let next = digits fuel (n / 10) ((48 + n % 10) ∷ text) in
    if ltb n 10 then (48 + n) ∷ text else next

unfoldable pub decimal : ℤ → List ℕ
unfolding digits
decimal (pos n) = digits 20 n []
decimal (negsuc n) = 45 ∷ digits 20 (suc n) []

-- `clienthost << ":" << clientport << ":" << timestamp`
unfoldable pub cookie_text : Peer → ℤ → List ℕ
unfolding decimal
cookie_text peer timestamp = peer.host ++ 58 ∷ peer.port ++ 58 ∷ decimal timestamp

-- The minutes since the start.
unfoldable pub minute : Listener → ℕ → ℤ
minute l now = pos ((now + 2 ^ 64 - l.start_time) % 2 ^ 64 / 60000000)

abbrev pub content : Payload → List ℕ
content null = []
content pad = 0 ∷ []
content (buffer b) = b

module _ (md5 : List ℕ → ℕ) where
  -- Whether a handshake's cookie is accepted: that of the text for this minute, or of this text
  -- with the one for the minute before behind it, since the stream is not emptied in between.
  unfoldable pub knows_cookie : Peer → ℤ → HandShake → Bool
  unfolding cookie_text ◌-ℤ◌
  knows_cookie peer timestamp hs =
      let text = cookie_text peer timestamp in
      hs.cookie == md5 text || hs.cookie == md5 (text ++ cookie_text peer (timestamp -ℤ pos 1))

  -- The content of a packet with a handshake written into it.
  abbrev pub write : HandShake → List ℕ → ℕ → List ℕ
  write hs buf size = elim (serialize hs buf size) [ none ↦ buf | some r ↦ r.0 ]

  module _ (g : Registry) where
    open g use {S}

    -- `id` is that of the handshake as it came.
    unfoldable pub answer_new : HandShake → List ℕ → ℕ → ℤ × HandShake × S → ℤ × S × List Answer
    unfolding serialize
    answer_new hs buf id (result, left, s) =
        let told = if eqb_ℤ result (negsuc 0) then record left { req_type = 1002 } else left in
        if eqb_ℤ result (pos 1) then (signed32 told.req_type, g.opened s, []) else (
          signed32 told.req_type,
          s,
          record { id = id; words = write told buf content_size } ∷ [],
        )

    -- From `int32_t id = hs.m_iID` on.
    unfoldable pub accept_peer : Listener → HandShake → Packet → S → ℤ × S × List Answer
    unfolding serialize answer_new get_flag get_type
    accept_peer l hs p s =
        let buf = content p.payload in
        let refused = record hs { req_type = 1002 } in
        if get_flag p == 1 && get_type p == 0
        then if not (hs.version == l.version) || not (hs.type == l.sock_type)
          then (pos 1002, s, record { id = hs.id; words = write refused buf content_size } ∷ [])
          else answer_new hs buf hs.id (g.new_connection s hs)
        else (signed32 hs.req_type, s, [])

    -- Past the first tests; a packet of the right length is always parsed.
    unfoldable pub listen_handshake :
        Listener → Peer → HandShake → Packet → ℕ → S → ℤ × S × List Answer
    unfolding serialize minute cookie_text knows_cookie accept_peer
    listen_handshake l peer hs p now s =
        let asked = record hs { cookie = md5 (cookie_text peer (minute l now)) } in
        if hs.req_type == 1
        then (pos 0, s, record { id = hs.id; words = write asked (content p.payload) p.len } ∷ [])
        else if knows_cookie peer (minute l now) hs
        then accept_peer l hs p s
        else (negsuc 0, s, [])

    unfoldable pub listen : Listener → Peer → Packet → ℕ → S → ℤ × S × List Answer
    unfolding deserialize listen_handshake
    listen l peer p now s =
        let parsed = deserialize (content p.payload) p.len in
        if l.closing
        then (pos 1002, s, [])
        else if not (p.len == content_size)
        then (pos 1004, s, [])
        else elim parsed [ none ↦ (pos 1004, s, []) | some hs ↦ listen_handshake l peer hs p now s ]
