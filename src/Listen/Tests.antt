-- ===== src/Listen/Tests.antt =====
-- A listener that started at 0, with a sum in place of the MD5, and a registry that counts.
use ninewire.Base.{ℕ, ◌-◌, ◌+◌, ◌^◌, ◌≡◌, ◌⊎◌, refl, false, pos, negsuc, List, [], ◌∷◌, get_or}
use ninewire.Packet.{Packet, buffer}
use ninewire.Packet.HandShake.{HandShake, words}
use ninewire.Listen.{Registry, Listener, Peer, Answer, answer_new, listen}
use ninewire.Listen.Cookies.{Admitted, listen_admits, cookie_round_trip}

abbrev total : List ℕ → ℕ
total [] = 0
total (x ∷ xs) = x + total xs

abbrev counting : Registry
counting = record { S = ℕ; new_connection = λ s hs. (pos 1, hs, s + 1); opened = λ s. s }

abbrev server : Listener
server = record { closing = false; version = 4; sock_type = 1; start_time = 0 }

abbrev client : Peer
client = record { host = 49 ∷ []; port = 50 ∷ [] }

-- A connection request, and the same handshake with a cookie.
abbrev asks : HandShake
asks = record {
  version = 4;
  type = 1;
  isn = 7;
  mss = 1500;
  flight_flag_size = 16;
  req_type = 1;
  id = 99;
  cookie = 0;
  peer_ip = 1 ∷ 2 ∷ 3 ∷ 4 ∷ [];
}

abbrev brings : ℕ → HandShake
brings c = record asks { req_type = 2 ^ 32 - 1; cookie = c }

abbrev packet_of : HandShake → Packet
packet_of hs = record {
  word0 = 2 ^ 31;
  word1 = 0;
  word2 = 0;
  word3 = 0;
  payload = buffer (words hs);
  len = 48;
}

-- The cookie in minute 2: "1:2:2".
abbrev cookie_two : ℕ
cookie_two = total (49 ∷ 58 ∷ 50 ∷ 58 ∷ 50 ∷ [])

two_minutes :
    listen total counting server client (packet_of asks) 120_000_000 5
    ≡ (pos 0, 5, record { id = 99; words = words (record asks { cookie = cookie_two }) } ∷ [])
unfolding listen words
two_minutes = refl

-- The cookie is good for its own minute, and refused in the next one.
cookie_is_refused_a_minute_later :
    (listen total counting server client (packet_of (brings cookie_two)) 130_000_000 5
      ≡ (negsuc 0, 6, []))
    × (listen total counting server client (packet_of (brings cookie_two)) 180_000_000 5
        ≡ (negsuc 0, 5, []))
unfolding listen words
cookie_is_refused_a_minute_later = (refl, refl)

listen_admits_example :
    let s' =
      (listen total counting server client (packet_of (brings cookie_two)) 130_000_000 5).1 in
    (s' ≡ 5)
    ⊎ Admitted total counting server client (packet_of (brings cookie_two)) 130_000_000 5 s'
listen_admits_example =
    listen_admits total counting server client (packet_of (brings cookie_two)) 130_000_000 5

cookie_round_trip_example :
    let r = listen total counting server client (packet_of asks) 120_000_000 5 in
    (r.1 ≡ 5)
    × ((answer : Answer) × (r.2 ≡ answer ∷ [])
        × (answer.id ≡ 99)
        × (cookie_two ≡ get_or answer.words 7 0
            → listen total counting server client (packet_of (brings cookie_two)) 130_000_000 8
              ≡ answer_new total counting
                  (brings cookie_two)
                  (words (brings cookie_two))
                  99
                  (pos 1, brings cookie_two, 8 + 1)))
unfolding words listen
cookie_round_trip_example =
    cookie_round_trip total counting server client 120_000_000 130_000_000 5 8 refl (packet_of asks)
      (packet_of (brings cookie_two)) asks (brings cookie_two) refl refl refl refl refl refl refl
      refl refl refl
