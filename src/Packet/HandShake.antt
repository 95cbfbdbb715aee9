-- ===== src/Packet/HandShake.antt =====
-- udt-sys/udt/packet.cpp: CHandShake, twelve 32-bit words in the payload of a handshake packet. A
-- buffer is the list of its words; `size` counts bytes.
use ninewire.Base.{
  ℕ, ◌≤◌, ◌<◌, ◌≡◌, refl, arith, ltb, if◌then◌else◌, Option, none, some, List, [], ◌∷◌, ◌++◌, drop,
  get_or,
}

pub record HandShake : Type 0 where
  pub version : ℕ
  pub type : ℕ
  pub isn : ℕ
  pub mss : ℕ
  pub flight_flag_size : ℕ
  pub req_type : ℕ
  pub id : ℕ
  pub cookie : ℕ
  pub peer_ip : List ℕ

abbrev pub content_size : ℕ
content_size = 48

-- The words that `serialize` stores, in order; the address is an array of four.
unfoldable pub words : HandShake → List ℕ
words h =
    h.version
    ∷ h.type
    ∷ h.isn
    ∷ h.mss
    ∷ h.flight_flag_size
    ∷ h.req_type
    ∷ h.id
    ∷ h.cookie
    ∷ get_or h.peer_ip 0 0
    ∷ get_or h.peer_ip 1 0
    ∷ get_or h.peer_ip 2 0
    ∷ get_or h.peer_ip 3 0
    ∷ []

-- The buffer and the size after the call; `none` is the result -1.
unfoldable pub serialize : HandShake → List ℕ → ℕ → Option (List ℕ × ℕ)
unfolding words
serialize h buf size =
    if ltb size content_size then none else some (words h ++ drop 12 buf, content_size)

unfoldable pub deserialize : List ℕ → ℕ → Option HandShake
deserialize buf size =
    if ltb size content_size
    then none
    else some (record {
      version = get_or buf 0 0;
      type = get_or buf 1 0;
      isn = get_or buf 2 0;
      mss = get_or buf 3 0;
      flight_flag_size = get_or buf 4 0;
      req_type = get_or buf 5 0;
      id = get_or buf 6 0;
      cookie = get_or buf 7 0;
      peer_ip = get_or buf 8 0 ∷ get_or buf 9 0 ∷ get_or buf 10 0 ∷ get_or buf 11 0 ∷ [];
    })

-- A handshake with an address of four words, written into any buffer of at least 48 bytes, reads
-- back unchanged from it at the written size; the words behind the handshake stay. A smaller
-- buffer is refused in both directions.
pub deserialize-serialize :
    (h : HandShake) (a b c d : ℕ) (buf : List ℕ) (size : ℕ)
    → h.peer_ip ≡ a ∷ b ∷ c ∷ d ∷ []
    → ((content_size ≤ size)
        → (out : List ℕ) × (serialize h buf size ≡ some (out, content_size))
          × (deserialize out content_size ≡ some h)
          × (drop 12 out ≡ drop 12 buf))
      × (size < content_size → (serialize h buf size ≡ none) × (deserialize buf size ≡ none))
unfolding serialize deserialize words
deserialize-serialize h a b c d buf size e =
    (λ big. (words h ++ drop 12 buf, ground arith, ground arith, refl), λ small. ground arith)
