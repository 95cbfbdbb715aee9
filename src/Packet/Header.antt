-- ===== src/Packet/Header.antt =====
-- What a receiver reads from the header that CPacket::pack (udt-sys/udt/packet.cpp) wrote.
use ninewire.Base.{ℕ, ◌+◌, ◌*◌, ◌^◌, ◌<◌, ◌≡◌, ◌⊎◌, arith, Option, none, some, List}
use ninewire.Packet.{Packet, pack, get_flag, get_type, get_extended_type, control_word}

control_word_bits : (t : ℕ) → t < 2 ^ 15 → control_word t ≡ 2 ^ 31 + t * 2 ^ 16
unfolding control_word
control_word_bits t h = ground arith

fields :
    (t : ℕ) (old p : Packet)
    → t < 2 ^ 15
    → (p.word0 ≡ control_word t) × (p.word2 ≡ old.word2) × (p.word3 ≡ old.word3)
    → (get_flag p ≡ 1)
      × (get_type p ≡ t)
      × (get_extended_type p ≡ 0)
      × (p.word2 ≡ old.word2)
      × (p.word3 ≡ old.word3)
unfolding get_flag get_type get_extended_type
fields t old p h e = omega (arith, control_word_bits t h, e.0)

fails_only :
    (old : Packet) (t : ℕ) (lparam : Option ℕ) (rparam : Option (List ℕ)) (size : ℕ)
    → t < 32767
    → pack old t lparam rparam size ≡ none
    → (lparam ≡ none) × ((t ≡ 6) ⊎ (t ≡ 7) ⊎ (t ≡ 8))
unfolding pack
fails_only old t none none size h e = ground arith
fails_only old t none (some b) size h e = ground arith
fails_only old t (some i) none size h e = ground arith
fails_only old t (some i) (some b) size h e = ground arith

-- The words that `pack` leaves for every type but the extended one.
pack_words :
    (old p : Packet) (t : ℕ) (lparam : Option ℕ) (rparam : Option (List ℕ)) (size : ℕ)
    → t < 32767
    → pack old t lparam rparam size ≡ some p
    → (p.word0 ≡ control_word t) × (p.word2 ≡ old.word2) × (p.word3 ≡ old.word3)
unfolding pack
pack_words old p t none none size h e = ground arith
pack_words old p t none (some b) size h e = ground arith
pack_words old p t (some i) none size h e = ground arith
pack_words old p t (some i) (some b) size h e = ground arith

-- Packing any type of 15 bits but the extended one, where it does not fail, gives a packet that
-- reads back as a control packet of this type, with no extended type, and leaves the time stamp
-- and the socket ID. It fails only for a type that reads a missing information field.
pub get_type-pack :
    (old : Packet) (t : ℕ) (lparam : Option ℕ) (rparam : Option (List ℕ)) (size : ℕ)
    → t < 32767
    → ((p : Packet)
        → pack old t lparam rparam size ≡ some p
        → (get_flag p ≡ 1)
          × (get_type p ≡ t)
          × (get_extended_type p ≡ 0)
          × (p.word2 ≡ old.word2)
          × (p.word3 ≡ old.word3))
      × (pack old t lparam rparam size ≡ none → (lparam ≡ none) × ((t ≡ 6) ⊎ (t ≡ 7) ⊎ (t ≡ 8)))
get_type-pack old t lparam rparam size h = (
  λ p e. fields t old p (omega arith) (pack_words old p t lparam rparam size h e),
  fails_only old t lparam rparam size h,
)
