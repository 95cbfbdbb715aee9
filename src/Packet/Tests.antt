-- ===== src/Packet/Tests.antt =====
-- Packets at concrete inputs.
use ninewire.Base.{ℕ, ◌≡◌, ◌⊎◌, ◌≤◌, ◌<◌, refl, arith, some, none, Option, List, [], ◌∷◌, drop}
use ninewire.Packet.{Packet, new, pack, pad, get_flag, get_type, get_extended_type}
use ninewire.Packet.Header.{get_type-pack}
use ninewire.Packet.HandShake.{
  HandShake, content_size, serialize, deserialize, deserialize-serialize,
}

ack2 :
    pack new 6 (some 9) none 0
    ≡ some (record new { word0 = 0x8006_0000; word1 = 9; payload = pad; len = 4 })
unfolding pack
ack2 = refl

get_type-pack_example :
    ((p : Packet)
      → pack new 6 (some 9) none 0 ≡ some p
      → (get_flag p ≡ 1)
        × (get_type p ≡ 6)
        × (get_extended_type p ≡ 0)
        × (p.word2 ≡ 0)
        × (p.word3 ≡ 0))
    × (pack new 6 (some 9) none 0 ≡ none
        → (◌≡◌ {A = Option ℕ} (some 9) none)
          × (◌≡◌ {A = ℕ} 6 6 ⊎ ◌≡◌ {A = ℕ} 6 7 ⊎ ◌≡◌ {A = ℕ} 6 8))
get_type-pack_example = get_type-pack new 6 (some 9) none 0 (omega arith)

abbrev hello : HandShake
hello = record {
  version = 4;
  type = 1;
  isn = 77;
  mss = 1500;
  flight_flag_size = 25600;
  req_type = 1;
  id = 12;
  cookie = 0;
  peer_ip = 1 ∷ 0 ∷ 0 ∷ 127 ∷ [];
}

deserialize-serialize_example :
    ((content_size ≤ 50)
      → (out : List ℕ) × (serialize hello (7 ∷ []) 50 ≡ some (out, content_size))
        × (deserialize out content_size ≡ some hello)
        × (drop 12 out ≡ drop 12 (7 ∷ [])))
    × (50 < content_size → (serialize hello (7 ∷ []) 50 ≡ none) × (deserialize (7 ∷ []) 50 ≡ none))
deserialize-serialize_example = deserialize-serialize hello 1 0 0 127 (7 ∷ []) 50 refl
