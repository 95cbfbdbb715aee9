-- ===== src/RcvBuffer/Tests.antt =====
-- Runs of CRcvBuffer (udt-sys/udt/buffer.cpp) at concrete packets.
use ninewire.Base.{ℕ, ◌+◌, ◌*◌, ◌^◌, ◌≡◌, refl, arith, pos, List, [], ◌∷◌}
use ninewire.Packet.{buffer}
use ninewire.RcvBuffer.{RcvBuffer, PacketUnit, new, add_data, ack_data, drop_msg}
use ninewire.RcvBuffer.Read.{read_msg, get_rcv_msg_num, skip_bad}
use ninewire.RcvBuffer.Skip.{Settled, Skipped, skip_bad-Settled}

-- A unit with a packet of message 5: its boundary bits and its bytes.
abbrev packet_unit : ℕ → List ℕ → PacketUnit
packet_unit bits bytes = record {
  packet = record {
    word0 = 0;
    word1 = bits * 2 ^ 30 + 5;
    word2 = 0;
    word3 = 0;
    payload = buffer bytes;
    len = 2;
  };
  flag = 0;
}

abbrev fresh : RcvBuffer
fresh =
    new
      (packet_unit 2 (10 ∷ 11 ∷ [])
        ∷ packet_unit 1 (12 ∷ 13 ∷ [])
        ∷ packet_unit 3 (14 ∷ 15 ∷ [])
        ∷ [])
      (pos 0) 4

abbrev two_arrived : RcvBuffer
two_arrived = (add_data (add_data fresh 1 1).0 0 0).0

-- A message of two packets that came in the wrong order is read in one piece.
reads_message : (read_msg (ack_data two_arrived 2) 100).1 ≡ 10 ∷ 11 ∷ 12 ∷ 13 ∷ []
unfolding read_msg ack_data add_data new
reads_message = refl

-- Without its first packet there is no message.
needs_first_packet : (get_rcv_msg_num (ack_data (add_data fresh 1 1).0 2)).1 ≡ 0
unfolding get_rcv_msg_num ack_data add_data new
needs_first_packet = refl

-- The number of a message alone does not meet the word of its packets.
drop_misses_the_message : drop_msg two_arrived 5 ≡ two_arrived
unfolding drop_msg add_data new
drop_misses_the_message = refl

abbrev wrapped : RcvBuffer
wrapped = record fresh { start_pos = 3; last_ack_pos = 3 }

skip_bad-Settled_example :
    let b = ack_data (add_data fresh 1 1).0 2 in Settled (skip_bad 4 b) × Skipped b (skip_bad 4 b)
unfolding ack_data add_data new
skip_bad-Settled_example =
    skip_bad-Settled (ack_data (add_data fresh 1 1).0 2) (omega arith) (omega arith)
