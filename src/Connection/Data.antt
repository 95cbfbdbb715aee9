-- ===== src/Connection/Data.antt =====
-- udt-sys/udt/core.cpp: CUDT::packData and CUDT::processData.
use ninewire.Base.{
  ℕ, ◌+◌, ◌-◌, ◌%◌, Bool, true, false, ltb, leb, ◌==◌, not, ◌&&◌, ◌||◌, if◌then◌else◌, [], ◌∷◌,
  get_or, length, Option, none, some, ℤ, pos, pos_part, ◌+ℤ◌, ◌-ℤ◌, ltb_ℤ, leb_ℤ, to_word,
}
use ninewire.Packet.{Packet}
use ninewire.RcvBuffer.{no_unit, add_data, get_avail_buf_size}
use ninewire.RcvLossList
use ninewire.RcvLossList.Remove
use ninewire.SeqNo.{seqcmp, seqoff, seqlen, incseq, decseq, incseq_by}
use ninewire.SndBuffer.{Block, Resend, expired, resend, read_data, reread_data}
use ninewire.SndLossList.Remove as SndRemove
use ninewire.Connection.{Congestion, TimeWindow, send, Udt, emit}
use ninewire.Connection.Send.{send_loss}

-- What packData leaves: no packet, with the next time if it was reset to 0, or a packet with its
-- sequence number, its block and the time of the next one.
pub data Packed : Type 0 where
  nothing : Packed
  idle : Packed
  packed : ℤ → Block → ℕ → Packed

module _ (k : Congestion) {W : Type 0} where
  open k use {C}

  -- `m_ullTargetTime = 0; m_ullTimeDiff = 0; ts = 0;`
  unfoldable pub go_idle : Udt C W → Udt C W × Packed
  go_idle u = (record u { target_time = 0; time_diff = 0 }, idle)

  -- An expired message: tell the peer, and skip its packets.
  unfoldable pub drop_message : Udt C W → ℤ → ℕ → ℕ → Udt C W
  unfolding SndRemove.remove incseq incseq_by seqcmp to_word
  drop_message u seq msgno msglen =
      let last = incseq_by seq (pos msglen) in
      record (emit u (send 7 (some (pos msgno)) (to_word seq ∷ to_word last ∷ []))) {
        snd_loss_list = SndRemove.remove u.snd_loss_list last;
        snd_curr_seq_no =
            if ltb_ℤ (seqcmp u.snd_curr_seq_no (incseq last)) (pos 0)
            then incseq last
            else u.snd_curr_seq_no;
      }

  -- The time of the next packet, for one that is not the first of a probing pair.
  unfoldable pub finish_packet : Udt C W → ℤ → Block → Bool → ℕ → Udt C W × Packed
  finish_packet u seq b probe entertime =
      let counted = record u {
        cc = k.on_pkt_sent u.cc;
        trace = record u.trace { sent_total = u.trace.sent_total + 1 };
      } in
      let behind = leb u.interval u.time_diff in
      let ts = if probe || behind then entertime else entertime + u.interval - u.time_diff in
      let diff = if probe then u.time_diff else if behind then u.time_diff - u.interval else 0 in
      (record counted { time_diff = diff; target_time = ts }, packed seq b ts)

  -- What readData gives for a retransmission: an expired message or a block.
  unfoldable pub send_lost : Udt C W → ℤ → ℕ → Resend → Udt C W × Packed
  unfolding drop_message finish_packet
  send_lost u seq entertime (expired msgno msglen) = (drop_message u seq msgno msglen, nothing)
  send_lost u seq entertime (resend b) =
      if length b.payload == 0
      then (u, nothing)
      else finish_packet
          (record u { trace = record u.trace { retrans_total = u.trace.retrans_total + 1 } }) seq b
          false entertime

  -- A retransmission of `seq`; `now` is the time that readData asks for.
  unfoldable pub pack_lost : Udt C W → ℤ → ℕ → ℕ → Udt C W × Packed
  unfolding reread_data send_lost seqoff
  pack_lost u seq entertime now =
      let offset = seqoff u.snd_last_data_ack seq in
      let r = reread_data u.snd_buffer (pos_part offset) now in
      if ltb_ℤ offset (pos 0)
      then (u, nothing)
      else send_lost (record u { snd_buffer = r.1 }) seq entertime r.0

  -- The limit for new packets.
  unfoldable pub send_window : Udt C W → ℤ
  send_window u =
      if ltb_ℤ u.flow_window_size u.congestion_window
      then u.flow_window_size
      else u.congestion_window

  -- What readData gives for a new packet; 0 bytes count as none.
  unfoldable pub send_new : Udt C W → ℕ → Option Block → Udt C W × Packed
  unfolding go_idle finish_packet incseq
  send_new u entertime none = go_idle u
  send_new u entertime (some b) =
      let next = incseq u.snd_curr_seq_no in
      if length b.payload == 0
      then go_idle u
      else finish_packet (record u { snd_curr_seq_no = next; cc = k.set_snd_curr_seq_no u.cc next })
          next b (pos_part next % 16 == 0) entertime

  -- A new packet, if there is one and the windows allow it.
  unfoldable pub pack_new : Udt C W → ℕ → Udt C W × Packed
  unfolding read_data send_window go_idle send_new seqlen incseq
  pack_new u entertime =
      let r = read_data u.snd_buffer in
      if leb_ℤ (seqlen u.snd_last_ack (incseq u.snd_curr_seq_no)) (send_window u)
      then send_new (record u { snd_buffer = r.1 }) entertime r.0
      else go_idle u

  -- `m_ullTimeDiff`, with the time by which this packet is late.
  unfoldable pub lateness : Udt C W → ℕ → ℕ
  lateness u entertime =
      if not (u.target_time == 0) && ltb u.target_time entertime
      then u.time_diff + (entertime - u.target_time)
      else u.time_diff

  unfoldable pub pack_data : Udt C W → ℕ → ℕ → Udt C W × Packed
  unfolding SndRemove.get_lost_seq lateness pack_lost pack_new
  pack_data u entertime now =
      let r = SndRemove.get_lost_seq u.snd_loss_list in
      let u' = record u { time_diff = lateness u entertime; snd_loss_list = r.0 } in
      if leb_ℤ (pos 0) r.1 then pack_lost u' r.1 entertime now else pack_new u' entertime

module _ (k : Congestion) (t : TimeWindow) where
  open k use {C}
  open t use {W}

  -- What a packet tells before it is stored.
  unfoldable pub note_arrival : Udt C W → Packet → ℕ → ℕ → Udt C W
  note_arrival u p clock now =
      let arrived = t.on_pkt_arrival u.times now in
      let low = p.word0 % 16 in
      record u {
        exp_count = 1;
        last_rsp_time = clock;
        cc = k.on_pkt_received u.cc now p;
        pkt_count = u.pkt_count + 1;
        times =
            if low == 0
            then t.probe1_arrival arrived now
            else if low == 1
            then t.probe2_arrival arrived now
            else arrived;
        trace = record u.trace { recv_total = u.trace.recv_total + 1 };
      }

  -- The numbers between the largest one received and `seq` are missing.
  unfoldable pub detect_loss : Udt C W → ℤ → Udt C W
  unfolding RcvLossList.insert send_loss seqcmp seqlen incseq decseq ◌+ℤ◌ ◌-ℤ◌
  detect_loss u seq =
      let first = incseq u.rcv_curr_seq_no in
      let last = decseq seq in
      let lost = record u { rcv_loss_list = RcvLossList.insert u.rcv_loss_list first last } in
      let reported = send_loss k t lost first last in
      if ltb_ℤ (pos 0) (seqcmp seq first)
      then record reported {
        trace = record reported.trace {
          rcv_loss_total = reported.trace.rcv_loss_total +ℤ (seqlen u.rcv_curr_seq_no seq -ℤ pos 2);
        };
      }
      else u

  -- The largest number received moves on, or a gap is filled.
  unfoldable pub record_seq : Udt C W → ℤ → Udt C W
  unfolding Remove.remove seqcmp
  record_seq u seq =
      if ltb_ℤ (pos 0) (seqcmp seq u.rcv_curr_seq_no)
      then record u { rcv_curr_seq_no = seq }
      else record u { rcv_loss_list = (Remove.remove u.rcv_loss_list seq).1 }

  -- A packet that is stored; `clock'` is read for one that is not of the regular size.
  unfoldable pub accept_data : Udt C W → Packet → ℕ → Udt C W
  unfolding detect_loss record_seq
  accept_data u p clock' =
      let seq = pos p.word0 in
      let found = detect_loss u seq in
      let timed =
        if p.len == u.payload_size then found else record found { next_ack_time = clock' } in
      record_seq timed seq

  -- The result is false for a packet that is refused.
  unfoldable pub process_data : Udt C W → ℕ → ℕ → ℕ → ℕ → Udt C W × Bool
  unfolding note_arrival accept_data add_data get_avail_buf_size seqoff
  process_data u unit clock now clock' =
      let p = (get_or u.rcv_buffer.units unit no_unit).packet in
      let noted = note_arrival u p clock now in
      let offset = seqoff u.rcv_last_ack (pos p.word0) in
      let r = add_data u.rcv_buffer unit (pos_part offset) in
      let stored = record noted { rcv_buffer = r.0 } in
      if ltb_ℤ offset (pos 0) || leb_ℤ (pos (get_avail_buf_size u.rcv_buffer)) offset
      then (noted, false)
      else if ltb_ℤ r.1 (pos 0)
      then (stored, false)
      else (accept_data stored p clock', true)
