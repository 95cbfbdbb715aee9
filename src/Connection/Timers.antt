-- ===== src/Connection/Timers.antt =====
-- udt-sys/udt/core.cpp: CUDT::processCtrl as a whole, its short cases, and CUDT::checkTimers.
use ninewire.Base.{
  ℕ, ◌%◌, ◌^◌, ◌+◌, ◌-◌, ◌*◌, Bool, true, false, ltb, leb, ◌==◌, not, ◌&&◌, ◌||◌, if◌then◌else◌,
  List, [], none, some, pos, pos_part, minus_one, ◌+ℤ◌, eqb_ℤ, ltb_ℤ, leb_ℤ, scale, to_word64,
}
use ninewire.Packet.{get_type, get_msg_seq}
use ninewire.Packet.HandShake.{content_size}
use ninewire.RcvBuffer.{drop_msg}
use ninewire.RcvLossList.Remove.{remove_range}
use ninewire.SeqNo.{seqcmp, incseq}
use ninewire.SndBuffer.{get_curr_buf_size}
use ninewire.Connection.{
  Congestion, TimeWindow, send, both_events, update_snd_list, release_synch, Udt, CtrlPacket, emit,
  cc_update, int_at, syn_interval, self_clock_interval,
}
use ninewire.Connection.Send.{send_ack, send_light_ack}
use ninewire.Connection.Receive.{process_ack, process_ack2}
use ninewire.Connection.Loss.{process_nak, note_loss}

module _ (k : Congestion) {W : Type 0} where
  open k use {C}

  -- Case 5.
  unfoldable pub process_shutdown : Udt C W → Udt C W
  process_shutdown u =
      emit
        (record u {
          status = record u.status {
            shutdown = true;
            closing = true;
            broken = true;
            broken_counter = 60;
          };
        })
        release_synch

  -- Case 7.
  unfoldable pub process_drop : Udt C W → CtrlPacket → Udt C W
  unfolding drop_msg remove_range get_msg_seq seqcmp incseq
  process_drop u p =
      let seq1 = int_at p.words 0 in
      let seq2 = int_at p.words 1 in
      record u {
        rcv_buffer = drop_msg u.rcv_buffer (get_msg_seq p.packet);
        rcv_loss_list = (remove_range u.rcv_loss_list seq1 seq2).1;
        rcv_curr_seq_no =
            if leb_ℤ (seqcmp seq1 (incseq u.rcv_curr_seq_no)) (pos 0)
              && ltb_ℤ (pos 0) (seqcmp seq2 u.rcv_curr_seq_no)
            then seq2
            else u.rcv_curr_seq_no;
      }

  -- Case 4, with `slower` for `ceil(m_ullInterval * 1.125)`.
  unfoldable pub process_warning : (ℕ → ℕ) → Udt C W → Udt C W
  process_warning slower u = record u {
    interval = slower u.interval;
    last_dec_seq = u.snd_curr_seq_no;
  }

  -- Case 0: a packet that is too short is not read. `answer` is the handshake that is sent again to a peer that still asks.
  unfoldable pub process_handshake : Bool → List ℕ → Udt C W → CtrlPacket → Udt C W
  process_handshake rendezvous answer u p =
      let req_type = if ltb p.packet.len content_size then pos 0 else int_at p.words 5 in
      if ltb_ℤ (pos 0) req_type || (rendezvous && not (eqb_ℤ req_type (minus_one +ℤ minus_one)))
      then emit u (send 0 none answer)
      else u

  unfoldable pub dispatch : (ℕ → ℕ) → Bool → List ℕ → Udt C W → CtrlPacket → ℕ → ℕ → ℕ → Udt C W
  unfolding process_ack process_ack2 process_nak process_shutdown process_drop process_warning
      process_handshake cc_update
  dispatch slower rendezvous answer u p type clock now =
      if type == 2
      then process_ack k u p clock now
      else if type == 6
      then process_ack2 k u p now
      else if type == 3
      then process_nak k u p
      else if type == 4
      then process_warning slower u
      else if type == 0
      then process_handshake rendezvous answer u p
      else if type == 5
      then process_shutdown u
      else if type == 7
      then process_drop u p
      else if type == 8
      then record u { status = record u.status { peer_health = false } }
      else if type == 0x7FFF
      then cc_update k (record u { cc = k.process_custom_msg u.cc p.words })
      else u

  -- `processCtrl`; just heard from the peer, it resets the expiration count.
  unfoldable pub process_ctrl : (ℕ → ℕ) → Bool → List ℕ → Udt C W → CtrlPacket → ℕ → ℕ → Udt C W
  unfolding dispatch get_type
  process_ctrl slower rendezvous answer u p clock now =
      dispatch slower rendezvous answer (record u { exp_count = 1; last_rsp_time = clock }) p
        (get_type p.packet) clock now

  -- `exp_int`, an uint64_t.
  unfoldable pub exp_wait : Udt C W → ℕ
  unfolding scale ◌+ℤ◌ to_word64
  exp_wait u =
      let wait =
        to_word64 (scale u.exp_count (u.rtt +ℤ scale 4 u.rtt_var) +ℤ pos syn_interval)
        * u.cpu_frequency
        % 2 ^ 64 in
      let least = u.exp_count * u.min_exp_int % 2 ^ 64 in if ltb wait least then least else wait

  -- The time at which the peer counts as silent, an uint64_t.
  unfoldable pub next_exp_time : Udt C W → ℕ
  unfolding exp_wait to_word64
  next_exp_time u = elim (k.rto u.cc) [
    | some rto ↦ (u.last_rsp_time + to_word64 rto * u.cpu_frequency % 2 ^ 64) % 2 ^ 64
    | none ↦ (u.last_rsp_time + exp_wait u) % 2 ^ 64
  ]

  -- Too many expirations: the connection is broken.
  unfoldable pub give_up : Udt C W → Udt C W
  give_up u =
      emit
        (emit
          (emit
            (record u {
              status = record u.status { closing = true; broken = true; broken_counter = 30 };
            })
            (update_snd_list true))
          release_synch)
        both_events

  -- All packets without an acknowledgement are lost, if there is none in the loss list yet.
  unfoldable pub lose_all : Udt C W → Udt C W
  unfolding note_loss incseq
  lose_all u =
      if not (eqb_ℤ (incseq u.snd_curr_seq_no) u.snd_last_ack)
        && eqb_ℤ u.snd_loss_list.loss_length (pos 0)
      then note_loss u u.snd_last_ack u.snd_curr_seq_no
      else u

  -- The peer is silent: send again, or send a keep-alive packet.
  unfoldable pub expire : Udt C W → ℕ → ℕ → Udt C W
  unfolding lose_all cc_update
  expire u currtime now =
      let lost = lose_all u in
      let told = cc_update k (record lost { cc = k.on_timeout lost.cc now }) in
      let acted =
        if ltb 0 (get_curr_buf_size u.snd_buffer)
        then emit told (update_snd_list true)
        else emit u (send 1 none []) in
      record acted { exp_count = u.exp_count + 1; last_rsp_time = currtime }

  unfoldable pub check_expiration : Udt C W → ℕ → ℕ → Udt C W
  unfolding next_exp_time give_up expire
  check_expiration u currtime now =
      if ltb (next_exp_time u) currtime
      then if ltb 16 u.exp_count && ltb (5000000 * u.cpu_frequency) (currtime - u.last_rsp_time)
        then give_up u
        else expire u currtime now
      else u

module _ (k : Congestion) (t : TimeWindow) where
  open k use {C}
  open t use {W}

  -- The timer expired, or enough packets came.
  unfoldable pub ack_due : Udt C W → ℕ → Bool
  ack_due u clock =
      ltb u.next_ack_time clock
      || (ltb_ℤ (pos 0) (k.ack_interval u.cc) && leb_ℤ (k.ack_interval u.cc) (pos u.pkt_count))

  -- The acknowledgements; `clock'` is read again behind sending one.
  unfoldable pub check_ack : Udt C W → ℕ → ℕ → ℕ → Udt C W
  unfolding ack_due send_ack send_light_ack
  check_ack u clock clock' now =
      let sent = send_ack k t u clock clock now in
      let wait =
        if ltb_ℤ (pos 0) (k.ack_period sent.cc)
        then pos_part (k.ack_period sent.cc) * sent.cpu_frequency
        else sent.ack_int in
      if ack_due u clock
      then record sent { next_ack_time = clock' + wait; pkt_count = 0; light_ack_count = 1 }
      else if leb (self_clock_interval * u.light_ack_count) u.pkt_count
      then record (send_light_ack k t u) { light_ack_count = u.light_ack_count + 1 }
      else u

  unfoldable pub check_timers : Udt C W → ℕ → ℕ → ℕ → Udt C W
  unfolding ack_due check_ack check_expiration cc_update
  check_timers u clock clock' now =
      let u' = cc_update k u in
      check_expiration k (check_ack u' clock clock' now)
        (if ack_due u' clock then clock' else clock) now
