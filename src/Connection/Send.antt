-- ===== src/Connection/Send.antt =====
-- udt-sys/udt/core.cpp: CUDT::sendCtrl, for the packets with a state of their own: acknowledgements
-- and loss reports. The other types are a single effect where they are sent.
use ninewire.Base.{
  ℕ, ◌+◌, ◌-◌, ◌*◌, ◌/◌, ◌%◌, ◌^◌, ltb, ◌&&◌, if◌then◌else◌, [], ◌∷◌, ◌++◌, length, none, some, ℤ,
  pos, pos_part, ◌+ℤ◌, eqb_ℤ, ltb_ℤ, scale, to_word, to_word64,
}
use ninewire.AckWindow.{store}
use ninewire.RcvBuffer.{get_avail_buf_size}
use ninewire.RcvBuffer
use ninewire.RcvLossList.Query.{get_first_lost_seq, get_loss_array}
use ninewire.SeqNo.{seqcmp, seqoff, incseq, incack}
use ninewire.Connection.{Congestion, TimeWindow, send, readable, Udt, emit}

module _ (k : Congestion) (t : TimeWindow) where
  open k use {C}
  open t use {W}

  -- The number that an acknowledgement reports: the first one that is missing.
  unfoldable pub ack_to_send : Udt C W → ℤ
  unfolding incseq get_first_lost_seq
  ack_to_send u =
      if eqb_ℤ u.rcv_loss_list.loss_length (pos 0)
      then incseq u.rcv_curr_seq_no
      else get_first_lost_seq u.rcv_loss_list

  -- `sendCtrl(2, NULL, NULL, 4)`
  unfoldable pub send_light_ack : Udt C W → Udt C W
  unfolding ack_to_send to_word
  send_light_ack u =
      let ack = ack_to_send u in
      if eqb_ℤ ack u.rcv_last_ack_ack then u else emit u (send 2 none (to_word ack ∷ []))

  -- There are new packets to acknowledge.
  unfoldable pub advance_ack : Udt C W → ℤ → Udt C W
  unfolding seqoff RcvBuffer.ack_data
  advance_ack u ack =
      emit
        (record u {
          rcv_last_ack = ack;
          rcv_buffer = RcvBuffer.ack_data u.rcv_buffer (pos_part (seqoff u.rcv_last_ack ack));
        })
        readable

  -- `(m_iRTT + 4 * m_iRTTVar) * m_ullCPUFrequency`, an uint64_t
  unfoldable pub ack_wait : Udt C W → ℕ
  unfolding ◌+ℤ◌ scale to_word64
  ack_wait u = to_word64 (u.rtt +ℤ scale 4 u.rtt_var) * u.cpu_frequency % 2 ^ 64

  -- The acknowledgement itself; a minimum window of 2 is reported.
  unfoldable pub report_ack : Udt C W → ℕ → ℕ → ℕ → Udt C W
  unfolding incack store get_avail_buf_size to_word
  report_ack u currtime clock now =
      let number = incack u.ack_seq_no in
      let window = get_avail_buf_size u.rcv_buffer in
      let words =
        to_word u.rcv_last_ack
        ∷ to_word u.rtt
        ∷ to_word u.rtt_var
        ∷ (if ltb window 2 then 2 else window)
        ∷ [] in
      let rates = to_word (t.get_pkt_rcv_speed u.times) ∷ to_word (t.get_bandwidth u.times) ∷ [] in
      let late = ltb u.syn_int (currtime - u.last_ack_time) in
      let sent = emit u (send 2 (some number) (if late then words ++ rates else words)) in
      record sent {
        ack_seq_no = number;
        last_ack_time = if late then clock else u.last_ack_time;
        ack_window = store u.ack_window now number u.rcv_last_ack;
        trace = record u.trace { sent_ack_total = u.trace.sent_ack_total + 1 };
      }

  -- The report is left out if the peer is known to have received it.
  unfoldable pub report_if_new : Udt C W → ℕ → ℕ → ℕ → Udt C W
  unfolding report_ack seqcmp
  report_if_new u currtime clock now =
      if ltb_ℤ (pos 0) (seqcmp u.rcv_last_ack u.rcv_last_ack_ack)
      then report_ack u currtime clock now
      else u

  -- `sendCtrl(2)`; `clock` is its second reading of the clock, `now` that of `store`.
  unfoldable pub send_ack : Udt C W → ℕ → ℕ → ℕ → Udt C W
  unfolding ack_to_send advance_ack ack_wait report_if_new seqcmp
  send_ack u currtime clock now =
      let ack = ack_to_send u in
      if eqb_ℤ ack u.rcv_last_ack_ack
      then u
      else if ltb_ℤ (pos 0) (seqcmp ack u.rcv_last_ack)
      then report_if_new (advance_ack u ack) currtime clock now
      else if eqb_ℤ ack u.rcv_last_ack
      then if ltb (currtime - u.last_ack_time) (ack_wait u)
        then u
        else report_if_new u currtime clock now
      else u

  -- The time to the next loss report.
  unfoldable pub next_nak_int : Udt C W → ℕ
  unfolding ack_wait
  next_nak_int u =
      let speed = t.get_pkt_rcv_speed u.times in
      let base = ack_wait u in
      let waited =
        if ltb_ℤ (pos 0) speed
        then base
          + pos_part u.rcv_loss_list.loss_length * 1000000 / pos_part speed * u.cpu_frequency
        else base in
      if ltb waited u.min_nak_int then u.min_nak_int else waited

  abbrev count_nak : Udt C W → Udt C W
  count_nak u = record u { trace = record u.trace { sent_nak_total = u.trace.sent_nak_total + 1 } }

  -- `sendCtrl(3, NULL, lossdata, 1 or 2)`: the report of one range, as soon as it is found.
  unfoldable pub send_loss : Udt C W → ℤ → ℤ → Udt C W
  unfolding next_nak_int to_word
  send_loss u seq1 seq2 =
      let words =
        if eqb_ℤ seq1 seq2
        then to_word seq2 ∷ []
        else (to_word seq1 % 2 ^ 31 + 2 ^ 31) ∷ to_word seq2 ∷ [] in
      let sent = count_nak (emit u (send 3 none words)) in
      record sent { nak_int = next_nak_int sent }

  -- `sendCtrl(3)`: the periodical report of the whole list.
  unfoldable pub send_loss_list : Udt C W → Udt C W
  unfolding next_nak_int get_loss_array
  send_loss_list u =
      let words = get_loss_array u.rcv_loss_list (u.payload_size / 4) in
      let sent =
        if ltb_ℤ (pos 0) u.rcv_loss_list.loss_length && ltb 0 (length words)
        then count_nak (emit u (send 3 none words))
        else u in
      record sent { nak_int = next_nak_int sent }
