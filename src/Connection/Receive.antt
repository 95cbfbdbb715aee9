-- ===== src/Connection/Receive.antt =====
-- udt-sys/udt/core.cpp: CUDT::processCtrl, the cases of the acknowledgements.
use ninewire.Base.{
  ℕ, ◌+◌, ◌-◌, ◌%◌, ◌^◌, false, ltb, ◌==◌, ◌||◌, if◌then◌else◌, [], none, some, ℤ, pos, pos_part,
  ◌-ℤ◌, eqb_ℤ, ltb_ℤ, leb_ℤ, signed32,
}
use ninewire.AckWindow.{acknowledge}
use ninewire.Packet.{get_ack_seq_no}
use ninewire.SeqNo.{seqcmp, seqoff, incseq, decseq}
use ninewire.SndBuffer
use ninewire.SndLossList.Remove
use ninewire.Connection.{
  Congestion, send, writable, update_snd_list, Udt, CtrlPacket, emit, break_off, cc_update, int_at,
  smooth, smooth_var, syn_interval,
}

module _ (k : Congestion) {W : Type 0} where
  open k use {C}

  unfoldable pub light_ack : Udt C W → ℤ → Udt C W
  unfolding seqcmp seqoff ◌-ℤ◌
  light_ack u ack =
      if leb_ℤ (pos 0) (seqcmp ack u.snd_last_ack)
      then record u {
        flow_window_size = u.flow_window_size -ℤ seqoff u.snd_last_ack ack;
        snd_last_ack = ack;
      }
      else u

  -- Send an acknowledgement of the acknowledgement, though not for each one. The difference of the
  -- times is a uint64_t: it wraps if the first, of the cycles, is behind the second, of the clock.
  unfoldable pub send_ack2 : Udt C W → ℤ → ℕ → ℕ → Udt C W
  send_ack2 u number currtime now =
      if ltb syn_interval ((currtime + 2 ^ 64 - u.snd_last_ack2_time) % 2 ^ 64)
        || eqb_ℤ number u.snd_last_ack2
      then record (emit u (send 6 (some number) [])) {
        snd_last_ack2 = number;
        snd_last_ack2_time = now;
      }
      else u

  -- The flow window goes with the last acknowledgement.
  unfoldable pub take_window : Udt C W → ℤ → ℤ → Udt C W
  unfolding seqcmp
  take_window u ack window =
      if leb_ℤ (pos 0) (seqcmp ack u.snd_last_ack)
      then record u { flow_window_size = window; snd_last_ack = ack }
      else u

  -- What is acknowledged leaves the buffer and the loss list. The total time of sending is an int64_t,
  -- kept as its word.
  unfoldable pub free_data : Udt C W → ℤ → ℕ → Udt C W
  unfolding SndBuffer.ack_data Remove.remove seqoff decseq
  free_data u ack currtime =
      let spent = currtime + 2 ^ 64 - u.trace.snd_duration_counter in
      record u {
        snd_buffer = SndBuffer.ack_data u.snd_buffer (pos_part (seqoff u.snd_last_data_ack ack));
        snd_loss_list = Remove.remove u.snd_loss_list (decseq ack);
        snd_last_data_ack = ack;
        trace = record u.trace {
          snd_duration_total = (u.trace.snd_duration_total + spent) % 2 ^ 64;
          snd_duration_counter = currtime;
        };
      }

  unfoldable pub update_rtt : Udt C W → ℤ → Udt C W
  unfolding smooth smooth_var
  update_rtt u sample =
      let rtt = smooth u.rtt sample in
      record u { rtt_var = smooth_var u.rtt_var u.rtt sample; rtt = rtt; cc = k.set_rtt u.cc rtt }

  -- The rates that a long acknowledgement reports.
  unfoldable pub update_rates : Udt C W → ℤ → ℤ → Udt C W
  unfolding smooth
  update_rates u rate bandwidth =
      let rate' = if ltb_ℤ (pos 0) rate then smooth u.delivery_rate rate else u.delivery_rate in
      let bandwidth' =
        if ltb_ℤ (pos 0) bandwidth then smooth u.bandwidth bandwidth else u.bandwidth in
      record u {
        delivery_rate = rate';
        bandwidth = bandwidth';
        cc = k.set_bandwidth (k.set_rcv_rate u.cc rate') bandwidth';
      }

  -- The estimates and the congestion control, behind an acknowledgement of new data.
  unfoldable pub note_ack : Udt C W → ℤ → CtrlPacket → ℕ → Udt C W
  unfolding update_rtt update_rates cc_update
  note_ack u ack p now =
      let woken = emit (emit u writable) (update_snd_list false) in
      let timed = update_rtt woken (int_at p.words 1) in
      let rated =
        if ltb 16 p.packet.len
        then update_rates timed (int_at p.words 4) (int_at p.words 5)
        else timed in
      let told = cc_update k (record rated { cc = k.on_ack rated.cc now ack }) in
      record told { trace = record told.trace { recv_ack_total = told.trace.recv_ack_total + 1 } }

  -- The data acknowledgement, once its number is known to be valid.
  unfoldable pub accept_ack : Udt C W → ℤ → CtrlPacket → ℕ → ℕ → Udt C W
  unfolding take_window free_data note_ack seqoff
  accept_ack u ack p currtime now =
      let u' = take_window u ack (int_at p.words 3) in
      if leb_ℤ (seqoff u'.snd_last_data_ack ack) (pos 0)
      then u'
      else note_ack (free_data u' ack currtime) ack p now

  -- Case 2.
  unfoldable pub process_ack : Udt C W → CtrlPacket → ℕ → ℕ → Udt C W
  unfolding light_ack send_ack2 accept_ack break_off seqcmp incseq
  process_ack u p currtime now =
      let ack = int_at p.words 0 in
      let u' = send_ack2 u (signed32 (get_ack_seq_no p.packet)) currtime now in
      if p.packet.len == 4
      then light_ack u ack
      else if ltb_ℤ (pos 0) (seqcmp ack (incseq u'.snd_curr_seq_no))
      then break_off u'
      else accept_ack u' ack p currtime now

  -- Case 6.
  unfoldable pub process_ack2 : Udt C W → CtrlPacket → ℕ → Udt C W
  unfolding acknowledge update_rtt seqcmp
  process_ack2 u p now =
      let r = acknowledge u.ack_window now (signed32 (get_ack_seq_no p.packet)) in
      let found = record u { ack_window = r.2 } in
      let timed = update_rtt found r.0 in
      let ack : ℤ = elim r.1 [ none ↦ pos 0 | some a ↦ a ] in
      if leb_ℤ r.0 (pos 0)
      then found
      else if ltb_ℤ (pos 0) (seqcmp ack timed.rcv_last_ack_ack)
      then record timed { rcv_last_ack_ack = ack }
      else timed
