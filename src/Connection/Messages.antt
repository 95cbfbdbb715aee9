-- ===== src/Connection/Messages.antt =====
-- udt-sys/udt/core.cpp: CUDT::sendmsg and CUDT::recvmsg, the calls that the program makes.
-- `connected` is m_bConnected, and `buf_size` is m_iSndBufSize; -6001 and -6002 say that the call
-- would block.
mod Tests
use ninewire.Base.{
  ℕ, ◌+◌, ◌*◌, Bool, true, false, ltb, ◌==◌, not, ◌||◌, if◌then◌else◌, List, [], ◌∷◌, ◌++◌, length,
  ℤ, pos, negsuc, pos_part, scale, ◌-ℤ◌, ltb_ℤ, leb_ℤ,
}
use ninewire.Base.Results.{Result, ok, err}
use ninewire.RcvBuffer.Read.{read_msg}
use ninewire.SndBuffer.{add_buffer, get_curr_buf_size}
use ninewire.Connection.{Udt, Trace, update_snd_list, emit}

module _ {C W : Type 0} where
  -- The expiration timer starts again, if nothing waits for an acknowledgement.
  unfoldable pub delay_exp : Udt C W → ℕ → Udt C W
  delay_exp u clock =
      if get_curr_buf_size u.snd_buffer == 0 then record u { last_rsp_time = clock } else u

  -- The message goes into the buffer and the socket onto the list of senders.
  unfoldable pub queue_msg : Udt C W → List ℕ → ℕ → ℤ → Bool → ℕ → Udt C W
  unfolding add_buffer
  queue_msg u bytes len ttl in_order now =
      let trace =
        if get_curr_buf_size u.snd_buffer == 0
        then record u.trace { snd_duration_counter = now }
        else u.trace in
      emit
        (record u {
          trace = trace;
          snd_buffer = add_buffer u.snd_buffer bytes len ttl in_order now;
        })
        (update_snd_list false)

  -- `m_iSndBufSize - getCurrBufSize()`, in bytes
  unfoldable pub space_left : Udt C W → ℕ → ℤ
  unfolding scale ◌-ℤ◌
  space_left u buf_size =
      scale u.payload_size (pos buf_size -ℤ pos (get_curr_buf_size u.snd_buffer))

  unfoldable pub sendmsg : Bool → ℕ → Udt C W → List ℕ → ℤ → ℤ → Bool → ℕ → ℕ → Result (ℤ × Udt C W)
  unfolding delay_exp queue_msg space_left
  sendmsg connected buf_size u bytes len ttl in_order clock now =
      let u' = delay_exp u clock in
      if u.status.broken || u.status.closing
      then err 2 1
      else if not connected
      then err 2 2
      else if leb_ℤ len (pos 0)
      then ok (pos 0, u)
      else if ltb_ℤ (pos (buf_size * u.payload_size)) len
      then err 5 12
      else if ltb_ℤ (space_left u buf_size) len
      then ok (negsuc 6000, u')
      else ok (len, queue_msg u' bytes (pos_part len) ttl in_order now)

  -- The result, the bytes that were read and the connection.
  unfoldable pub recvmsg : Bool → Udt C W → ℤ → Result (ℤ × List ℕ × Udt C W)
  unfolding read_msg
  recvmsg connected u len =
      let r = read_msg u.rcv_buffer (pos_part len) in
      let res = length r.1 in
      let u' = record u { rcv_buffer = r.0 } in
      if not connected
      then err 2 2
      else if leb_ℤ len (pos 0)
      then ok (pos 0, [], u)
      else if u.status.broken || u.status.closing
      then if res == 0 then err 2 1 else ok (pos res, r.1, u')
      else if res == 0
      then ok (negsuc 6001, [], u')
      else ok (pos res, r.1, u')
