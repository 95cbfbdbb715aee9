-- ===== src/Connection/Flags.antt =====
-- udt-sys/udt/core.cpp: the flags of CUDT, and the handlers that leave them as they are.
use ninewire.Base.{
  ℕ, zero, suc, ◌+◌, ◌≡◌, refl, ◌∙◌, Bool, true, false, ltb, leb, ◌==◌, ◌&&◌, ◌||◌, Bool-cases, inl,
  inr, if◌then◌else◌, ℤ, pos, ltb_ℤ, leb_ℤ, List, get_or, length, pos_part, Option, none, some, ◌*◌,
  ◌-◌,
}
use ninewire.Packet.{Packet}
use ninewire.SeqNo.{seqoff, seqlen, incseq}
use ninewire.RcvBuffer.{no_unit, add_data, get_avail_buf_size}
use ninewire.SndLossList.Remove.{get_lost_seq}
use ninewire.SndBuffer.{get_curr_buf_size, Resend, expired, resend, Block, read_data, reread_data}
use ninewire.Connection.{Congestion, TimeWindow, Udt, Status, CtrlPacket, int_at}
use ninewire.Connection.Send.{send_ack}
use ninewire.Connection.Receive.{
  process_ack2, light_ack, send_ack2, take_window, free_data, accept_ack, note_ack, update_rtt,
  update_rates,
}
use ninewire.Connection.Loss.{decode, take_entry, bad_entry, is_range, note_loss, note_range}
use ninewire.Connection.Data.{
  process_data, pack_data, pack_lost, pack_new, send_new, send_lost, send_window, lateness,
  accept_data, note_arrival,
}
use ninewire.Connection.Timers.{
  process_drop, check_ack, check_expiration, next_exp_time, give_up, expire, lose_all,
}

-- No flag is taken back.
pub record Later (s s' : Status) : Type 0 where
  pub closing : s.closing ≡ true → s'.closing ≡ true
  pub shutdown : s.shutdown ≡ true → s'.shutdown ≡ true
  pub broken : s.broken ≡ true → s'.broken ≡ true
  pub unhealthy : s.peer_health ≡ false → s'.peer_health ≡ false

pub same-Later : (s s' : Status) → s' ≡ s → Later s s'
same-Later s s' e =
    rw e (record { closing = λ h. h; shutdown = λ h. h; broken = λ h. h; unhealthy = λ h. h })

pub Later-trans : {a b c : Status} → Later a b → Later b c → Later a c
Later-trans p q = record {
  closing = λ h. q.closing (p.closing h);
  shutdown = λ h. q.shutdown (p.shutdown h);
  broken = λ h. q.broken (p.broken h);
  unhealthy = λ h. q.unhealthy (p.unhealthy h);
}

pub if-same : {A : Type 0} (b : Bool) (x : A) → (if b then x else x) ≡ x
if-same true x = refl
if-same false x = refl

module _ {C W : Type 0} where
  pub status-if :
      (b : Bool) (x y : Udt C W) → (if b then x else y).status ≡ (if b then x.status else y.status)
  status-if true x y = refl
  status-if false x y = refl

  note_range-status : (u : Udt C W) (a b : ℤ) → (note_range u a b).status ≡ u.status
  unfolding note_range note_loss
  note_range-status u a b = simp (status-if, if-same)

  take_entry-status :
      (u : Udt C W) (words : List ℕ) (i : ℕ) → (take_entry u words i).status ≡ u.status
  unfolding take_entry
  take_entry-status u words i = simp (status-if, if-same)

module _ (k : Congestion) {W : Type 0} where
  open k use {C}

  note_ack-status :
      (u : Udt C W) (a : ℤ) (p : CtrlPacket) (b : ℕ) → (note_ack k u a p b).status ≡ u.status
  unfolding note_ack update_rates update_rtt
  note_ack-status u a p b = simp (status-if, if-same)

  take_window-status : (u : Udt C W) (a b : ℤ) → (take_window k u a b).status ≡ u.status
  unfolding take_window
  take_window-status u a b = simp (status-if, if-same)

  pub accept_ack-status :
      (u : Udt C W) (a : ℤ) (p : CtrlPacket) (b c : ℕ) → (accept_ack k u a p b c).status ≡ u.status
  unfolding accept_ack free_data
  accept_ack-status u a p b c =
      let u' = take_window k u a (int_at p.words 3) in
      let same = take_window-status u a (int_at p.words 3) in
      elim (Bool-cases (leb_ℤ (seqoff u'.snd_last_data_ack a) (pos 0))) [
        | inl e ↦ rw e same
        | inr e ↦ rw e (note_ack-status (free_data k u' a b) a p c ∙ same)
      ]

  pub send_ack2-status : (u : Udt C W) (a : ℤ) (b c : ℕ) → (send_ack2 k u a b c).status ≡ u.status
  unfolding send_ack2
  send_ack2-status u a b c = simp (status-if, if-same)

  pub light_ack-status : (u : Udt C W) (a : ℤ) → (light_ack k u a).status ≡ u.status
  unfolding light_ack
  light_ack-status u a = simp (status-if, if-same)

  pub process_ack2-status :
      (u : Udt C W) (p : CtrlPacket) (a : ℕ) → (process_ack2 k u p a).status ≡ u.status
  unfolding process_ack2
  process_ack2-status u p a = simp (status-if, if-same)

  pub decode-status :
      (f : ℕ) (u : Udt C W) (words : List ℕ) (i n : ℕ) → (decode f u words i n).0.status ≡ u.status
  unfolding decode
  decode-status zero u words i n = refl
  decode-status (suc f) u words i n = elim (Bool-cases (leb n i)) [
    | inl e ↦ rw e refl
    | inr e ↦ elim (Bool-cases (bad_entry u words i)) [
      | inl b ↦ rw (e, b) refl
      | inr b ↦
          rw (e, b)
            (decode-status f (take_entry u words i) words
                (if is_range words i then i + 2 else i + 1) n
              ∙ take_entry-status u words i)
    ]
  ]

  send_lost-status :
      (u : Udt C W) (a : ℤ) (b : ℕ) (r : Resend) → (send_lost k u a b r).0.status ≡ u.status
  unfolding send_lost
  send_lost-status u a b (expired m n) = refl
  send_lost-status u a b (resend c) = elim (Bool-cases (length c.payload == 0)) [
    | inl e ↦ rw e refl
    | inr e ↦ rw e refl
  ]

  pack_lost-status : (u : Udt C W) (a : ℤ) (b c : ℕ) → (pack_lost k u a b c).0.status ≡ u.status
  unfolding pack_lost
  pack_lost-status u a b c =
      let offset = seqoff u.snd_last_data_ack a in
      let r = reread_data u.snd_buffer (pos_part offset) c in
      elim (Bool-cases (ltb_ℤ offset (pos 0))) [
        | inl e ↦ rw e refl
        | inr e ↦ rw e (send_lost-status (record u { snd_buffer = r.1 }) a b r.0)
      ]

  send_new-status :
      (u : Udt C W) (a : ℕ) (r : Option Block) → (send_new k u a r).0.status ≡ u.status
  unfolding send_new
  send_new-status u a none = refl
  send_new-status u a (some c) = elim (Bool-cases (length c.payload == 0)) [
    | inl e ↦ rw e refl
    | inr e ↦ rw e refl
  ]

  pack_new-status : (u : Udt C W) (a : ℕ) → (pack_new k u a).0.status ≡ u.status
  unfolding pack_new
  pack_new-status u a =
      let r = read_data u.snd_buffer in
      elim (Bool-cases
        (leb_ℤ (seqlen u.snd_last_ack (incseq u.snd_curr_seq_no)) (send_window k u))) [
          | inl e ↦ rw e (send_new-status (record u { snd_buffer = r.1 }) a r.0)
          | inr e ↦ rw e refl
        ]

  pub pack_data-status : (u : Udt C W) (a b : ℕ) → (pack_data k u a b).0.status ≡ u.status
  unfolding pack_data
  pack_data-status u a b =
      let r = get_lost_seq u.snd_loss_list in
      let u' = record u { time_diff = lateness k u a; snd_loss_list = r.0 } in
      elim (Bool-cases (leb_ℤ (pos 0) r.1)) [
        | inl e ↦ rw e (pack_lost-status u' r.1 a b)
        | inr e ↦ rw e (pack_new-status u' a)
      ]

  lose_all-status : (u : Udt C W) → (lose_all k u).status ≡ u.status
  unfolding lose_all
  lose_all-status u = simp (status-if, if-same)

  pub expire-status : (u : Udt C W) (a b : ℕ) → (expire k u a b).status ≡ u.status
  unfolding expire
  expire-status u a b = elim (Bool-cases (ltb 0 (get_curr_buf_size u.snd_buffer))) [
    | inl e ↦ rw e (lose_all-status u)
    | inr e ↦ rw e refl
  ]

  pub process_drop-status : (u : Udt C W) (p : CtrlPacket) → (process_drop k u p).status ≡ u.status
  unfolding process_drop
  process_drop-status u p = refl

  give_up-Later : (u : Udt C W) → Later u.status (give_up k u).status
  unfolding give_up
  give_up-Later u = record {
    closing = λ h. refl;
    shutdown = λ h. h;
    broken = λ h. refl;
    unhealthy = λ h. h;
  }

  pub check_expiration-Later :
      (u : Udt C W) (a b : ℕ) → Later u.status (check_expiration k u a b).status
  unfolding check_expiration
  check_expiration-Later u a b = elim (Bool-cases (ltb (next_exp_time k u) a)) [
    | inr e ↦ rw e (same-Later u.status _ refl)
    | inl e ↦
        elim (Bool-cases
          (ltb 16 u.exp_count && ltb (5000000 * u.cpu_frequency) (a - u.last_rsp_time))) [
            | inl f ↦ rw (e, f) (give_up-Later u)
            | inr f ↦ rw (e, f) (same-Later u.status _ (expire-status u a b))
          ]
  ]

module _ (k : Congestion) (t : TimeWindow) where
  open k use {C}
  open t use {W}

  send_ack-status : (u : Udt C W) (a b c : ℕ) → (send_ack k t u a b c).status ≡ u.status
  unfolding send_ack
  send_ack-status u a b c = simp (status-if, if-same)

  pub check_ack-status : (u : Udt C W) (a b c : ℕ) → (check_ack k t u a b c).status ≡ u.status
  unfolding check_ack
  check_ack-status u a b c = simp (status-if, if-same)

  accept_data-status :
      (u : Udt C W) (p : Packet) (a : ℕ) → (accept_data k t u p a).status ≡ u.status
  unfolding accept_data
  accept_data-status u p a = simp (status-if, if-same)

  pub process_data-status :
      (u : Udt C W) (a b c d : ℕ) → (process_data k t u a b c d).0.status ≡ u.status
  unfolding process_data note_arrival
  process_data-status u a b c d =
      let p = (get_or u.rcv_buffer.units a no_unit).packet in
      let offset = seqoff u.rcv_last_ack (pos p.word0) in
      let r = add_data u.rcv_buffer a (pos_part offset) in
      let refused = ltb_ℤ offset (pos 0) || leb_ℤ (pos (get_avail_buf_size u.rcv_buffer)) offset in
      elim (Bool-cases refused) [
        | inl e ↦ rw e refl
        | inr e ↦ elim (Bool-cases (ltb_ℤ r.1 (pos 0))) [
          | inl f ↦ rw (e, f) refl
          | inr f ↦
              rw (e, f)
                (accept_data-status (record (note_arrival k t u p b c) { rcv_buffer = r.0 }) p d)
        ]
      ]
