-- ===== src/Connection/Acks.antt =====
-- udt-sys/udt/core.cpp: what CUDT::processCtrl lets an acknowledgement do.
use ninewire.Base.{
  differ, ℕ, ◌+◌, ◌-◌, ◌%◌, ◌^◌, ◌≡◌, ◌⊎◌, inl, inr, refl, sym, subst, ap, ap₂, ◌∙◌, eqb_ℤ, arith,
  true, false, Bool-cases, ltb, ◌==◌, ◌||◌, ℤ, pos, pos_part, signed32, ltb_ℤ, leb_ℤ, ◌≤ℤ◌, ◌<ℤ◌,
}
use ninewire.SeqNo.{seqcmp, seqoff, incseq, decseq}
use ninewire.Packet.{get_ack_seq_no}
use ninewire.SndBuffer
use ninewire.SndLossList.Remove
use ninewire.Connection.{Congestion, Udt, CtrlPacket, int_at, break_off, syn_interval}
use ninewire.Connection.Receive.{
  light_ack, send_ack2, take_window, free_data, note_ack, accept_ack, process_ack, update_rtt,
  update_rates,
}

not_le : (a : ℤ) → leb_ℤ a (pos 0) ≡ false → pos 0 <ℤ a
not_le a h = ground (arith, h)

not_lt : (a : ℤ) → ltb_ℤ (pos 0) a ≡ false → a ≤ℤ pos 0
not_lt a h = ground (arith, h)

lt_test : (a : ℤ) → pos 0 <ℤ a → ltb_ℤ (pos 0) a ≡ true
lt_test a h = ground (arith, h)

-- The data that waits for an acknowledgement is the same.
pub record SameData {C W : Type 0} (u u' : Udt C W) : Type 0 where
  pub buffer : u'.snd_buffer ≡ u.snd_buffer
  pub loss_list : u'.snd_loss_list ≡ u.snd_loss_list
  pub last_data_ack : u'.snd_last_data_ack ≡ u.snd_last_data_ack

-- The packets up to `ack` are gone, which is later than the last number and was sent.
pub record Freed {C W : Type 0} (u : Udt C W) (ack : ℤ) (u' : Udt C W) : Type 0 where
  pub later : pos 0 <ℤ seqoff u.snd_last_data_ack ack
  pub was_sent : seqcmp ack (incseq u.snd_curr_seq_no) ≤ℤ pos 0
  pub buffer :
      u'.snd_buffer ≡ SndBuffer.ack_data u.snd_buffer (pos_part (seqoff u.snd_last_data_ack ack))
  pub loss_list : u'.snd_loss_list ≡ Remove.remove u.snd_loss_list (decseq ack)
  pub last_data_ack : u'.snd_last_data_ack ≡ ack

module _ (k : Congestion) {W : Type 0} where
  open k use {C}

  note_ack-SameData :
      (u : Udt C W) (ack : ℤ) (p : CtrlPacket) (now : ℕ) → SameData u (note_ack k u ack p now)
  unfolding note_ack update_rtt update_rates
  note_ack-SameData u ack p now = elim (Bool-cases (ltb 16 p.packet.len)) [
    | inl t ↦ rw t (record { buffer = refl; loss_list = refl; last_data_ack = refl })
    | inr t ↦ rw t (record { buffer = refl; loss_list = refl; last_data_ack = refl })
  ]

  -- What goes before: the answer to the acknowledgement, and the windows.
  record Prepared (u u' : Udt C W) : Type 0 where
    same : SameData u u'
    curr : u'.snd_curr_seq_no ≡ u.snd_curr_seq_no

  send_ack2-Prepared :
      (u : Udt C W) (number : ℤ) (currtime now : ℕ)
      → Prepared u (send_ack2 k u number currtime now)
        × ((send_ack2 k u number currtime now).snd_last_ack ≡ u.snd_last_ack)
        × ((send_ack2 k u number currtime now).flow_window_size ≡ u.flow_window_size)
  unfolding send_ack2
  send_ack2-Prepared u number currtime now =
      elim (Bool-cases (
        ltb syn_interval ((currtime + 2 ^ 64 - u.snd_last_ack2_time) % 2 ^ 64)
        || eqb_ℤ number u.snd_last_ack2)) [
          | inl t ↦ rw t (
            record {
              same = record { buffer = refl; loss_list = refl; last_data_ack = refl };
              curr = refl;
            },
            refl,
            refl,
          )
          | inr t ↦ rw t (
            record {
              same = record { buffer = refl; loss_list = refl; last_data_ack = refl };
              curr = refl;
            },
            refl,
            refl,
          )
        ]

  take_window-SameData : (u : Udt C W) (ack window : ℤ) → SameData u (take_window k u ack window)
  unfolding take_window
  take_window-SameData u ack window =
      elim (Bool-cases (leb_ℤ (pos 0) (seqcmp ack u.snd_last_ack))) [
        | inl t ↦ rw t (record { buffer = refl; loss_list = refl; last_data_ack = refl })
        | inr t ↦ rw t (record { buffer = refl; loss_list = refl; last_data_ack = refl })
      ]

  light_ack-SameData : (u : Udt C W) (ack : ℤ) → SameData u (light_ack k u ack)
  unfolding light_ack
  light_ack-SameData u ack = elim (Bool-cases (leb_ℤ (pos 0) (seqcmp ack u.snd_last_ack))) [
    | inl t ↦ rw t (record { buffer = refl; loss_list = refl; last_data_ack = refl })
    | inr t ↦ rw t (record { buffer = refl; loss_list = refl; last_data_ack = refl })
  ]

  -- The same for two states that agree.
  SameData-trans : (u u' u'' : Udt C W) → SameData u u' → SameData u' u'' → SameData u u''
  SameData-trans u u' u'' a b = record {
    buffer = b.buffer ∙ a.buffer;
    loss_list = b.loss_list ∙ a.loss_list;
    last_data_ack = b.last_data_ack ∙ a.last_data_ack;
  }

  accept_ack_cases :
      (u : Udt C W) (ack : ℤ) (p : CtrlPacket) (currtime now : ℕ)
      → seqcmp ack (incseq u.snd_curr_seq_no) ≤ℤ pos 0
      → SameData u (accept_ack k u ack p currtime now)
        ⊎ Freed u ack (accept_ack k u ack p currtime now)
  unfolding accept_ack free_data
  accept_ack_cases u ack p currtime now was =
      let u' = take_window k u ack (int_at p.words 3) in
      let same = take_window-SameData u ack (int_at p.words 3) in
      elim (Bool-cases (leb_ℤ (seqoff u'.snd_last_data_ack ack) (pos 0))) [
        | inl t ↦ rw t (inl same)
        | inr t ↦
            let noted = note_ack-SameData (free_data k u' ack currtime) ack p now in
            rw t (
              inr (record {
                later =
                    subst (λ x. pos 0 <ℤ seqoff x ack) same.last_data_ack
                      (not_le (seqoff u'.snd_last_data_ack ack) t);
                was_sent = was;
                buffer =
                    noted.buffer
                    ∙ ap₂ SndBuffer.ack_data same.buffer
                        (ap (λ a. pos_part (seqoff a ack)) same.last_data_ack);
                loss_list = noted.loss_list ∙ ap (λ l. Remove.remove l (decseq ack)) same.loss_list;
                last_data_ack = noted.last_data_ack;
              }))
      ]

  transport_cases :
      (u u' r : Udt C W) (ack : ℤ)
      → Prepared u u'
      → SameData u' r ⊎ Freed u' ack r
      → SameData u r ⊎ Freed u ack r
  transport_cases u u' r ack ready (inl s) = inl (SameData-trans u u' r ready.same s)
  transport_cases u u' r ack ready (inr f) = inr (record {
    later = subst (λ x. pos 0 <ℤ seqoff x ack) ready.same.last_data_ack f.later;
    was_sent = subst (λ x. seqcmp ack (incseq x) ≤ℤ pos 0) ready.curr f.was_sent;
    buffer =
        f.buffer
        ∙ ap₂ (λ b a. SndBuffer.ack_data b (pos_part (seqoff a ack))) ready.same.buffer
            ready.same.last_data_ack;
    loss_list = f.loss_list ∙ ap (λ l. Remove.remove l (decseq ack)) ready.same.loss_list;
    last_data_ack = f.last_data_ack;
  })

  -- Whatever an acknowledgement says, either the data that waits for one stays as it was, or its
  -- number is later than the last one and is not beyond what was sent, and then just the packets
  -- before it leave the buffer and the loss list. A number beyond what was sent, in a packet that
  -- is not a light acknowledgement of 4 bytes, breaks the connection, and moves neither the window
  -- nor the last acknowledgement.
  pub process_ack_safe :
      (u : Udt C W) (p : CtrlPacket) (currtime now : ℕ)
      → let ack = int_at p.words 0 in
        let u' = process_ack k u p currtime now in
        (SameData u u' ⊎ Freed u ack u')
        × ((p.packet.len == 4) ≡ false
            → pos 0 <ℤ seqcmp ack (incseq u.snd_curr_seq_no)
            → (u'.status.broken ≡ true)
              × (u'.flow_window_size ≡ u.flow_window_size)
              × (u'.snd_last_ack ≡ u.snd_last_ack))
  unfolding process_ack break_off
  process_ack_safe u p currtime now =
      let ack = int_at p.words 0 in
      let u' = send_ack2 k u (signed32 (get_ack_seq_no p.packet)) currtime now in
      let ready = send_ack2-Prepared u (signed32 (get_ack_seq_no p.packet)) currtime now in
      elim (Bool-cases (p.packet.len == 4)) [
        | inl t ↦ rw t (inl (light_ack-SameData u ack), λ e. absurd (cc))
        | inr t ↦ elim (Bool-cases (ltb_ℤ (pos 0) (seqcmp ack (incseq u'.snd_curr_seq_no)))) [
          | inl b ↦
              rw (t, b)
                (
                  inl (record {
                    buffer = ready.0.same.buffer;
                    loss_list = ready.0.same.loss_list;
                    last_data_ack = ready.0.same.last_data_ack;
                  }),
                  λ e f. (refl, ready.2, ready.1),
                )
          | inr b ↦
              rw (t, b)
                (
                  transport_cases u u' (accept_ack k u' ack p currtime now) ack ready.0 (
                      accept_ack_cases u' ack p currtime now
                        (not_lt (seqcmp ack (incseq u'.snd_curr_seq_no)) b)),
                  λ e f. absurd (
                      differ (ltb_ℤ (pos 0) (seqcmp ack (incseq u'.snd_curr_seq_no)))
                        (subst (λ c. ltb_ℤ (pos 0) (seqcmp ack (incseq c)) ≡ true)
                          (sym ready.0.curr) (lt_test (seqcmp ack (incseq u.snd_curr_seq_no)) f))
                        b),
                )
        ]
      ]
