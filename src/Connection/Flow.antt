-- ===== src/Connection/Flow.antt =====
-- udt-sys/udt/core.cpp: what CUDT::packData may send.
use ninewire.Base.{
  ℕ, subst, pos_part, ◌≡◌, ◌⊎◌, inl, inr, refl, arith, true, false, if_chooses, ◌==◌, if◌then◌else◌,
  ℤ, pos, leb_ℤ, ltb_ℤ, ◌≤ℤ◌, length, Option, none, some,
}
use ninewire.SeqNo.{seqlen, seqoff, incseq}
use ninewire.SndBuffer.{Block, Resend, expired, resend, read_data, reread_data}
use ninewire.SndLossList.Remove.{get_lost_seq}
use ninewire.Connection.{Congestion, Udt}
use ninewire.Connection.Data.{
  Packed, packed, go_idle, send_lost, pack_lost, send_window, send_new, pack_new, lateness,
  pack_data,
}

-- A packet from the loss list, not older than the last acknowledged data.
pub record Again (k : Congestion) {W : Type 0} (u : Udt k.C W) (seq : ℤ) (u' : Udt k.C W)
    : Type 0 where
  pub lost : (get_lost_seq u.snd_loss_list).1 ≡ seq
  pub real : pos 0 ≤ℤ seq
  pub recent : pos 0 ≤ℤ seqoff u.snd_last_data_ack seq
  pub curr : u'.snd_curr_seq_no ≡ u.snd_curr_seq_no

-- With nothing lost, a packet with the next number, within both windows.
pub record Fresh (k : Congestion) {W : Type 0} (u : Udt k.C W) (seq : ℤ) (u' : Udt k.C W)
    : Type 0 where
  pub none_lost : leb_ℤ (pos 0) (get_lost_seq u.snd_loss_list).1 ≡ false
  pub next : incseq u.snd_curr_seq_no ≡ seq
  pub curr : u'.snd_curr_seq_no ≡ seq
  pub in_flow_window : seqlen u.snd_last_ack seq ≤ℤ u.flow_window_size
  pub in_congestion_window : seqlen u.snd_last_ack seq ≤ℤ u.congestion_window

le_test : (a b : ℤ) → leb_ℤ a b ≡ true → a ≤ℤ b
le_test a b h = ground (arith, h)

ge_test : (a : ℤ) → ltb_ℤ a (pos 0) ≡ false → pos 0 ≤ℤ a
ge_test a h = ground (arith, h)

min_window : (a f c : ℤ) → a ≤ℤ (if ltb_ℤ f c then f else c) → (a ≤ℤ f) × (a ≤ℤ c)
min_window a f c h = ground (arith, h)

-- If the result is a packet with this number, the state has the property.
abbrev IfPacked : {A : Type 0} → ℤ → Block → ℕ → (A → Type 0) → A × Packed → Type 0
IfPacked seq b ts P r = r.1 ≡ packed seq b ts → P r.0

module _ (k : Congestion) {W : Type 0} (seq : ℤ) (b : Block) (ts : ℕ) where
  open k use {C}

  send_lost-packed :
      (u : Udt C W) (s : ℤ) (e : ℕ) (r : Resend)
      → IfPacked seq b ts
          (λ v. (s ≡ seq) × (v.snd_curr_seq_no ≡ u.snd_curr_seq_no))
          (send_lost k u s e r)
  unfolding send_lost
  send_lost-packed u s e (expired m n) = λ h. cc
  send_lost-packed u s e (resend c) =
      if_chooses (IfPacked seq b ts (λ v. (s ≡ seq) × (v.snd_curr_seq_no ≡ u.snd_curr_seq_no)))
        (length c.payload == 0) (λ t h. cc) (λ t h. (cc, refl))

  send_new-packed :
      (u : Udt C W) (e : ℕ) (r : Option Block)
      → IfPacked seq b ts
          (λ v. (incseq u.snd_curr_seq_no ≡ seq) × (v.snd_curr_seq_no ≡ seq))
          (send_new k u e r)
  unfolding send_new
  send_new-packed u e none = λ h. cc
  send_new-packed u e (some c) =
      if_chooses
        (IfPacked seq b ts (λ v. (incseq u.snd_curr_seq_no ≡ seq) × (v.snd_curr_seq_no ≡ seq)))
        (length c.payload == 0) (λ t h. cc) (λ t h. (cc, cc))

  pack_lost-packed :
      (u : Udt C W) (s : ℤ) (e now : ℕ)
      → IfPacked seq b ts
          (λ v.
            (s ≡ seq)
            × (v.snd_curr_seq_no ≡ u.snd_curr_seq_no)
            × (pos 0 ≤ℤ seqoff u.snd_last_data_ack seq))
          (pack_lost k u s e now)
  unfolding pack_lost
  pack_lost-packed u s e now =
      let offset = seqoff u.snd_last_data_ack s in
      let r = reread_data u.snd_buffer (pos_part offset) now in
      if_chooses
        (IfPacked seq b ts (λ v.
          (s ≡ seq)
          × (v.snd_curr_seq_no ≡ u.snd_curr_seq_no)
          × (pos 0 ≤ℤ seqoff u.snd_last_data_ack seq)))
        (ltb_ℤ offset (pos 0)) (λ t h. cc)
        (λ t h.
          let (same, curr) = send_lost-packed (record u { snd_buffer = r.1 }) s e r.0 h in
          (same, curr, subst (λ x. pos 0 ≤ℤ seqoff u.snd_last_data_ack x) same (ge_test offset t)))

  -- What holds of a new packet.
  abbrev Within : Udt C W → Udt C W → Type 0
  Within u v =
      (incseq u.snd_curr_seq_no ≡ seq)
      × (v.snd_curr_seq_no ≡ seq)
      × (seqlen u.snd_last_ack seq ≤ℤ u.flow_window_size)
      × (seqlen u.snd_last_ack seq ≤ℤ u.congestion_window)

  pack_new-packed : (u : Udt C W) (e : ℕ) → IfPacked seq b ts (Within u) (pack_new k u e)
  unfolding pack_new send_window go_idle
  pack_new-packed u e =
      let len = seqlen u.snd_last_ack (incseq u.snd_curr_seq_no) in
      let r = read_data u.snd_buffer in
      if_chooses (IfPacked seq b ts (Within u)) (leb_ℤ len (send_window k u))
        (λ t h.
          let (same, curr) = send_new-packed (record u { snd_buffer = r.1 }) e r.0 h in
          let (flow, congestion) =
            min_window len u.flow_window_size u.congestion_window
              (le_test len (send_window k u) t) in
          (
            same,
            curr,
            subst (λ x. seqlen u.snd_last_ack x ≤ℤ u.flow_window_size) same flow,
            subst (λ x. seqlen u.snd_last_ack x ≤ℤ u.congestion_window) same congestion,
          ))
        (λ t h. cc)

  -- A data packet that is sent is one of two: a number of the loss list, not older than the data
  -- that was acknowledged, which leaves the largest number sent as it was, or, only when the loss
  -- list has none, the number behind the largest one sent, which both windows allow.
  pub pack_data_safe :
      (u : Udt C W) (entertime now : ℕ)
      → let r = pack_data k u entertime now in
        r.1 ≡ packed seq b ts → Again k u seq r.0 ⊎ Fresh k u seq r.0
  unfolding pack_data
  pack_data_safe u entertime now =
      let r = get_lost_seq u.snd_loss_list in
      let u' = record u { time_diff = lateness k u entertime; snd_loss_list = r.0 } in
      if_chooses (IfPacked seq b ts (λ v. Again k u seq v ⊎ Fresh k u seq v)) (leb_ℤ (pos 0) r.1)
        (λ t h.
          let (same, curr, recent) = pack_lost-packed u' r.1 entertime now h in
          inl (record {
            lost = same;
            real = subst (λ x. pos 0 ≤ℤ x) same (le_test (pos 0) r.1 t);
            recent = recent;
            curr = curr;
          }))
        (λ t h.
          let (next, curr, flow, congestion) = pack_new-packed u' entertime h in
          inr (record {
            none_lost = t;
            next = next;
            curr = curr;
            in_flow_window = flow;
            in_congestion_window = congestion;
          }))
