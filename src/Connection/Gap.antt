-- ===== src/Connection/Gap.antt =====
-- udt-sys/udt/core.cpp: CUDT::processData on a packet that leaves a gap, together with the
-- receiver's loss list.
use ninewire.Base.{
  ℕ, suc, ◌+◌, ◌-◌, ◌^◌, ◌%◌, ◌≤◌, ◌<◌, ◌≡◌, refl, ap, ap₂, sym, ◌∙◌, subst, arith, if_chooses,
  Bool, true, ltb_ℤ, leb_ℤ, ◌==◌, ◌||◌, if◌then◌else◌, ℤ, pos, pos_part, List, [], ◌∷◌, ◌++◌,
  get_or, none, to_word, eqb_ℤ,
}
use ninewire.Packet.{Packet}
use ninewire.RcvBuffer.{no_unit, add_data, get_avail_buf_size}
use ninewire.RcvLossList.{insert}
use ninewire.RcvLossList.Insertion.{insert_refines}
use ninewire.RcvLossList.Spans.{Span, seq, last_end, Holds, add}
use ninewire.SeqNo.{seqcmp, seqoff, incseq, decseq}
use ninewire.Connection.{Congestion, TimeWindow, send, Udt}
use ninewire.Connection.Send.{send_loss}
use ninewire.Connection.Data.{note_arrival, detect_loss, record_seq, accept_data, process_data}

incseq-seq : (a : ℕ) → incseq (seq a) ≡ seq (suc a)
unfolding incseq
incseq-seq a = ground arith

decseq-seq : (a : ℕ) → decseq (seq (suc a)) ≡ seq a
unfolding decseq
decseq-seq a = ground arith

seqcmp-seq : (a b : ℕ) → a < b → b < a + 2 ^ 30 - 1 → ltb_ℤ (pos 0) (seqcmp (seq b) (seq a)) ≡ true
unfolding seqcmp
seqcmp-seq a b h k = ground arith

-- The words of a report of a range.
abbrev gap_words : ℤ → ℤ → List ℕ
gap_words f l = if eqb_ℤ f l then to_word l ∷ [] else (to_word f % 2 ^ 31 + 2 ^ 31) ∷ to_word l ∷ []

module _ (k : Congestion) (t : TimeWindow) where
  open k use {C}
  open t use {W}

  -- The state after the numbers from `f` to `l` are found missing.
  record Noted (f l : ℤ) (u v : Udt C W) : Type 0 where
    loss_list : v.rcv_loss_list ≡ insert u.rcv_loss_list f l
    out : v.out ≡ u.out ++ send 3 none (gap_words f l) ∷ []

  detect_loss-Noted :
      (u : Udt C W) (s : ℤ)
      → ltb_ℤ (pos 0) (seqcmp s (incseq u.rcv_curr_seq_no)) ≡ true
      → Noted (incseq u.rcv_curr_seq_no) (decseq s) u (detect_loss k t u s)
        × ((detect_loss k t u s).rcv_curr_seq_no ≡ u.rcv_curr_seq_no)
  unfolding detect_loss send_loss
  detect_loss-Noted u s e =
      let f = incseq u.rcv_curr_seq_no in
      if_chooses (λ v. Noted f (decseq s) u v × (v.rcv_curr_seq_no ≡ u.rcv_curr_seq_no))
        (ltb_ℤ (pos 0) (seqcmp s f)) (λ y. (record { loss_list = refl; out = refl }, refl))
        (λ n. absurd (cc))

  record_seq-ahead :
      (u : Udt C W) (s : ℤ)
      → ltb_ℤ (pos 0) (seqcmp s u.rcv_curr_seq_no) ≡ true
      → record_seq k t u s ≡ record u { rcv_curr_seq_no = s }
  unfolding record_seq
  record_seq-ahead u s e = rw e refl

  module _ (last m : ℕ) (gap : last < m) (near : m < last + 2 ^ 30 - 2) where
    newer : ltb_ℤ (pos 0) (seqcmp (seq (suc m)) (incseq (seq last))) ≡ true
    newer =
        rw (incseq-seq last)
          (seqcmp-seq (suc last) (suc m) (omega (arith, gap)) (omega (arith, near)))

    record_seq-Noted :
        (u v : Udt C W) (s : ℤ)
        → Noted (seq (suc last)) (seq m) u v
        → v.rcv_curr_seq_no ≡ seq last
        → s ≡ seq (suc m)
        → Noted (seq (suc last)) (seq m) u (record_seq k t v s)
          × ((record_seq k t v s).rcv_curr_seq_no ≡ seq (suc m))
    record_seq-Noted u v s noted e w =
        let ahead : ltb_ℤ (pos 0) (seqcmp s v.rcv_curr_seq_no) ≡ true =
          ap₂ (λ a b. ltb_ℤ (pos 0) (seqcmp a b)) w e
          ∙ seqcmp-seq last (suc m) (omega (arith, gap)) (omega (arith, near)) in
        rw (record_seq-ahead v s ahead) (record { loss_list = noted.loss_list; out = noted.out }, w)

    accept_data-Noted :
        (u : Udt C W) (p : Packet) (clock' : ℕ)
        → u.rcv_curr_seq_no ≡ seq last
        → p.word0 ≡ suc m % 2 ^ 31
        → Noted (seq (suc last)) (seq m) u (accept_data k t u p clock')
          × ((accept_data k t u p clock').rcv_curr_seq_no ≡ seq (suc m))
    unfolding accept_data
    accept_data-Noted u p clock' e w =
        let s = pos p.word0 in
        let v = detect_loss k t u s in
        let later = record v { next_ack_time = clock' } in
        let (noted, curr) = detect_loss-Noted u s (rw (w, e) newer) in
        let same : Noted (seq (suc last)) (seq m) u v =
          subst (λ f. Noted f (seq m) u v) (ap incseq e ∙ incseq-seq last)
            (subst (λ l. Noted (incseq u.rcv_curr_seq_no) l u v)
              (ap (λ x. decseq (pos x)) w ∙ decseq-seq m) noted) in
        let also : Noted (seq (suc last)) (seq m) u later = record {
          loss_list = same.loss_list;
          out = same.out;
        } in
        if_chooses
          (λ x.
            Noted (seq (suc last)) (seq m) u (record_seq k t x s)
            × ((record_seq k t x s).rcv_curr_seq_no ≡ seq (suc m)))
          (p.len == u.payload_size) (λ y. record_seq-Noted u v s same (curr ∙ e) (ap pos w))
          (λ n. record_seq-Noted u later s also (curr ∙ e) (ap pos w))

    process_data-Noted :
        (u : Udt C W) (unit clock now clock' : ℕ)
        → u.rcv_curr_seq_no ≡ seq last
        → (get_or u.rcv_buffer.units unit no_unit).packet.word0 ≡ suc m % 2 ^ 31
        → let r = process_data k t u unit clock now clock' in
          r.1 ≡ true → Noted (seq (suc last)) (seq m) u r.0 × (r.0.rcv_curr_seq_no ≡ seq (suc m))
    unfolding process_data note_arrival
    process_data-Noted u unit clock now clock' e w =
        let p = (get_or u.rcv_buffer.units unit no_unit).packet in
        let offset = seqoff u.rcv_last_ack (pos p.word0) in
        let r = add_data u.rcv_buffer unit (pos_part offset) in
        let stored = record (note_arrival k t u p clock now) { rcv_buffer = r.0 } in
        let P : Udt C W × Bool → Type 0 = λ x.
          x.1 ≡ true → Noted (seq (suc last)) (seq m) u x.0 × (x.0.rcv_curr_seq_no ≡ seq (suc m)) in
        let (noted, curr) = accept_data-Noted stored p clock' e w in
        if_chooses P (ltb_ℤ offset (pos 0) || leb_ℤ (pos (get_avail_buf_size u.rcv_buffer)) offset)
          (λ y h. cc)
          (λ y.
            if_chooses P (ltb_ℤ r.1 (pos 0)) (λ z h. cc)
              (λ z h. (record { loss_list = noted.loss_list; out = noted.out }, curr)))

    -- Let the receiver's loss list hold at least one span, the last of them not beyond the largest
    -- number received, `last`, and let `last + 1` be less than the array's size behind the first
    -- number of the list. Let a data packet come with the number `m + 1`, where `m` is greater
    -- than `last` by less than 2^30 - 2. If it is stored, it is the largest one received, the list
    -- holds its spans with the missing numbers, `last + 1` to `m`, added to them, and this range
    -- is reported to the peer at once.
    pub process_data_records_gap :
        (c a b : ℕ) (s : List Span) (u : Udt C W) (unit clock now clock' : ℕ)
        → Holds c u.rcv_loss_list ((a, b) ∷ s)
        → last_end b s ≤ last
        → suc last < a + u.rcv_loss_list.size
        → u.rcv_curr_seq_no ≡ seq last
        → (get_or u.rcv_buffer.units unit no_unit).packet.word0 ≡ suc m % 2 ^ 31
        → let r = process_data k t u unit clock now clock' in
          r.1 ≡ true
          → Holds c r.0.rcv_loss_list (add ((a, b) ∷ s) (suc last, m))
            × (r.0.rcv_curr_seq_no ≡ seq (suc m))
            × (r.0.out ≡ u.out ++ send 3 none (gap_words (seq (suc last)) (seq m)) ∷ [])
    process_data_records_gap c a b s u unit clock now clock' v after lap e w h =
        let (noted, curr) = process_data-Noted u unit clock now clock' e w h in
        (
          subst (λ l. Holds c l (add ((a, b) ∷ s) (suc last, m))) (sym noted.loss_list)
              (insert_refines c (suc last) m u.rcv_loss_list a b s v (omega (arith, after))
                (omega (arith, gap)) lap (omega (arith, near))),
          curr,
          noted.out,
        )
