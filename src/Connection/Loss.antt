-- ===== src/Connection/Loss.antt =====
-- udt-sys/udt/core.cpp: CUDT::processCtrl, the case of a loss report.
use ninewire.Base.{
  ℕ, zero, suc, ◌+◌, ◌/◌, ◌%◌, ◌^◌, Bool, true, false, leb, ◌&&◌, ◌||◌, if◌then◌else◌, List, get_or,
  ℤ, pos, ◌+ℤ◌, ltb_ℤ, leb_ℤ,
}
use ninewire.SeqNo.{seqcmp}
use ninewire.SndLossList
use ninewire.Connection.{
  Congestion, update_snd_list, Udt, CtrlPacket, emit, break_off, cc_update, int_at,
}

abbrev pub first_of : List ℕ → ℕ → ℤ
first_of words i = pos (get_or words i 0 % 2 ^ 31)

-- `0 != (losslist[i] & 0x80000000)`: two words are a range.
abbrev pub is_range : List ℕ → ℕ → Bool
is_range words i = leb (2 ^ 31) (get_or words i 0)

module _ {C W : Type 0} where
  -- Put a range into the loss list and count the numbers that are new.
  unfoldable pub note_loss : Udt C W → ℤ → ℤ → Udt C W
  unfolding SndLossList.insert ◌+ℤ◌
  note_loss u seq1 seq2 =
      let r = SndLossList.insert u.snd_loss_list seq1 seq2 in
      record u {
        snd_loss_list = r.0;
        trace = record u.trace { snd_loss_total = u.trace.snd_loss_total +ℤ r.1 };
      }

  -- The part of a range that is not acknowledged.
  unfoldable pub note_range : Udt C W → ℤ → ℤ → Udt C W
  unfolding note_loss seqcmp
  note_range u seq1 seq2 =
      if leb_ℤ (pos 0) (seqcmp seq1 u.snd_last_ack)
      then note_loss u seq1 seq2
      else if leb_ℤ (pos 0) (seqcmp seq2 u.snd_last_ack)
      then note_loss u u.snd_last_ack seq2
      else u

  -- Whether a range is upside down, or goes beyond what was sent.
  unfoldable pub bad_range : Udt C W → ℤ → ℤ → Bool
  unfolding seqcmp
  bad_range u seq1 seq2 =
      ltb_ℤ (pos 0) (seqcmp seq1 seq2) || ltb_ℤ (pos 0) (seqcmp seq2 u.snd_curr_seq_no)

  unfoldable pub bad_entry : Udt C W → List ℕ → ℕ → Bool
  unfolding bad_range seqcmp
  bad_entry u words i =
      if is_range words i
      then bad_range u (first_of words i) (int_at words (i + 1))
      else leb_ℤ (pos 0) (seqcmp (first_of words i) u.snd_last_ack)
        && ltb_ℤ (pos 0) (seqcmp (first_of words i) u.snd_curr_seq_no)

  unfoldable pub take_entry : Udt C W → List ℕ → ℕ → Udt C W
  unfolding note_range note_loss seqcmp
  take_entry u words i =
      if is_range words i
      then note_range u (first_of words i) (int_at words (i + 1))
      else if leb_ℤ (pos 0) (seqcmp (first_of words i) u.snd_last_ack)
      then note_loss u (first_of words i) (first_of words i)
      else u

  -- The loop over the words from `i` on, on fuel, one unit for each word; `false` stands for a
  -- report that is not secure.
  unfoldable pub decode : ℕ → Udt C W → List ℕ → ℕ → ℕ → Udt C W × Bool
  unfolding bad_entry take_entry
  decode zero u words i n = (u, true)
  decode (suc f) u words i n =
      let rest =
        decode f (take_entry u words i) words (if is_range words i then i + 2 else i + 1) n in
      if leb n i then (u, true) else if bad_entry u words i then (u, false) else rest

module _ (k : Congestion) {W : Type 0} where
  -- Case 3.
  unfoldable pub process_nak : Udt k.C W → CtrlPacket → Udt k.C W
  unfolding decode cc_update break_off
  process_nak u p =
      let n = p.packet.len / 4 in
      let told = cc_update k (record u { cc = k.on_loss u.cc p.words n }) in
      let r = decode n told p.words 0 n in
      if r.1
      then record (emit r.0 (update_snd_list true)) {
        trace = record r.0.trace { recv_nak_total = r.0.trace.recv_nak_total + 1 };
      }
      else break_off r.0
