-- ===== src/SndLossList/Drain.antt =====
-- udt-sys/udt/list.cpp: what CSndLossList::getLostSeq gives back of a range that insert took.
use ninewire.Base.{
  replicate, Bool-cases, inl, inr, ℕ, zero, suc, ◌+◌, ◌-◌, ◌%◌, ◌≤◌, ◌<◌, ◌≡◌, ◌≢◌, refl, ap, ap₂,
  sym, ◌∙◌, arith, ℤ, pos, pos_add, minus_one, eqb_ℤ, read, write, List, [], ◌∷◌, length,
  length-set, length-replicate, get_or-set_self, get_or-set_ne, if◌then◌else◌, ◌==◌,
}
use ninewire.SeqNo.{max_seq_no, seq_no_th}
use ninewire.SeqNo.Circle.{ahead, seqlen_count}
use ninewire.SndLossList.{SndLossList, new, insert, insert_empty}
use ninewire.SndLossList.Remove.{get_lost_seq}
use ninewire.SndLossList.Node.{Holds, step, last_step, ahead_in_range, not_one, not_null}

-- The numbers from `s` on.
abbrev pub numbers : ℕ → ℕ → List ℤ
numbers s zero = []
numbers s (suc n) = pos s ∷ numbers (ahead s 1) n

-- Calls of `getLostSeq`, one behind the other.
unfoldable pub drain : ℕ → SndLossList → SndLossList × List ℤ
unfolding get_lost_seq
drain zero l = (l, [])
drain (suc n) l = let r = get_lost_seq l in let rest = drain n r.0 in (rest.0, r.1 ∷ rest.1)

-- Draining a node gives its numbers in order, and leaves nothing.
drain_node :
    (n : ℕ) (l : SndLossList) (h s : ℕ)
    → Holds l h s (suc n)
    → s ≤ max_seq_no
    → n < seq_no_th
    → 2 ≤ l.size
    → ((drain (suc n) l).1 ≡ numbers s (suc n)) × ((drain (suc n) l).0.loss_length ≡ pos 0)
unfolding drain
drain_node zero l h s k hs hn z = let r = last_step l h s k in (ap (λ x. x ∷ []) r.0, r.1)
drain_node (suc n) l h s k hs hn z =
    let r = step l h s n k hs hn z in
    let d =
      drain_node n (get_lost_seq l).0 ((h + 1) % l.size) (ahead s 1) r.1 (ahead_in_range s 1)
        (omega arith) r.1.large in
    (ap₂ (λ x y. x ∷ y) r.0 d.0, d.1)

same_ends : (s n : ℕ) → s ≤ max_seq_no → n < seq_no_th → eqb_ℤ (pos (ahead s n)) (pos s) ≡ (n == 0)
same_ends s n hs hn = ground arith

-- The second array behind the first insertion.
abbrev first_data2 : ℕ → ℕ → ℕ → List ℤ
first_data2 size s n =
    let blank = replicate size minus_one in
    if eqb_ℤ (pos (ahead s n)) (pos s) then blank else write blank (pos 0) (pos (ahead s n))

length-first_data2 : (size s n : ℕ) → length (first_data2 size s n) ≡ size
length-first_data2 size s n = elim (Bool-cases (eqb_ℤ (pos (ahead s n)) (pos s))) [
  | inl e ↦ rw e (length-replicate size minus_one)
  | inr e ↦
      rw e (
        length-set (replicate size minus_one) 0 (pos (ahead s n)) ∙ length-replicate size minus_one)
]

blank_at : (size j : ℕ) → j < size → read (replicate size minus_one) (pos j) ≡ minus_one
blank_at zero j h = elim h [ ]
blank_at (suc size) zero h = refl
blank_at (suc size) (suc j) h = blank_at size j (omega arith)

first_last :
    (size s n : ℕ)
    → 2 ≤ size
    → s ≤ max_seq_no
    → n < seq_no_th
    → read (first_data2 size s n) (pos 0)
      ≡ (if suc n == 1 then minus_one else pos (ahead s (suc n - 1)))
first_last size s zero z hs hn = rw (same_ends s 0 hs hn) (blank_at size 0 (omega (arith, z)))
first_last size s (suc n) z hs hn =
    rw (same_ends s (suc n) hs hn, not_null n, not_one n)
      (get_or-set_self (replicate size minus_one) 0 (pos (ahead s (suc n))) (pos 0)
          (rw (length-replicate size minus_one) (omega (arith, z)))
        ∙ ap (λ k. pos (ahead s k)) {x = suc n} {y = suc (suc n) - 1} (omega arith))

first_blank : (size s n j : ℕ) → j < size → j ≢ 0 → read (first_data2 size s n) (pos j) ≡ minus_one
first_blank size s n j hj ne = elim (Bool-cases (eqb_ℤ (pos (ahead s n)) (pos s))) [
  | inl e ↦ rw e (blank_at size j hj)
  | inr e ↦ rw e (
      get_or-set_ne (replicate size minus_one) 0 j (pos (ahead s n)) (pos 0) (λ q. ne (sym q))
      ∙ blank_at size j hj)
]

insert_new_Holds :
    (size s n : ℕ)
    → 2 ≤ size
    → s ≤ max_seq_no
    → n < seq_no_th
    → Holds (insert (new size) (pos s) (pos (ahead s n))).0 0 s (suc n)
unfolding insert insert_empty new
insert_new_Holds size s n z hs hn = record {
  large = z;
  room = omega (arith, z);
  length1 = length-set (replicate size minus_one) 0 (pos s) ∙ length-replicate size minus_one;
  length2 = length-first_data2 size s n;
  head_at = refl;
  start =
      get_or-set_self (replicate size minus_one) 0 (pos s) (pos 0)
        (rw (length-replicate size minus_one) (omega (arith, z)));
  last = first_last size s n z hs hn;
  blank = first_blank size s n;
  count = rw (seqlen_count s n hs (omega (arith, hn))) (pos_add 0 (suc n) ∙ ap pos (omega arith));
}

-- A range of fewer than 2^30 sequence numbers that `insert` puts into a new list of at least two
-- nodes comes out of `getLostSeq` one number at a time, in order and complete, round the end of the
-- circle of sequence numbers too, and then the list is empty.
pub drain-insert :
    (size s n : ℕ)
    → 2 ≤ size
    → s ≤ max_seq_no
    → n < seq_no_th
    → let r = drain (suc n) (insert (new size) (pos s) (pos (ahead s n))).0 in
      (r.1 ≡ numbers s (suc n)) × (r.0.loss_length ≡ pos 0)
drain-insert size s n z hs hn =
    drain_node n _ 0 s (insert_new_Holds size s n z hs hn) hs hn
      (insert_new_Holds size s n z hs hn).large
