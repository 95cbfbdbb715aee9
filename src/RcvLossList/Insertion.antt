-- ===== src/RcvLossList/Insertion.antt =====
-- CRcvLossList::insert (udt-sys/udt/list.cpp) on a list that is not empty, against `add`.
use ninewire.Base.{
  ℕ, suc, ◌+◌, ◌-◌, ◌^◌, ◌≤◌, ◌<◌, ◌≡◌, ◌≢◌, ap, sym, ◌∙◌, arith, ℤ, pos, minus_one, ◌&&◌, ltb,
  ◌==◌, if◌then◌else◌, List, [], ◌∷◌, get_or, set, length-set, get_or-set_ne, eqb_ℤ, read, ◌++◌,
  Bool, true, false, rem, ◌+ℤ◌, Bool-cases, inl, inr, pos_add,
}
use ninewire.SeqNo.{seqlen, seqoff}
use ninewire.RcvLossList.{RcvLossList, insert, append_node, extend_tail}
use ninewire.RcvLossList.Spans.{
  Span, seq, end, total, last_start, last_end, stretch, slot, Chain, Holds, add,
}
use ninewire.RcvLossList.Insert.{slot-ne, Chain-tail}
use ninewire.RcvLossList.Append.{Chain-append, slot-lt}
use ninewire.RcvLossList.Refine.{
  Facts, coalesces, seqlen-seq, seqoff-seq, slot-step, add_lem, facts, Chain-stretch, Free-append,
  Free-stretch, Free-slot,
}

Chain-end :
    (c : ℕ) (l : RcvLossList) (back cur : ℤ) (a b : ℕ) (s : List Span)
    → Chain c l back cur ((a, b) ∷ s)
    → get_or l.data2 (slot c l (last_start a s)) (pos 0) ≡ end (last_start a s) (last_end b s)
Chain-end c l back cur a b [] h = h.2
Chain-end c l back cur a b ((a', b') ∷ s) h =
    Chain-end c l (pos (slot c l a)) (get_or l.next (slot c l a) (pos 0)) a' b' s h.4

module _ (c n m : ℕ) (l : RcvLossList) (a b : ℕ) (s : List Span) (v : Holds c l ((a, b) ∷ s))
    (after : last_end b s < n) (le : n ≤ m) (lap : n < a + l.size) (short : m < n + 2 ^ 30) where
  joins : Bool
  joins = ltb (last_start a s) (last_end b s) && last_end b s + 1 == n

  f : Facts a a b n m s
  f = facts a a b n m s v.ordered after le

  bounds :
      (last_start a s ≤ last_end b s) × (n < last_end b s + 2 ^ 30) × (a ≤ n) × (n < a + 2 ^ 30 - 1)
  bounds = omega (arith, f.1, f.2, v.small, v.window)

  some_slot : 0 < l.size
  some_slot = omega (arith, bounds.2)

  not_empty : eqb_ℤ l.loss_length (pos 0) ≡ false
  not_empty = rw v.counted (ground (arith, v.ordered.1))

  tail_slot : l.tail ≡ pos (slot c l (last_start a s))
  tail_slot = Chain-tail c l minus_one l.head a b s v.chain

  tail_end : read l.data2 l.tail ≡ end (last_start a s) (last_end b s)
  tail_end = rw tail_slot (Chain-end c l minus_one l.head a b s v.chain)

  new_slot : rem (l.head +ℤ seqoff (read l.data1 l.head) (seq n)) l.size ≡ pos (slot c l n)
  new_slot =
      rw v.chain.0
        (rw v.chain.1 (rw (seqoff-seq a n bounds.2 bounds.3) (slot-step c l a n bounds.2)))

  insert_lem : insert l (seq n) (seq m) ≡ (
      if joins
      then extend_tail l (seq n) (seq m)
      else append_node l (pos (slot c l n)) (seq n) (seq m))
  unfolding insert joins
  insert_lem = rw (
    not_empty,
    tail_end,
    new_slot,
    coalesces (last_start a s) (last_end b s) n bounds.0 after bounds.1,
  )

  joins_eq : joins ≡ true → last_end b s + 1 ≡ n
  unfolding joins
  joins_eq t = ground arith

  added :
      {t : ℕ}
      → t ≡ total ((a, b) ∷ s) + (suc m - n)
      → l.loss_length +ℤ seqlen (seq n) (seq m) ≡ pos t
  added e =
      rw (v.counted, seqlen-seq n m le short, pos_add (total ((a, b) ∷ s)) (suc m - n))
        (ap pos (sym e))

  last_slot : slot c l (last_start a s) ≢ slot c l n
  last_slot e = slot-ne c l (last_start a s) n (omega (arith, f.1)) (omega (arith, f.2)) (sym e)

  clean :
      (get_or l.data1 (slot c l n) (pos 0) ≡ minus_one)
      × (get_or l.data2 (slot c l n) (pos 0) ≡ minus_one)
  clean =
      v.free (slot c l n) (slot-lt c l n some_slot)
        (Free-slot c l n a b s v.ordered.1 v.ordered.2 f.0 lap)

  links_joined : Chain c (extend_tail l (seq n) (seq m)) minus_one l.head (stretch ((a, b) ∷ s) m)
  links_joined =
      Chain-stretch c n m l v.lengths.1 some_slot le minus_one l.head a b s v.chain v.ordered.1
        v.ordered.2 f.0 lap

  joined : last_end b s + 1 ≡ n → Holds c (extend_tail l (seq n) (seq m)) (stretch ((a, b) ∷ s) m)
  unfolding extend_tail
  joined e = record {
    lengths = (
      v.lengths.0,
      rw tail_slot (length-set l.data2 (slot c l (last_start a s)) (seq m) ∙ v.lengths.1),
      v.lengths.2,
      v.lengths.3,
    );
    chain = links_joined;
    free = λ i lt fr.
        let r = Free-stretch c l i a b m s fr in
        let old = v.free i lt r.0 in
        (
          old.0,
          rw tail_slot (
              get_or-set_ne l.data2 (slot c l (last_start a s)) i (seq m) (pos 0) (λ e. r.1 (sym e))
              ∙ old.1),
        );
    ordered = rw f.8 (f.6 e).0;
    counted = added (f.6 e).1;
    window = rw (f.8, f.7 0) v.window;
    small = v.small;
  }

  appended :
      Holds c (append_node l (pos (slot c l n)) (seq n) (seq m)) ((a, b) ∷ (s ++ (n, m) ∷ []))
  unfolding append_node
  appended = record {
    lengths = (
      length-set l.data1 (slot c l n) (seq n) ∙ v.lengths.0,
      ground (arith, length-set l.data2 (slot c l n) (seq m), v.lengths.1),
      rw tail_slot (
          length-set (set l.next (slot c l (last_start a s)) (pos (slot c l n))) (slot c l n)
            minus_one
          ∙ length-set l.next (slot c l (last_start a s)) (pos (slot c l n))
          ∙ v.lengths.2),
      length-set l.prior (slot c l n) l.tail ∙ v.lengths.3,
    );
    chain =
        Chain-append c n m l (slot c l (last_start a s)) tail_slot
          (slot-lt c l (last_start a s) some_slot) (rw v.lengths.2 (slot-lt c l n some_slot))
          (rw v.lengths.0 (slot-lt c l n some_slot)) (rw v.lengths.1 (slot-lt c l n some_slot))
          (rw v.lengths.3 (slot-lt c l n some_slot)) clean.1 last_slot le short v.lengths.2
          minus_one l.head a b s v.chain v.ordered.1 v.ordered.2 f.0 lap;
    free = λ i lt fr.
        let r = Free-append c l i n m ((a, b) ∷ s) fr in
        let old = v.free i lt r.0 in
        let ne : slot c l n ≢ i = λ e. r.1 (sym e) in
        (
          get_or-set_ne l.data1 (slot c l n) i (seq n) (pos 0) ne ∙ old.0,
          ground (arith, get_or-set_ne l.data2 (slot c l n) i (seq m) (pos 0) ne, old.1),
        );
    ordered = f.3;
    counted = added f.4;
    window = rw f.5 lap;
    small = v.small;
  }

  -- Let a list hold at least one span, and let a range come after all of its numbers, start less
  -- than the array's size after its first number, and have at most 2^30 numbers. Then `insert`
  -- of the range leaves a list that holds the spans with the range added to them: the chain, its
  -- back links, the tail, the loss length and the empty slots are those of the new spans.
  pub insert_refines : Holds c (insert l (seq n) (seq m)) (add ((a, b) ∷ s) (n, m))
  unfolding joins
  insert_refines =
      rw (insert_lem, add_lem a b n m s)
        (elim (Bool-cases joins) [ inl t ↦ rw t (joined (joins_eq t)) | inr t ↦ rw t appended ])
