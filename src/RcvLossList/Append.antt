-- ===== src/RcvLossList/Append.antt =====
-- CRcvLossList::insert (udt-sys/udt/list.cpp): the chain after a new node behind the tail.
use ninewire.Base.{
  ℕ, suc, ◌+◌, ◌^◌, ◌≤◌, ◌<◌, ◌≡◌, ◌≢◌, refl, ap, sym, ◌∙◌, arith, ℤ, pos, minus_one, if◌then◌else◌,
  List, [], ◌∷◌, length, get_or, eqb_ℤ, subst, ◌++◌,
}
use native.Mathlib.Nat.{mod-lt}
use ninewire.RcvLossList.{RcvLossList, append_node}
use ninewire.RcvLossList.Spans.{Span, seq, end, Ordered, Below, last_start, slot, Chain}
use ninewire.RcvLossList.Insert.{slot-ne, Chain-tail, last_start-le, kept, next_kept, made}

pub end-eq :
    (n m : ℕ)
    → n ≤ m
    → m < n + 2 ^ 30
    → (if eqb_ℤ (seq m) (seq n) then minus_one else seq m) ≡ end n m
end-eq n m le lt = ground arith

pub slot-lt : (c : ℕ) (l : RcvLossList) (a : ℕ) → 0 < l.size → slot c l a < l.size
slot-lt c l a h = mod-lt (a + c) h

module _ (c n m : ℕ) (l : RcvLossList) (t : ℕ) (at : l.tail ≡ pos t) (tn : t < l.size)
    (jn : slot c l n < length l.next) (j1 : slot c l n < length l.data1)
    (j2 : slot c l n < length l.data2) (jp : slot c l n < length l.prior)
    (clean : get_or l.data2 (slot c l n) (pos 0) ≡ minus_one) (other : t ≢ slot c l n) (le : n ≤ m)
    (lt : m < n + 2 ^ 30) (full : length l.next ≡ l.size) where
  abbrev l' : RcvLossList
  l' = append_node l (pos (slot c l n)) (seq n) (seq m)

  kept_at :
      (i : ℕ)
      → slot c l n ≢ i
      → (get_or l'.data1 i (pos 0) ≡ get_or l.data1 i (pos 0))
        × (get_or l'.data2 i (pos 0) ≡ get_or l.data2 i (pos 0))
        × (get_or l'.prior i (pos 0) ≡ get_or l.prior i (pos 0))
  unfolding append_node
  kept_at i h = kept l t (slot c l n) (seq n) (seq m) at jn j1 j2 jp clean other i h

  is_tail : {i : ℕ} → l.tail ≡ pos i → i ≡ t
  is_tail h = ground (arith, at)

  -- The tail is no node but the last.
  last_ne :
      (a b a' b' : ℕ) (s : List Span) {back cur : ℤ}
      → Chain c l back cur ((a, b) ∷ (a', b') ∷ s)
      → a ≤ b
      → Ordered (suc b) ((a', b') ∷ s)
      → Below n ((a, b) ∷ (a', b') ∷ s)
      → n < a + l.size
      → t ≢ slot c l a
  last_ne a b a' b' s h ab o be lap e =
      let le = last_start-le n a' b' s o.1 o.2 be.1 in
      slot-ne c l a (last_start a' s) (omega arith) (omega arith)
        (is_tail (Chain-tail c l (pos (slot c l a)) _ a' b' s h.4) ∙ e)

  pub Chain-append :
      (back cur : ℤ) (a b : ℕ) (s : List Span)
      → Chain c l back cur ((a, b) ∷ s)
      → a ≤ b
      → Ordered (suc b) s
      → Below n ((a, b) ∷ s)
      → n < a + l.size
      → Chain c l' back cur ((a, b) ∷ (s ++ (n, m) ∷ []))
  unfolding append_node
  Chain-append back cur a b [] h ab o be lap =
      let k = kept_at (slot c l a) (slot-ne c l a n (omega arith) lap) in
      let w = made l t (slot c l n) (seq n) (seq m) at jn j1 j2 jp clean other in
      (
        h.0,
        k.0 ∙ h.1,
        k.1 ∙ h.2,
        k.2 ∙ h.3,
        (
          ap (λ i. get_or l'.next i (pos 0)) (is_tail h.4.1) ∙ w.4 (rw full tn),
          w.0,
          w.1 ∙ end-eq n m le lt,
          w.2 ∙ ap pos (sym (is_tail h.4.1)),
          (w.3, refl),
        ),
      )
  Chain-append back cur a b ((a', b') ∷ s) h ab o be lap =
      let k = kept_at (slot c l a) (slot-ne c l a n (omega arith) lap) in
      (
        h.0,
        k.0 ∙ h.1,
        k.1 ∙ h.2,
        k.2 ∙ h.3,
        subst (λ i. Chain c l' (pos (slot c l a)) i ((a', b') ∷ (s ++ (n, m) ∷ [])))
            (sym (
              next_kept l t (slot c l n) (seq n) (seq m) at jn j1 j2 jp clean other (slot c l a)
                (slot-ne c l a n (omega arith) lap) (last_ne a b a' b' s h ab o be lap)))
            (Chain-append (pos (slot c l a)) (get_or l.next (slot c l a) (pos 0)) a' b' s h.4 o.1
              o.2 be.1 (omega arith)),
      )
