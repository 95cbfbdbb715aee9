-- ===== src/RcvLossList/Refine.antt =====
-- CRcvLossList::insert (udt-sys/udt/list.cpp) refines the spans of its list.
use ninewire.Base.{
  ℕ, suc, ◌+◌, ◌-◌, ◌%◌, ◌^◌, ◌≤◌, ◌<◌, ◌≡◌, ◌≢◌, refl, ap, ◌∙◌, arith, ℤ, pos, minus_one, ◌&&◌,
  ltb, ◌==◌, if◌then◌else◌, List, [], ◌∷◌, length, get_or, get_or-set_self, get_or-set_ne, eqb_ℤ,
  ◌++◌, not, rem, ◌+ℤ◌, ne→==, pos_add, if-ap,
}
use native.Mathlib.Nat.{mod-add-mod}
use ninewire.SeqNo.{seqlen, seqoff, incseq}
use ninewire.RcvLossList.{RcvLossList, extend_tail}
use ninewire.RcvLossList.Spans.{
  Span, seq, end, total, Ordered, Below, last_start, last_end, first, stretch, slot, Chain, Free,
  add,
}
use ninewire.RcvLossList.Insert.{slot-ne, Chain-tail, last_start-le}
use ninewire.RcvLossList.Append.{slot-lt}

-- The test of `insert` is that of the specification.
pub coalesces :
    (a b n : ℕ)
    → a ≤ b
    → b < n
    → n < b + 2 ^ 30
    → (not (eqb_ℤ (end a b) minus_one) && eqb_ℤ (incseq (end a b)) (seq n))
      ≡ (ltb a b && b + 1 == n)
unfolding incseq ◌+ℤ◌
coalesces a b n h k m = ground arith

pub seqlen-seq : (n m : ℕ) → n ≤ m → m < n + 2 ^ 30 → seqlen (seq n) (seq m) ≡ pos (suc m - n)
unfolding seqlen ◌+ℤ◌
seqlen-seq n m h k = ground arith

pub seqoff-seq : (a n : ℕ) → a ≤ n → n < a + 2 ^ 30 - 1 → seqoff (seq a) (seq n) ≡ pos (n - a)
unfolding seqoff ◌+ℤ◌
seqoff-seq a n h k = ground arith

pub slot-step :
    (c : ℕ) (l : RcvLossList) (a n : ℕ)
    → a ≤ n
    → rem (pos (slot c l a) +ℤ pos (n - a)) l.size ≡ pos (slot c l n)
unfolding rem
slot-step c l a n h =
    rw (pos_add (slot c l a) (n - a))
      (ap pos (mod-add-mod (a + c) l.size (n - a) ∙ ap (λ k. k % l.size) (omega arith)))

pub add_lem :
    (a b n m : ℕ) (s : List Span)
    → add ((a, b) ∷ s) (n, m) ≡ (
        if ltb (last_start a s) (last_end b s) && last_end b s + 1 == n
        then stretch ((a, b) ∷ s) m
        else (a, b) ∷ (s ++ (n, m) ∷ []))
unfolding add
add_lem a b n m [] = refl
add_lem a b n m ((a', b') ∷ s) = rw (add_lem a' b' n m s) (
    if-ap (λ r. (a, b) ∷ r) (ltb (last_start a' s) (last_end b' s) && last_end b' s + 1 == n)
      (stretch ((a', b') ∷ s) m) ((a', b') ∷ (s ++ (n, m) ∷ [])))

-- The other facts of the specification that the two branches need.
abbrev pub Facts : ℕ → ℕ → ℕ → ℕ → ℕ → List Span → Type 0
Facts lo a b n m s =
    Below n ((a, b) ∷ s)
    × (last_start a s ≤ last_end b s)
    × (a ≤ last_start a s)
    × Ordered lo ((a, b) ∷ (s ++ (n, m) ∷ []))
    × (total ((a, b) ∷ (s ++ (n, m) ∷ [])) ≡ total ((a, b) ∷ s) + (suc m - n))
    × (last_start a (s ++ (n, m) ∷ []) ≡ n)
    × (last_end b s + 1 ≡ n
        → Ordered lo (stretch ((a, b) ∷ s) m)
          × (total (stretch ((a, b) ∷ s) m) ≡ total ((a, b) ∷ s) + (suc m - n)))
    × ((d : ℕ) → last_start d (stretch ((a, b) ∷ s) m) ≡ last_start a s)
    × (first (stretch ((a, b) ∷ s) m) ≡ a)

pub facts :
    (lo a b n m : ℕ) (s : List Span)
    → Ordered lo ((a, b) ∷ s)
    → last_end b s < n
    → n ≤ m
    → Facts lo a b n m s
facts lo a b n m [] o lt le = (
  omega arith,
  o.1,
  omega arith,
  omega arith,
  omega arith,
  refl,
  λ e. omega arith,
  λ d. refl,
  refl,
)
facts lo a b n m ((a', b') ∷ s) o lt le =
    let f : Facts (suc b) a' b' n m s = facts (suc b) a' b' n m s o.2 lt le in
    (
      (omega (arith, f.0), f.0),
      f.1,
      omega (arith, f.2),
      (o.0, o.1, f.3),
      omega (arith, f.4),
      f.5,
      λ e. ((o.0, o.1, (f.6 e).0), omega (arith, (f.6 e).1)),
      λ d. f.7 a,
      refl,
    )

-- The chain with another end of the tail's span.
module _ (c n m : ℕ) (l : RcvLossList) (full : length l.data2 ≡ l.size) (some_slot : 0 < l.size)
    (le : n ≤ m) where
  abbrev pub extended : RcvLossList
  extended = extend_tail l (seq n) (seq m)

  pub Chain-stretch :
      (back cur : ℤ) (a b : ℕ) (s : List Span)
      → Chain c l back cur ((a, b) ∷ s)
      → a ≤ b
      → Ordered (suc b) s
      → Below n ((a, b) ∷ s)
      → n < a + l.size
      → Chain c extended back cur (stretch ((a, b) ∷ s) m)
  unfolding extend_tail
  Chain-stretch back cur a b [] h ab o be lap = (
    h.0,
    h.1,
    rw h.4.1 (
        get_or-set_self l.data2 (slot c l a) (seq m) (pos 0) (rw full (slot-lt c l a some_slot))
        ∙ rw (ne→== a m (λ e. omega arith)) refl),
    h.3,
    h.4,
  )
  Chain-stretch back cur a b ((a', b') ∷ s) h ab o be lap = (
    h.0,
    h.1,
    rw (Chain-tail c l (pos (slot c l a)) (get_or l.next (slot c l a) (pos 0)) a' b' s h.4) (
        get_or-set_ne l.data2 (slot c l (last_start a' s)) (slot c l a) (seq m) (pos 0) (
          let k = last_start-le n a' b' s o.1 o.2 be.1 in
          slot-ne c l a (last_start a' s) (omega arith) (omega arith))
        ∙ h.2),
    h.3,
    Chain-stretch (pos (slot c l a)) (get_or l.next (slot c l a) (pos 0)) a' b' s h.4 o.1 o.2 be.1
        (omega arith),
  )

-- The slots of no span stay empty.
pub Free-append :
    (c : ℕ) (l : RcvLossList) (i n m : ℕ) (s : List Span)
    → Free c l i (s ++ (n, m) ∷ [])
    → Free c l i s × (i ≢ slot c l n)
Free-append c l i n m [] f = (tt, f.0)
Free-append c l i n m ((a, b) ∷ s) f = let r = Free-append c l i n m s f.1 in ((f.0, r.0), r.1)

pub Free-stretch :
    (c : ℕ) (l : RcvLossList) (i a b m : ℕ) (s : List Span)
    → Free c l i (stretch ((a, b) ∷ s) m)
    → Free c l i ((a, b) ∷ s) × (i ≢ slot c l (last_start a s))
Free-stretch c l i a b m [] f = (f, f.0)
Free-stretch c l i a b m ((a', b') ∷ s) f =
    let r = Free-stretch c l i a' b' m s f.1 in ((f.0, r.0), r.1)

pub Free-slot :
    (c : ℕ) (l : RcvLossList) (n a b : ℕ) (s : List Span)
    → a ≤ b
    → Ordered (suc b) s
    → Below n ((a, b) ∷ s)
    → n < a + l.size
    → Free c l (slot c l n) ((a, b) ∷ s)
Free-slot c l n a b [] ab o be lap = (slot-ne c l a n (omega arith) lap, tt)
Free-slot c l n a b ((a', b') ∷ s) ab o be lap =
    (slot-ne c l a n (omega arith) lap, Free-slot c l n a' b' s o.1 o.2 be.1 (omega arith))
