-- ===== src/RcvLossList/Insert.antt =====
-- CRcvLossList::insert (udt-sys/udt/list.cpp): what a new node behind the tail does to the chain.
use ninewire.Base.{
  ℕ, suc, ◌+◌, ◌-◌, ◌%◌, ◌≤◌, ◌<◌, ◌≡◌, ◌≢◌, ap, sym, ◌∙◌, arith, ℤ, pos, minus_one, if◌then◌else◌,
  List, [], ◌∷◌, length, get_or, set, add-mod-ne, get_or-set_self, get_or-set_ne, length-set, eqb_ℤ,
}
use ninewire.RcvLossList.{RcvLossList, append_node}
use ninewire.RcvLossList.Spans.{Span, Ordered, Below, last_start, slot, Chain}

-- The slots of numbers less than a lap apart differ.
pub slot-ne : (c : ℕ) (l : RcvLossList) (a n : ℕ) → a < n → n < a + l.size → slot c l n ≢ slot c l a
slot-ne c l a n lt lap e =
    add-mod-ne (a + c) (n - a - 1) l.size (omega arith) (ap (λ k. k % l.size) (omega arith) ∙ e)

-- The last node of a chain is the tail.
pub Chain-tail :
    (c : ℕ) (l : RcvLossList) (back cur : ℤ) (a b : ℕ) (s : List Span)
    → Chain c l back cur ((a, b) ∷ s)
    → l.tail ≡ pos (slot c l (last_start a s))
Chain-tail c l back cur a b [] h = h.4.1
Chain-tail c l back cur a b ((a', b') ∷ s) h =
    Chain-tail c l (pos (slot c l a)) (get_or l.next (slot c l a) (pos 0)) a' b' s h.4

pub last_start-le :
    (n a b : ℕ) (s : List Span)
    → a ≤ b
    → Ordered (suc b) s
    → Below n ((a, b) ∷ s)
    → (a ≤ last_start a s) × (last_start a s < n)
last_start-le n a b [] h o e = omega arith
last_start-le n a b ((a', b') ∷ s) h o e = omega (arith, last_start-le n a' b' s o.1 o.2 (e.1))

-- The arrays after `append_node` behind slot `t`, at slot `j`.
module _ (l : RcvLossList) (t j : ℕ) (v1 v2 : ℤ) (at : l.tail ≡ pos t) (jn : j < length l.next)
    (j1 : j < length l.data1) (j2 : j < length l.data2) (jp : j < length l.prior)
    (free : get_or l.data2 j (pos 0) ≡ minus_one) (other : t ≢ j) where
  abbrev pub l' : RcvLossList
  l' = append_node l (pos j) v1 v2

  pub kept :
      (i : ℕ)
      → j ≢ i
      → (get_or l'.data1 i (pos 0) ≡ get_or l.data1 i (pos 0))
        × (get_or l'.data2 i (pos 0) ≡ get_or l.data2 i (pos 0))
        × (get_or l'.prior i (pos 0) ≡ get_or l.prior i (pos 0))
  unfolding append_node
  kept i h = (
    get_or-set_ne l.data1 j i v1 (pos 0) h,
    ground (arith, get_or-set_ne l.data2 j i v2 (pos 0) h),
    get_or-set_ne l.prior j i l.tail (pos 0) h,
  )

  pub next_kept : (i : ℕ) → j ≢ i → t ≢ i → get_or l'.next i (pos 0) ≡ get_or l.next i (pos 0)
  unfolding append_node
  next_kept i h k = rw at (
      get_or-set_ne (set l.next t (pos j)) j i minus_one (pos 0) h
      ∙ get_or-set_ne l.next t i (pos j) (pos 0) k)

  pub made :
      (get_or l'.data1 j (pos 0) ≡ v1)
      × (get_or l'.data2 j (pos 0) ≡ (if eqb_ℤ v2 v1 then minus_one else v2))
      × (get_or l'.prior j (pos 0) ≡ pos t)
      × (get_or l'.next j (pos 0) ≡ minus_one)
      × (t < length l.next → get_or l'.next t (pos 0) ≡ pos j)
  unfolding append_node
  made = (
    get_or-set_self l.data1 j v1 (pos 0) j1,
    ground (arith, get_or-set_self l.data2 j v2 (pos 0) j2),
    get_or-set_self l.prior j l.tail (pos 0) jp ∙ at,
    rw at (
        get_or-set_self (set l.next t (pos j)) j minus_one (pos 0)
          (rw (length-set l.next t (pos j)) jn)),
    λ tn. rw at (
        get_or-set_ne (set l.next t (pos j)) j t minus_one (pos 0) (λ e. other (sym e))
        ∙ get_or-set_self l.next t (pos j) (pos 0) tn),
  )
