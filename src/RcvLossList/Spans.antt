-- ===== src/RcvLossList/Spans.antt =====
-- What a CRcvLossList (udt-sys/udt/list.cpp) holds: spans of sequence numbers. A number is given
-- unwrapped, and stands in the packet header modulo 2^31.
use ninewire.Base.{
  ℕ, suc, ◌+◌, ◌-◌, ◌%◌, ◌^◌, ◌≤◌, ◌<◌, ◌≡◌, ◌≢◌, ℤ, pos, minus_one, ◌&&◌, ltb, ◌==◌, if◌then◌else◌,
  List, [], ◌∷◌, length, get_or,
}
use ninewire.RcvLossList.{RcvLossList}

-- The first and the last number of a span.
abbrev pub Span : Type 0
Span = ℕ × ℕ

abbrev pub seq : ℕ → ℤ
seq a = pos (a % 2 ^ 31)

-- What `m_piData2` holds: -1 for a single number.
abbrev pub end : ℕ → ℕ → ℤ
end a b = if a == b then minus_one else seq b

abbrev pub total : List Span → ℕ
total [] = 0
total ((a, b) ∷ s) = suc b - a + total s

-- Spans in ascending order, the first of them above `lo`.
abbrev pub Ordered : ℕ → List Span → Type 0
Ordered lo [] = Unit
Ordered lo ((a, b) ∷ s) = (lo ≤ a) × (a ≤ b) × Ordered (suc b) s

-- All spans end below `hi`.
abbrev pub Below : ℕ → List Span → Type 0
Below hi [] = Unit
Below hi ((a, b) ∷ s) = (b < hi) × Below hi s

-- The first number of the last span.
abbrev pub last_start : ℕ → List Span → ℕ
last_start d [] = d
last_start d ((a, b) ∷ s) = last_start a s

abbrev pub last_end : ℕ → List Span → ℕ
last_end d [] = d
last_end d ((a, b) ∷ s) = last_end b s

abbrev pub first : List Span → ℕ
first [] = 0
first ((a, b) ∷ s) = a

-- The last span with another end.
abbrev pub stretch : List Span → ℕ → List Span
stretch [] m = []
stretch ((a, b) ∷ []) m = (a, m) ∷ []
stretch (x ∷ y ∷ s) m = x ∷ stretch (y ∷ s) m

module _ (c : ℕ) where
  -- The slot of a number: `c` is fixed when the first number is put into an empty list.
  abbrev pub slot : RcvLossList → ℕ → ℕ
  slot l a = (a + c) % l.size

  -- The chain of nodes from `cur` on, with `back` in front of it.
  abbrev pub Chain : RcvLossList → ℤ → ℤ → List Span → Type 0
  Chain l back cur [] = (cur ≡ minus_one) × (l.tail ≡ back)
  Chain l back cur ((a, b) ∷ s) =
      (cur ≡ pos (slot l a))
      × (get_or l.data1 (slot l a) (pos 0) ≡ seq a)
      × (get_or l.data2 (slot l a) (pos 0) ≡ end a b)
      × (get_or l.prior (slot l a) (pos 0) ≡ back)
      × Chain l (pos (slot l a)) (get_or l.next (slot l a) (pos 0)) s

  -- Slot `i` is that of no span.
  abbrev pub Free : RcvLossList → ℕ → List Span → Type 0
  Free l i [] = Unit
  Free l i ((a, b) ∷ s) = (i ≢ slot l a) × Free l i s

  -- The representation of a list of spans that is not empty.
  pub record Holds (l : RcvLossList) (s : List Span) : Type 0 where
    pub lengths :
        (length l.data1 ≡ l.size)
        × (length l.data2 ≡ l.size)
        × (length l.next ≡ l.size)
        × (length l.prior ≡ l.size)
    pub chain : Chain l minus_one l.head s
    pub free :
        (i : ℕ)
        → i < l.size
        → Free l i s
        → (get_or l.data1 i (pos 0) ≡ minus_one) × (get_or l.data2 i (pos 0) ≡ minus_one)
    pub ordered : Ordered (first s) s
    pub counted : l.loss_length ≡ pos (total s)
    pub window : last_start 0 s < first s + l.size
    pub small : l.size < 2 ^ 30 - 1

-- The specification of `insert`: a new last span, or a longer one if the last span has more than
-- one number and ends in front of the new one.
unfoldable pub add : List Span → Span → List Span
add [] n = n ∷ []
add ((a, b) ∷ []) (n, m) = if ltb a b && b + 1 == n then (a, m) ∷ [] else (a, b) ∷ (n, m) ∷ []
add (x ∷ y ∷ s) n = x ∷ add (y ∷ s) n
