-- ===== src/RcvLossList/Report.antt =====
-- CRcvLossList::getLossArray and getFirstLostSeq (udt-sys/udt/list.cpp): the loss report.
use ninewire.Base.{
  ℕ, zero, suc, ◌+◌, ◌%◌, ◌^◌, ◌≤◌, ◌<◌, ◌≡◌, arith, ℤ, pos, minus_one, ltb, ◌==◌, if◌then◌else◌,
  List, [], ◌∷◌, length, get_or,
}
use ninewire.RcvLossList.{RcvLossList}
use ninewire.RcvLossList.Query.{mark, loss_words, get_loss_array, get_first_lost_seq}
use ninewire.RcvLossList.Spans.{Span, seq, slot, Chain, Holds, Ordered, last_start}

-- The specification: a single number is one word, a longer span two, the first of them marked,
-- as long as two words fit below `limit`.
unfoldable pub report : ℕ → ℕ → List Span → List ℕ
report limit len [] = []
report limit len ((a, b) ∷ s) =
    let one = report limit (len + 1) s in
    let two = report limit (len + 2) s in
    if ltb (len + 1) limit
    then if a == b then (a % 2 ^ 31) ∷ one else mark (a % 2 ^ 31) ∷ (b % 2 ^ 31) ∷ two
    else []

loss_words-report :
    (c : ℕ) (l : RcvLossList) (fuel limit len : ℕ) (back cur : ℤ) (s : List Span)
    → length s < fuel
    → Chain c l back cur s
    → loss_words fuel l limit len cur ≡ report limit len s
unfolding loss_words report
loss_words-report c l zero limit len back cur s h ch = elim h [ ]
loss_words-report c l (suc f) limit len back cur [] h ch = rw ch.0 (ground arith)
loss_words-report c l (suc f) limit len back cur ((a, b) ∷ s) h ch =
    rw (ch.0, ch.1, ch.2)
      (ground (
        arith,
        loss_words-report c l f limit (len + 1) (pos (slot c l a))
            (get_or l.next (slot c l a) (pos 0)) s (omega arith) ch.4,
        loss_words-report c l f limit (len + 2) (pos (slot c l a))
            (get_or l.next (slot c l a) (pos 0)) s (omega arith) ch.4,
      ))

length-le-span :
    (lo a b : ℕ) (s : List Span) → Ordered lo ((a, b) ∷ s) → a + length s ≤ last_start a s
length-le-span lo a b [] o = omega arith
length-le-span lo a b ((a', b') ∷ s) o = omega (arith, length-le-span (suc b) a' b' s o.2)

-- For a list that holds spans, the loss array is the report of these spans, in order, up to the
-- limit, and the first lost number is the first number of the first span.
pub get_loss_array_lem :
    (c limit : ℕ) (l : RcvLossList) (a b : ℕ) (s : List Span)
    → Holds c l ((a, b) ∷ s)
    → (get_loss_array l limit ≡ report limit 0 ((a, b) ∷ s)) × (get_first_lost_seq l ≡ seq a)
unfolding get_loss_array get_first_lost_seq
get_loss_array_lem c limit l a b s v = (
  loss_words-report c l (suc l.size) limit 0 minus_one l.head ((a, b) ∷ s)
      (omega (arith, v.window, length-le-span a a b s v.ordered)) v.chain,
  rw (v.counted, v.chain.0, v.chain.1) (ground (arith, v.ordered.1)),
)
