-- ===== src/AckWindow/Acknowledge.antt =====
-- CACKWindow (udt-sys/udt/window.cpp): `acknowledge` against a queue of records, oldest first.
use ninewire.Base.{
  ℕ, zero, suc, ◌+◌, ◌-◌, ◌%◌, ◌≤◌, ◌<◌, ◌≡◌, ◌≢◌, refl, arith, ap, ap₂, ◌∙◌, sym, ℤ, pos,
  minus_one, true, false, eqb_ℤ, leb, ◌==◌, if◌then◌else◌, Bool-cases, inl, inr, Option, none, some,
  List, [], ◌∷◌, get_or, length-set, leb→le, tests, subst, ==_iff, ne→==, add-mod_lap,
}
use native.Mathlib.Nat.{mod-add-mod, mod-eq_of_lt, mod-lt}
use ninewire.AckWindow.{
  AckWindow, rtt, scan_flat, scan_wrapped, reset, take_flat, take_wrapped, acknowledge,
}
use ninewire.AckWindow.Records.{Entry, IsValid, records, count, contents, records_mod}

-- The first record of an ACK answers it, and goes with those before it.
unfoldable pub forget : ℕ → ℤ → List Entry → ℤ × Option ℤ × List Entry → ℤ × Option ℤ × List Entry
forget now seq [] other = other
forget now seq ((s, a, t) ∷ q) other =
    let rest = forget now seq q other in if eqb_ℤ seq s then (rtt now t, some a, q) else rest

unfoldable pub answer : ℕ → ℤ → List Entry → ℤ × Option ℤ × List Entry
unfolding forget
answer now seq q = forget now seq q (minus_one, none, q)

-- What a scan from slot `j` over `n` records finds, against the specification.
module _ (w : AckWindow) (now : ℕ) (seq : ℤ) (other : ℤ × Option ℤ × List Entry) where
  abbrev Found : ℕ → ℕ → Option ℕ → Type 0
  Found n j none = forget now seq (records w n j) other ≡ other
  Found n j (some i) =
      (k : ℕ) × (k < n)
      × (i ≡ (j + k) % w.size)
      × (forget now seq (records w n j) other ≡ (
        rtt now (get_or w.time_stamp i 0),
        some (get_or w.ack i (pos 0)),
        records w (n - 1 - k) (j + k + 1),
      ))

  miss-Found :
      (n j : ℕ) (o : Option ℕ)
      → eqb_ℤ seq (get_or w.ack_seq_no (j % w.size) (pos 0)) ≡ false
      → Found n (j + 1) o
      → Found (suc n) j o
  unfolding forget
  miss-Found n j none miss h = rw miss h
  miss-Found n j (some i) miss (k, lt, at, h) = (
    suc k,
    omega arith,
    at ∙ ap (λ m. m % w.size) (omega arith),
    rw miss (
        h
        ∙ ap₂
            (λ m r.
              (rtt now (get_or w.time_stamp i 0), some (get_or w.ack i (pos 0)), records w m r))
            (omega arith) (omega arith)),
  )

  scan_wrapped-Found : (n j : ℕ) → Found n j (scan_wrapped w seq n j)
  unfolding scan_wrapped forget
  scan_wrapped-Found zero j = refl
  scan_wrapped-Found (suc n) j =
      elim (Bool-cases (eqb_ℤ seq (get_or w.ack_seq_no (j % w.size) (pos 0)))) [
        | inl hit ↦ rw hit (
          0,
          omega arith,
          ap (λ m. m % w.size) (omega arith),
          rw hit (
              ap₂
                (λ m r. (
                  rtt now (get_or w.time_stamp (j % w.size) 0),
                  some (get_or w.ack (j % w.size) (pos 0)),
                  records w m r,
                ))
                (omega arith) (omega arith)),
        )
        | inr miss ↦
            rw miss
              (miss-Found n j (scan_wrapped w seq n (j + 1)) miss (scan_wrapped-Found n (j + 1)))
      ]

-- Where the records do not go round the end, both loops read the same slots.
scan_flat-eq-scan_wrapped :
    (w : AckWindow) (seq : ℤ) (n j : ℕ)
    → j + n ≤ w.size
    → scan_flat w seq n j ≡ scan_wrapped w seq n j
unfolding scan_flat scan_wrapped
scan_flat-eq-scan_wrapped w seq zero j h = refl
scan_flat-eq-scan_wrapped w seq (suc n) j h = rw (
  mod-eq_of_lt {n = j} {m = w.size} (omega arith),
  scan_flat-eq-scan_wrapped w seq n (j + 1) (omega arith),
)

-- The window that is left holds the records after the one that was found.
module _ (w : AckWindow) (k i : ℕ) (v : IsValid w) (lt : k < count w)
    (at : i ≡ (w.tail + k) % w.size) where
  left_tail :
      contents (record w { tail = (i + 1) % w.size }) ≡ records w (count w - 1 - k) (w.tail + k + 1)
  left_tail =
      ap₂ (records w) (ground (arith, add-mod_lap w.tail k w.size, add-mod_lap i 1 w.size))
        (rw at (mod-add-mod (w.tail + k) w.size 1))
      ∙ records_mod w (count w - 1 - k) (w.tail + k + 1)

  left_reset :
      count w - 1 - k ≡ 0 → contents (reset w) ≡ records w (count w - 1 - k) (w.tail + k + 1)
  unfolding reset
  left_reset e = rw e

  flat_last : w.tail ≤ w.head → i + 1 ≡ w.head → count w - 1 - k ≡ 0
  flat_last le e = ground (arith, add-mod_lap w.tail k w.size)

  wrapped_ne_head : w.head < w.tail → i ≢ w.head
  wrapped_ne_head gt e = ground (arith, add-mod_lap w.tail k w.size)

  in_size : (i < w.size) × ((i + 1) % w.size < w.size)
  in_size = ground (arith, add-mod_lap w.tail k w.size, mod-lt (i + 1) {m = w.size})

abbrev Reply : Type 0
Reply = ℤ × Option ℤ × List Entry

abbrev pub reply : ℤ × Option ℤ × AckWindow → Reply
reply (r, out, w) = (r, out, contents w)

reset-IsValid : (w : AckWindow) → IsValid w → IsValid (reset w)
unfolding reset
reset-IsValid w v = ground (arith, length-set w.ack_seq_no 0 minus_one)

module _ (w : AckWindow) (now : ℕ) (seq : ℤ) (v : IsValid w) where
  Refines : ℤ × Option ℤ × AckWindow → Type 0
  Refines r = (reply r ≡ answer now seq (contents w)) × IsValid r.2

  -- The answer that a found record gives, with what is left.
  answer_found :
      (i k : ℕ) (q : List Entry)
      → forget now seq (contents w) (minus_one, none, contents w) ≡ (
        rtt now (get_or w.time_stamp i 0),
        some (get_or w.ack i (pos 0)),
        records w (count w - 1 - k) (w.tail + k + 1),
      )
      → q ≡ records w (count w - 1 - k) (w.tail + k + 1)
      → ◌≡◌ {A = Reply}
          (rtt now (get_or w.time_stamp i 0), some (get_or w.ack i (pos 0)), q)
          (answer now seq (contents w))
  unfolding answer
  answer_found i k q h e = rw e (sym h)

  take_flat-Refines :
      (o : Option ℕ)
      → w.tail ≤ w.head
      → Found w now seq (minus_one, none, contents w) (count w) w.tail o
      → Refines (take_flat w now o)
  unfolding take_flat answer Refines
  take_flat-Refines none le h = (sym h, v)
  take_flat-Refines (some i) le (k, lt, at, h) = elim (Bool-cases (i + 1 == w.head)) [
    | inl t ↦ rw t (
      answer_found i k (contents (reset w)) h
          (left_reset w k i v lt at (flat_last w k i v lt at le ((==_iff (i + 1) w.head).0 t))),
      reset-IsValid w v,
    )
    | inr f ↦
        rw f (answer_found i k _ h (left_tail w k i v lt at), ground (arith, in_size w k i v lt at))
  ]

  take_wrapped-Refines :
      (o : Option ℕ)
      → w.head < w.tail
      → Found w now seq (minus_one, none, contents w) (count w) w.tail o
      → Refines (take_wrapped w now o)
  unfolding take_wrapped answer Refines
  take_wrapped-Refines none gt h = (sym h, v)
  take_wrapped-Refines (some i) gt (k, lt, at, h) =
      rw (ne→== i w.head (wrapped_ne_head w k i v lt at gt))
        (answer_found i k _ h (left_tail w k i v lt at), ground (arith, in_size w k i v lt at))

  acknowledge_flat :
      leb w.tail w.head ≡ true
      → acknowledge w now seq ≡ take_flat w now (scan_wrapped w seq (count w) w.tail)
  unfolding acknowledge
  acknowledge_flat le = rw le (
      ap (take_flat w now) (
        scan_flat-eq-scan_wrapped w seq (w.head - w.tail) w.tail
          (omega (tests, leb→le w.tail w.head le))))

  acknowledge_wrapped :
      leb w.tail w.head ≡ false
      → acknowledge w now seq ≡ take_wrapped w now (scan_wrapped w seq (count w) w.tail)
  unfolding acknowledge
  acknowledge_wrapped gt = rw gt

  found :
      Found w now seq
        (minus_one, none, contents w)
        (count w)
        w.tail
        (scan_wrapped w seq (count w) w.tail)
  found = scan_wrapped-Found w now seq (minus_one, none, contents w) (count w) w.tail

  -- For a valid window, on every branch, an ACK-2 is answered as by the queue of records that the
  -- window holds: with the RTT and the data ACK of the first record of that number, which leaves
  -- the window with those before it, or with -1 and no change; the window stays valid.
  pub acknowledge_refines :
      (reply (acknowledge w now seq) ≡ answer now seq (contents w))
      × IsValid (acknowledge w now seq).2
  unfolding Refines
  acknowledge_refines = elim (Bool-cases (leb w.tail w.head)) [
    | inl le ↦ subst Refines (sym (acknowledge_flat le)) (take_flat-Refines _ (leb→le _ _ le) found)
    | inr gt ↦
        subst Refines (sym (acknowledge_wrapped gt)) (take_wrapped-Refines _ (ground arith) found)
  ]
