-- ===== src/RcvBuffer/Skip.antt =====
-- udt-sys/udt/buffer.cpp: the loop of CRcvBuffer::scanMsg over bad messages.
use ninewire.Base.{
  ℕ, zero, suc, ◌<◌, ◌≤◌, ◌≡◌, ◌≢◌, ◌⊎◌, inl, inr, refl, arith, ltb, ◌==◌, ◌&&◌, true, false,
  Option, none, some, get_or, Bool-cases,
}
use ninewire.RcvBuffer.{RcvBuffer, unit_at, is_null, release, next_pos}
use ninewire.RcvBuffer.Read.{occupied, boundary, whole_message, skip_bad}
use ninewire.RcvBuffer.Gaps.{
  distance, distance-next, next_lt, distance-zero, distance-lt, test→eq, test→ne, Unbroken, Gap,
  Unbroken_lem, Gap_lem,
}

slot_cases : (o : Option ℕ) → (o ≡ none) ⊎ ((u : ℕ) × (o ≡ some u))
slot_cases none = inl refl
slot_cases (some u) = inr (u, refl)

-- What a release leaves as it is.
release-frame :
    (b : RcvBuffer) (i : ℕ)
    → ((release b i).size ≡ b.size) × ((release b i).last_ack_pos ≡ b.last_ack_pos)
unfolding release
release-frame b i = elim (slot_cases (get_or b.slots i none)) [
  | inl e ↦ rw (e, release) (refl, refl)
  | inr e ↦ rw (e.1, release) (refl, refl)
]

-- The start has come to the acknowledged end, or a whole message begins there.
abbrev pub Settled : RcvBuffer → Type 0
Settled b =
    (b.start_pos ≡ b.last_ack_pos)
    ⊎ ((occupied (unit_at b b.start_pos) ≡ true)
        × (1 < boundary (unit_at b b.start_pos))
        × Unbroken b b.start_pos)

-- The unit at the start was read or dropped, or does not begin a message, or its message has a gap.
abbrev pub IsBad : RcvBuffer → Type 0
IsBad b =
    (occupied (unit_at b b.start_pos) ≡ false)
    ⊎ ((boundary (unit_at b b.start_pos) ≤ 1) ⊎ Gap b b.start_pos)

abbrev pub stepped : RcvBuffer → RcvBuffer → RcvBuffer
stepped b c = record c { start_pos = next_pos b b.start_pos }

-- One buffer comes from another by steps over empty slots and over bad units, which are released.
pub data Skipped : RcvBuffer → RcvBuffer → Type 0 where
  stays : (b : RcvBuffer) → Skipped b b
  empty :
      (b c : RcvBuffer)
      → b.start_pos ≢ b.last_ack_pos
      → is_null (unit_at b b.start_pos) ≡ true
      → Skipped (stepped b b) c
      → Skipped b c
  bad :
      (b c : RcvBuffer)
      → b.start_pos ≢ b.last_ack_pos
      → IsBad b
      → Skipped (stepped b (release b b.start_pos)) c
      → Skipped b c

-- A buffer whose start has moved on by one slot.
record Moved (b c : RcvBuffer) : Type 0 where
  same_size : c.size ≡ b.size
  same_end : c.last_ack_pos ≡ b.last_ack_pos
  start_next : c.start_pos ≡ next_pos b b.start_pos

-- The hypotheses of the loop.
record Bound (f : ℕ) (b : RcvBuffer) : Type 0 where
  start_lt : b.start_pos < b.size
  end_lt : b.last_ack_pos < b.size
  left : distance b.start_pos b.last_ack_pos b.size ≤ f

Bound-Moved :
    (f : ℕ) (b c : RcvBuffer)
    → Moved b c
    → Bound (suc f) b
    → b.start_pos ≢ b.last_ack_pos
    → Bound f c
Bound-Moved f b c m k n = record {
  start_lt = rw (m.same_size, m.start_next) (next_lt b.start_pos b.size k.start_lt);
  end_lt = rw (m.same_size, m.same_end) k.end_lt;
  left =
      rw (m.same_size, m.same_end, m.start_next)
        (omega
          (arith, distance-next b.start_pos b.last_ack_pos b.size k.start_lt k.end_lt n, k.left));
}

-- What the loop has to leave.
abbrev pub Skims : RcvBuffer → RcvBuffer → Type 0
Skims b c = Settled c × Skipped b c

stops_at_message :
    (f : ℕ) (b : RcvBuffer)
    → (occupied (unit_at b b.start_pos)
        && ltb 1 (boundary (unit_at b b.start_pos))
        && whole_message f b b.start_pos)
      ≡ true
    → Settled b
stops_at_message f b g =
    inr (ground (arith, g), ground (arith, g), Unbroken_lem f b b.start_pos (ground (arith, g)))

IsBad_lem :
    (b : RcvBuffer)
    → b.start_pos < b.size
    → b.last_ack_pos < b.size
    → (occupied (unit_at b b.start_pos)
        && ltb 1 (boundary (unit_at b b.start_pos))
        && whole_message b.size b b.start_pos)
      ≡ false
    → IsBad b
IsBad_lem b hs hl g =
    let u = unit_at b b.start_pos in
    elim (Bool-cases (occupied u)) [
      | inr o ↦ inl o
      | inl o ↦ elim (Bool-cases (ltb 1 (boundary u))) [
        | inr l ↦ inr (inl (ground (arith, l)))
        | inl l ↦ inr (
            inr (
              Gap_lem b.size b b.start_pos hs hl
                (distance-lt b.start_pos b.last_ack_pos b.size hs hl) (ground (arith, g, o, l))))
      ]
    ]

skips : (f : ℕ) (b : RcvBuffer) → Bound f b → Skims b (skip_bad f b)
unfolding skip_bad
skips zero b k =
    (inl (distance-zero b.start_pos b.last_ack_pos b.size k.start_lt k.end_lt k.left), stays b)
skips (suc f) b k =
    let u = unit_at b b.start_pos in
    let good = occupied u && ltb 1 (boundary u) && whole_message b.size b b.start_pos in
    let frame = release-frame b b.start_pos in
    let skipped = stepped b b in
    let released = stepped b (release b b.start_pos) in
    let on_skipped : Moved b skipped = record {
      same_size = refl;
      same_end = refl;
      start_next = refl;
    } in
    let on_released : Moved b released = record {
      same_size = frame.0;
      same_end = frame.1;
      start_next = refl;
    } in
    elim (Bool-cases (b.start_pos == b.last_ack_pos)) [
      | inl t ↦ rw t (inl (test→eq b.start_pos b.last_ack_pos t), stays b)
      | inr n ↦
          let ne = test→ne b.start_pos b.last_ack_pos n in
          elim (Bool-cases (is_null u)) [
            | inl e ↦
                let r = skips f skipped (Bound-Moved f b skipped on_skipped k ne) in
                rw (n, e) (r.0, empty b (skip_bad f skipped) ne e r.1)
            | inr e ↦ elim (Bool-cases good) [
              | inl g ↦ rw (n, e, g) (stops_at_message b.size b g, stays b)
              | inr g ↦
                  let r = skips f released (Bound-Moved f b released on_released k ne) in
                  let faulty = IsBad_lem b k.start_lt k.end_lt g in
                  rw (n, e, g) (r.0, bad b (skip_bad f released) ne faulty r.1)
            ]
          ]
    ]

-- For positions within the array, the loop of `scanMsg` that skips bad messages ends within as
-- many rounds as the buffer has slots. It steps only over empty slots and over units that were
-- read or dropped, that do not begin a message or whose message has a gap before its end and that
-- of the acknowledged packets. Behind it either no acknowledged packet is left, or the unit at the
-- new start is unread, is the first or only one of its message, and no unit is missing from it on
-- before the end of the message or of the acknowledged packets.
pub skip_bad-Settled :
    (b : RcvBuffer)
    → b.start_pos < b.size
    → b.last_ack_pos < b.size
    → Settled (skip_bad b.size b) × Skipped b (skip_bad b.size b)
skip_bad-Settled b hs hl = skips b.size b (record {
  start_lt = hs;
  end_lt = hl;
  left = omega (arith, distance-lt b.start_pos b.last_ack_pos b.size hs hl);
})
