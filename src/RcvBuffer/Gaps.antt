-- ===== src/RcvBuffer/Gaps.antt =====
-- udt-sys/udt/buffer.cpp: the look-ahead of CRcvBuffer::scanMsg for a gap in a message.
use ninewire.Base.{
  ℕ, zero, suc, ◌+◌, ◌-◌, ◌<◌, ◌≤◌, ◌≡◌, ◌≢◌, inl, inr, arith, leb, ◌==◌, ◌||◌, if◌then◌else◌, true,
  false, Bool-cases,
}
use ninewire.RcvBuffer.{RcvBuffer, unit_at, next_pos}
use ninewire.RcvBuffer.Read.{occupied, boundary, whole_message}

-- The number of slots from `start` to `last`.
abbrev pub distance : ℕ → ℕ → ℕ → ℕ
distance start last size = if leb start last then last - start else size + last - start

pub distance-next :
    (start last size : ℕ)
    → start < size
    → last < size
    → start ≢ last
    → suc (distance (if start + 1 == size then 0 else start + 1) last size)
      ≡ distance start last size
distance-next start last size hs hl n = ground (arith, hs, hl, n)

pub next_lt : (start size : ℕ) → start < size → (if start + 1 == size then 0 else start + 1) < size
next_lt start size h = ground (arith, h)

pub distance-zero :
    (start last size : ℕ) → start < size → last < size → distance start last size ≤ 0 → start ≡ last
distance-zero start last size hs hl h = ground (arith, hs, hl, h)

pub distance-lt :
    (start last size : ℕ) → start < size → last < size → distance start last size < size
distance-lt start last size hs hl = ground (arith, hs, hl)

pub test→eq : (a c : ℕ) → (a == c) ≡ true → a ≡ c
test→eq a c e = ground (arith, e)

pub test→ne : (a c : ℕ) → (a == c) ≡ false → a ≢ c
test→ne a c e = ground (arith, e)

-- From slot `i` on the units are there and unread, up to the end of a message or up to the end of
-- the acknowledged packets.
pub data Unbroken (b : RcvBuffer) : ℕ → Type 0 where
  at_end : (i : ℕ) → i ≡ b.last_ack_pos → Unbroken b i
  ends :
      (i : ℕ)
      → occupied (unit_at b i) ≡ true
      → (boundary (unit_at b i) == 1 || boundary (unit_at b i) == 3) ≡ true
      → Unbroken b i
  further : (i : ℕ) → occupied (unit_at b i) ≡ true → Unbroken b (next_pos b i) → Unbroken b i

-- From slot `i` on, before the end of a message and of the acknowledged packets, a unit is missing
-- or was read.
pub data Gap (b : RcvBuffer) : ℕ → Type 0 where
  missing : (i : ℕ) → i ≢ b.last_ack_pos → occupied (unit_at b i) ≡ false → Gap b i
  later :
      (i : ℕ)
      → i ≢ b.last_ack_pos
      → (boundary (unit_at b i) == 1 || boundary (unit_at b i) == 3) ≡ false
      → Gap b (next_pos b i)
      → Gap b i

pub Unbroken_lem : (f : ℕ) (b : RcvBuffer) (i : ℕ) → whole_message f b i ≡ true → Unbroken b i
unfolding whole_message
Unbroken_lem zero b i h = ground (arith, h)
Unbroken_lem (suc f) b i h = elim (Bool-cases (i == b.last_ack_pos)) [
  | inl e ↦ at_end i (test→eq i b.last_ack_pos e)
  | inr n ↦ elim (Bool-cases (occupied (unit_at b i))) [
    | inr o ↦ ground (arith, h, n, o)
    | inl o ↦ elim (Bool-cases (boundary (unit_at b i) == 1 || boundary (unit_at b i) == 3)) [
      | inl e ↦ ends i o e
      | inr e ↦ further i o (Unbroken_lem f b (next_pos b i) (ground (arith, h, n, o, e)))
    ]
  ]
]

pub Gap_lem :
    (f : ℕ) (b : RcvBuffer) (i : ℕ)
    → i < b.size
    → b.last_ack_pos < b.size
    → distance i b.last_ack_pos b.size < f
    → whole_message f b i ≡ false
    → Gap b i
unfolding whole_message
Gap_lem zero b i hi hl few h = absurd (omega (arith, few))
Gap_lem (suc f) b i hi hl few h = elim (Bool-cases (i == b.last_ack_pos)) [
  | inl e ↦ ground (arith, h, e)
  | inr n ↦
      let ne = test→ne i b.last_ack_pos n in
      elim (Bool-cases (occupied (unit_at b i))) [
        | inr o ↦ missing i ne o
        | inl o ↦ elim (Bool-cases (boundary (unit_at b i) == 1 || boundary (unit_at b i) == 3)) [
          | inl e ↦ ground (arith, h, n, o, e)
          | inr e ↦ later i ne e (
              Gap_lem f b (next_pos b i) (next_lt i b.size hi) hl
                (omega (arith, few, distance-next i b.last_ack_pos b.size hi hl ne))
                (ground (arith, h, n, o, e)))
        ]
      ]
]
