-- ===== src/SndBuffer/Grow.antt =====
-- CSndBuffer::increase (udt-sys/udt/buffer.cpp) keeps the packets of the buffer.
use ninewire.Base.{
  ℕ, zero, suc, ◌+◌, ◌-◌, ◌%◌, ◌≤◌, ◌<◌, ◌≡◌, ◌≢◌, refl, ap, ap₂, sym, ◌∙◌, arith, leb,
  if◌then◌else◌, List, ◌∷◌, ◌++◌, length, get_or, take, drop, replicate, length-append, length-take,
  length-drop, length-replicate, get_or-append_left, get_or-append_right, get_or-take, get_or-drop,
  window, window_mod, add-mod_lap, dec_lt, add-mod-ne, lt→ltb, le→ltb, Bool-cases, inl, inr,
}
use native.Mathlib.Nat.{mod-eq_of_lt, mod-lt, mod-add-mod}
use ninewire.SndBuffer.{SndBuffer, Block, blank, moved, increase, increase_until}

-- How many packets were never sent.
abbrev pub ahead : SndBuffer → ℕ
ahead b =
    if leb b.curr_block b.last_block
    then b.last_block - b.curr_block
    else b.last_block + b.size - b.curr_block

pub record IsValid (b : SndBuffer) : Type 0 where
  pub blocks : length b.circle ≡ b.size
  pub first_in : b.first_block < b.size
  pub curr_in : b.curr_block < b.size
  pub last_at : b.last_block ≡ (b.first_block + b.count) % b.size
  pub unsent : ahead b ≤ b.count
  pub room : b.count < b.size
  pub grows : 0 < b.unit
  pub packet : 0 < b.mss

-- The packets that are not yet acknowledged, and those of them that were never sent.
abbrev pub contents : SndBuffer → List Block
contents b = window b.circle blank b.size b.count b.first_block

abbrev pub pending : SndBuffer → List Block
pending b = window b.circle blank b.size (ahead b) b.curr_block

module _ (b : SndBuffer) (v : IsValid b) where
  pub last_in : b.last_block < b.size
  last_in = omega (arith, v.last_at, mod-lt (b.first_block + b.count) {m = b.size})

  near : ℕ
  near = b.last_block + 1

  length-near : length (take near b.circle) ≡ near
  unfolding near
  length-near = omega (arith, length-take near b.circle, v.blocks, last_in)

  get_or-past :
      (p : ℕ)
      → b.last_block < p
      → get_or (increase b).circle (p + b.unit) blank ≡ get_or b.circle p blank
  unfolding increase near
  get_or-past p h =
      let k : p + b.unit
          ≡ length (take near b.circle) + (length (replicate b.unit blank) + (p - near)) =
        omega (arith, length-near, length-replicate b.unit blank) in
      let back : near + (p - near) ≡ p = omega arith in
      ap (λ i. get_or (increase b).circle i blank) k
      ∙ get_or-append_right (take near b.circle) (replicate b.unit blank ++ drop near b.circle)
          (length (replicate b.unit blank) + (p - near)) blank
      ∙ get_or-append_right (replicate b.unit blank) (drop near b.circle) (p - near) blank
      ∙ get_or-drop near b.circle (p - near) blank
      ∙ ap (λ i. get_or b.circle i blank) back

  get_or-increase : (p : ℕ) → get_or (increase b).circle (moved b p) blank ≡ get_or b.circle p blank
  unfolding increase near
  get_or-increase p = elim (dec_lt b.last_block p) [
    | yes past ↦ rw (lt→ltb b.last_block p past) (get_or-past p past)
    | no up_to ↦ rw (le→ltb b.last_block p (omega arith)) (
        get_or-append_left (take near b.circle) (replicate b.unit blank ++ drop near b.circle) p
          blank (omega (arith, length-near, near_suc))
        ∙ get_or-take near b.circle p blank (omega (arith, near_suc)))
  ]
    where
      near_suc : near ≡ b.last_block + 1
      near_suc = refl

  moved_next :
      (p : ℕ)
      → p < b.size
      → b.last_block ≢ p
      → (moved b p + 1) % (b.size + b.unit) ≡ moved b ((p + 1) % b.size)
  unfolding moved
  moved_next p h ne = ground (
    arith,
    add-mod_lap p 1 b.size,
    add-mod_lap p 1 (b.size + b.unit),
    add-mod_lap (p + b.unit) 1 (b.size + b.unit),
    last_in,
  )

  moved_in : (p : ℕ) → p < b.size → moved b p < b.size + b.unit
  unfolding moved
  moved_in p h = ground arith

  shifted :
      (n p : ℕ)
      → b.last_block ≡ (p + suc n) % b.size
      → b.last_block ≡ ((p + 1) % b.size + n) % b.size
  shifted n p e =
      let w : p + suc n ≡ p + 1 + n = omega arith in
      e ∙ ap (λ i. i % b.size) w ∙ sym (mod-add-mod (p + 1) b.size n)

  -- A window that ends at the last block is the same in the longer circle.
  window-increase :
      (n p : ℕ)
      → p < b.size
      → n < b.size
      → b.last_block ≡ (p + n) % b.size
      → window (increase b).circle blank (b.size + b.unit) n (moved b p)
        ≡ window b.circle blank b.size n p
  window-increase zero p h k e = refl
  window-increase (suc n) p h k e =
      ap₂ ◌∷◌ (rw (mod-eq_of_lt (moved_in p h), mod-eq_of_lt h) (get_or-increase p)) (
        sym (window_mod (increase b).circle blank (b.size + b.unit) n (moved b p + 1))
        ∙ ap (window (increase b).circle blank (b.size + b.unit) n)
            (moved_next p h (λ q. add-mod-ne p n b.size k (sym e ∙ q ∙ sym (mod-eq_of_lt h))))
        ∙ window-increase n ((p + 1) % b.size) (mod-lt (p + 1) (omega arith)) (omega arith)
            (shifted n p e)
        ∙ window_mod b.circle blank b.size n (p + 1))

  -- The last block is `ahead` blocks from the current one.
  pub last_ahead : b.last_block ≡ (b.curr_block + ahead b) % b.size
  last_ahead = ground (arith, add-mod_lap b.curr_block (ahead b) b.size, last_in, v.curr_in)

  ahead-increase : ahead (increase b) ≡ ahead b
  unfolding increase moved
  ahead-increase = ground (arith, last_in, v.curr_in)

  last_moved : b.last_block ≡ (moved b b.first_block + b.count) % (b.size + b.unit)
  unfolding moved
  last_moved = ground (
    arith,
    v.last_at,
    v.first_in,
    v.room,
    last_in,
    add-mod_lap b.first_block b.count b.size,
    add-mod_lap b.first_block b.count (b.size + b.unit),
    add-mod_lap (b.first_block + b.unit) b.count (b.size + b.unit),
  )

  increase-IsValid : IsValid (increase b)
  unfolding increase
  increase-IsValid = record {
    blocks = omega (
      arith,
      length-append (take (b.last_block + 1) b.circle)
          (replicate b.unit blank ++ drop (b.last_block + 1) b.circle),
      length-append (replicate b.unit blank) (drop (b.last_block + 1) b.circle),
      length-take (b.last_block + 1) b.circle,
      length-drop (b.last_block + 1) b.circle,
      length-replicate b.unit blank,
      v.blocks,
      last_in,
    );
    first_in = moved_in b.first_block v.first_in;
    curr_in = moved_in b.curr_block v.curr_in;
    last_at = last_moved;
    unsent = rw ahead-increase v.unsent;
    room = omega (arith, v.room);
    grows = v.grows;
    packet = v.packet;
  }

  contents-increase : (contents (increase b) ≡ contents b) × (pending (increase b) ≡ pending b)
  unfolding increase
  contents-increase = (
    window-increase b.count b.first_block v.first_in v.room v.last_at,
    rw ahead-increase (
        window-increase (ahead b) b.curr_block v.curr_in (omega (arith, v.unsent, v.room))
          last_ahead),
  )

-- What the growing loop keeps.
pub record Grown (b b' : SndBuffer) : Type 0 where
  pub valid : IsValid b'
  pub same_contents : contents b' ≡ contents b
  pub same_pending : pending b' ≡ pending b
  pub same_ahead : ahead b' ≡ ahead b
  pub same_count : b'.count ≡ b.count
  pub same_mss : b'.mss ≡ b.mss
  pub same_msg : b'.next_msg_no ≡ b.next_msg_no

unchanged : (b : SndBuffer) → IsValid b → Grown b b
unchanged b v = record {
  valid = v;
  same_contents = refl;
  same_pending = refl;
  same_ahead = refl;
  same_count = refl;
  same_mss = refl;
  same_msg = refl;
}

Grown-increase : (b b' : SndBuffer) → IsValid b → Grown (increase b) b' → Grown b b'
unfolding increase
Grown-increase b b' v g = record {
  valid = g.valid;
  same_contents = g.same_contents ∙ (contents-increase b v).0;
  same_pending = g.same_pending ∙ (contents-increase b v).1;
  same_ahead = g.same_ahead ∙ ahead-increase b v;
  same_count = g.same_count;
  same_mss = g.same_mss;
  same_msg = g.same_msg;
}

enough_after :
    (f need : ℕ) (b : SndBuffer)
    → IsValid b
    → need + b.count < b.size + suc f
    → need + (increase b).count < (increase b).size + f
unfolding increase
enough_after f need b v h = omega arith

count-increase : (b : SndBuffer) → (increase b).count ≡ b.count
unfolding increase
count-increase b = refl

-- With enough fuel the loop ends with room for `need` more blocks and one to spare.
pub increase_until-Grown :
    (f need : ℕ) (b : SndBuffer)
    → IsValid b
    → need + b.count < b.size + f
    → Grown b (increase_until f need b) × (need + b.count < (increase_until f need b).size)
unfolding increase_until
increase_until-Grown zero need b v h = (unchanged b v, omega arith)
increase_until-Grown (suc f) need b v h = elim (Bool-cases (leb b.size (need + b.count))) [
  | inl t ↦
      rw (t, increase_until)
        (let r =
            increase_until-Grown f need (increase b) (increase-IsValid b v)
              (enough_after f need b v h) in
          (Grown-increase b _ v r.0, rw (← count-increase b) r.1))
  | inr t ↦ rw (t, increase_until) (unchanged b v, ground arith)
]
