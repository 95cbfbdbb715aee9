-- ===== src/SndBuffer/Stream.antt =====
-- CSndBuffer (udt-sys/udt/buffer.cpp): the packets of a message carry its bytes, and reading gives
-- them in order.
use ninewire.Base.{
  ℕ, zero, suc, ◌+◌, ◌-◌, ◌%◌, ◌*◌, ◌≤◌, ◌<◌, ◌≡◌, ◌≢◌, refl, ap, ap₂, sym, ◌∙◌, arith, ltb, ◌==◌,
  if◌then◌else◌, List, [], ◌∷◌, ◌++◌, length, take, drop, length-take, length-drop,
  take-append-drop, ℤ, Bool, true, false, Option, none, some, window, window_mod, shr, low_bits,
  add-mod_lap, tests, ltb→le, ℕ_discrete, ne→==, get_or, Bool-cases, inl, inr,
}
use native.Mathlib.Nat.{mod-lt, mod-eq_of_lt, div-add-mod}
use mathlib.Core.List.{append-nil}
use ninewire.SeqNo.{max_msg_no}
use ninewire.SndBuffer.{SndBuffer, Block, blank, block, blocks_of, msg_word, read_data}
use ninewire.SndBuffer.Grow.{IsValid, ahead, contents, pending, last_in}
use ninewire.SndBuffer.Add.{made, packets}

-- The bytes that packets carry, in order.
abbrev pub carried : List Block → List ℕ
carried [] = []
carried (k ∷ s) = k.payload ++ carried s

abbrev pub AllShort : ℕ → List Block → Type 0
AllShort mss [] = Unit
AllShort mss (k ∷ s) = (length k.payload ≤ mss) × AllShort mss s

drop-nil {ℓ} : (A : Type ℓ) (k : ℕ) → drop {A = A} k [] ≡ []
drop-nil A zero = refl
drop-nil A (suc k) = refl

drop-drop {ℓ} : {A : Type ℓ} (m n : ℕ) (xs : List A) → drop m (drop n xs) ≡ drop (n + m) xs
drop-drop {A} m zero xs = ap (λ k. drop k xs) {x = m} {y = 0 + m} (omega arith)
drop-drop {A} m (suc n) [] = drop-nil A m ∙ sym (drop-nil A (suc n + m))
drop-drop {A} m (suc n) (x ∷ xs) =
    drop-drop m n xs ∙ ap (λ k. drop k (x ∷ xs)) {x = suc (n + m)} {y = suc n + m} (omega arith)

drop_all {ℓ} : {A : Type ℓ} (n : ℕ) (xs : List A) → length xs ≤ n → drop n xs ≡ []
drop_all zero [] h = refl
drop_all zero (x ∷ xs) h = elim h [ ]
drop_all (suc n) [] h = refl
drop_all (suc n) (x ∷ xs) h = drop_all n xs (omega arith)

take_all {ℓ} : {A : Type ℓ} (n : ℕ) (xs : List A) → length xs ≤ n → take n xs ≡ xs
take_all zero [] h = refl
take_all zero (x ∷ xs) h = elim h [ ]
take_all (suc n) [] h = refl
take_all (suc n) (x ∷ xs) h = ap (λ t. x ∷ t) (take_all n xs (omega arith))

-- A first piece of at most `mss` bytes, and the rest.
split_piece :
    (mss skip : ℕ) (bytes : List ℕ)
    → take (if ltb mss (length bytes - skip) then mss else length bytes - skip) (drop skip bytes)
        ++ drop (skip + mss) bytes
      ≡ drop skip bytes
split_piece mss skip bytes = elim (Bool-cases (ltb mss (length bytes - skip))) [
  | inl more ↦ rw (more, ← drop-drop mss skip bytes) (take-append-drop mss (drop skip bytes))
  | inr last ↦ rw last (
      ap₂ ◌++◌
        (take_all (length bytes - skip) (drop skip bytes) (omega (arith, length-drop skip bytes)))
        (drop_all (skip + mss) bytes (omega (tests, ltb→le mss (length bytes - skip) last)))
      ∙ append-nil (drop skip bytes))
]

length-piece :
    (mss rest : ℕ) (xs : List ℕ) → length (take (if ltb mss rest then mss else rest) xs) ≤ mss
length-piece mss rest xs = ground (arith, length-take (if ltb mss rest then mss else rest) xs)

module _ (b : SndBuffer) (bytes : List ℕ) (ttl : ℤ) (order : Bool) (now blocks : ℕ) where
  abbrev piece : ℕ → Block
  piece = block b bytes (length bytes) ttl order now blocks

  carried-made :
      (r i : ℕ) → length bytes ≤ (i + r) * b.mss → carried (made r piece i) ≡ drop (i * b.mss) bytes
  unfolding block
  carried-made zero i h = sym (drop_all (i * b.mss) bytes (grind arith))
  carried-made (suc r) i h =
      let next : (i + 1) * b.mss ≡ i * b.mss + b.mss = omega arith in
      ap (λ q. (piece i).payload ++ q)
        (carried-made r (i + 1) (grind arith) ∙ ap (λ k. drop k bytes) next)
      ∙ split_piece b.mss (i * b.mss) bytes

  AllShort-made : (r i : ℕ) → AllShort b.mss (made r piece i)
  unfolding block
  AllShort-made zero i = tt
  AllShort-made (suc r) i = (
    length-piece b.mss (length bytes - i * b.mss) (drop (i * b.mss) bytes),
    AllShort-made r (i + 1),
  )

pub blocks_of_enough : (len mss : ℕ) → 0 < mss → len ≤ blocks_of len mss * mss
unfolding blocks_of
blocks_of_enough len mss h = elim (ℕ_discrete (len % mss) 0) [
  | yes e ↦ rw e (omega (arith, div-add-mod len mss, e))
  | no e ↦ rw (ne→== _ _ e) (omega (arith, div-add-mod len mss, mod-lt len h))
]

-- With segments of at least one byte, the packets of a message carry just the bytes of the message
-- in order, and none is longer than the segment size.
pub packets_carry :
    (b : SndBuffer) (bytes : List ℕ) (ttl : ℤ) (order : Bool) (now : ℕ)
    → 0 < b.mss
    → (carried (packets b bytes (length bytes) ttl order now) ≡ bytes)
      × AllShort b.mss (packets b bytes (length bytes) ttl order now)
packets_carry b bytes ttl order now h =
    let n = blocks_of (length bytes) b.mss in
    let whole : length bytes ≤ (0 + n) * b.mss =
      grind (arith, blocks_of_enough (length bytes) b.mss h) in
    let start : 0 * b.mss ≡ 0 = omega arith in
    (
      carried-made b bytes ttl order now n n 0 whole ∙ ap (λ k. drop k bytes) start,
      AllShort-made b bytes ttl order now n n 0,
    )

-- The word of block `i` of `n` blocks reads back, by the shifts of CPacket: the boundary is 3 for
-- an only block, 2 for the first, 1 for the last and 0 for the others, then the order flag and the
-- message number.
pub msg_word_fields :
    (next n i : ℕ) (order : Bool)
    → next ≤ max_msg_no
    → let w = msg_word next order n i in
      (shr w 30 ≡ (if i == 0 then 2 else 0) + (if i + 1 == n then 1 else 0))
      × (low_bits (shr w 29) 1 ≡ (if order then 1 else 0))
      × (low_bits w 29 ≡ next)
unfolding msg_word
msg_word_fields next n i true h = (ground arith, ground arith, ground arith)
msg_word_fields next n i false h = (ground arith, ground arith, ground arith)

module _ (b : SndBuffer) (v : IsValid b) where
  abbrev read_on : SndBuffer
  read_on = record b { curr_block = (b.curr_block + 1) % b.size }

  ahead-read_on : b.curr_block ≢ b.last_block → ahead b ≡ suc (ahead read_on)
  ahead-read_on h = ground (arith, add-mod_lap b.curr_block 1 b.size, v.curr_in, last_in b v)

  pending-read_on :
      b.curr_block ≢ b.last_block → pending b ≡ get_or b.circle b.curr_block blank ∷ pending read_on
  pending-read_on h =
      ap (λ n. window b.circle blank b.size n b.curr_block) (ahead-read_on h)
      ∙ ap₂ (λ i q. get_or b.circle i blank ∷ q) (mod-eq_of_lt v.curr_in)
          (sym (window_mod b.circle blank b.size (ahead read_on) (b.curr_block + 1)))

  read_on-IsValid : b.curr_block ≢ b.last_block → IsValid read_on
  read_on-IsValid h = record {
    blocks = v.blocks;
    first_in = v.first_in;
    curr_in = mod-lt (b.curr_block + 1) (omega (arith, v.curr_in));
    last_at = v.last_at;
    unsent = omega (arith, ahead-read_on h, v.unsent);
    room = v.room;
    grows = v.grows;
    packet = v.packet;
  }

abbrev pub Reads : SndBuffer → Option Block × SndBuffer → Type 0
Reads b (none, b') = (pending b ≡ []) × (b' ≡ b)
Reads b (some p, b') = (pending b ≡ p ∷ pending b') × (contents b' ≡ contents b) × IsValid b'

-- Reading from a valid buffer gives the first packet that was never sent and leaves the others, or
-- nothing if there is none, and then changes nothing; the packets that wait for acknowledgement
-- stay, and the buffer stays valid.
pub read_data_refines : (b : SndBuffer) → IsValid b → Reads b (read_data b)
unfolding read_data
read_data_refines b v = elim (ℕ_discrete b.curr_block b.last_block) [
  | yes e ↦ rw (at_last e) (pending_nil e, refl)
  | no h ↦ rw (ne→== _ _ h) (pending-read_on b v h, refl, read_on-IsValid b v h)
]
  where
    at_last : b.curr_block ≡ b.last_block → (b.curr_block == b.last_block) ≡ true
    at_last e = ground arith

    none_ahead : b.curr_block ≡ b.last_block → ahead b ≡ 0
    none_ahead e = ground arith

    pending_nil : b.curr_block ≡ b.last_block → pending b ≡ []
    pending_nil e = ap (λ n. window b.circle blank b.size n b.curr_block) (none_ahead e)
