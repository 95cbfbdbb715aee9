-- ===== src/SndBuffer/Add.antt =====
-- CSndBuffer::addBuffer (udt-sys/udt/buffer.cpp) appends the packets of a message.
use ninewire.Base.{
  ℕ, zero, suc, ◌+◌, ◌%◌, ◌<◌, ◌≡◌, refl, ap, ap₂, sym, ◌∙◌, arith, if◌then◌else◌, List, [], ◌∷◌,
  ◌++◌, length, set, length-set, window, window-push, add-mod_lap, ℤ, Bool, ◌==◌,
}
use native.Mathlib.Nat.{mod-eq_of_lt, mod-lt, mod-add-mod}
use mathlib.Core.List.{append_assoc, append-nil}
use ninewire.SeqNo.{max_msg_no}
use ninewire.SndBuffer.{SndBuffer, Block, blank, fill, block, blocks_of, increase_until, add_buffer}
use ninewire.SndBuffer.Grow.{
  IsValid, ahead, contents, pending, Grown, increase_until-Grown, last_ahead, last_in,
}

-- The blocks that the loop stores.
abbrev pub made : ℕ → (ℕ → Block) → ℕ → List Block
made zero f i = []
made (suc r) f i = f i ∷ made r f (i + 1)

-- What the loop leaves alone, and where the last block goes.
record Kept (b b' : SndBuffer) (r : ℕ) : Type 0 where
  size : b'.size ≡ b.size
  first : b'.first_block ≡ b.first_block
  curr : b'.curr_block ≡ b.curr_block
  count : b'.count ≡ b.count
  unit : b'.unit ≡ b.unit
  mss : b'.mss ≡ b.mss
  blocks : length b'.circle ≡ length b.circle
  last : b'.last_block ≡ (b.last_block + r) % b.size

fill-Kept :
    (r : ℕ) (f : ℕ → Block) (i : ℕ) (b : SndBuffer)
    → b.last_block < b.size
    → Kept b (fill r f i b) r
unfolding fill
fill-Kept zero f i b h = record {
  size = refl;
  first = refl;
  curr = refl;
  count = refl;
  unit = refl;
  mss = refl;
  blocks = refl;
  last = stays;
}
  where
    stays : b.last_block ≡ (b.last_block + 0) % b.size
    stays =
        let w : b.last_block ≡ b.last_block + 0 = omega arith in
        sym (mod-eq_of_lt h) ∙ ap (λ j. j % b.size) w
fill-Kept (suc r) f i b h =
    let k =
      fill-Kept r f (i + 1)
        (record b {
          circle = set b.circle b.last_block (f i);
          last_block = (b.last_block + 1) % b.size;
        })
        (mod-lt (b.last_block + 1) (omega arith)) in
    let w : b.last_block + 1 + r ≡ b.last_block + suc r = omega arith in
    record {
      size = k.size;
      first = k.first;
      curr = k.curr;
      count = k.count;
      unit = k.unit;
      mss = k.mss;
      blocks = k.blocks ∙ length-set b.circle b.last_block (f i);
      last = k.last ∙ mod-add-mod (b.last_block + 1) b.size r ∙ ap (λ j. j % b.size) w;
    }

-- A window that ends at the last block is longer by the stored blocks.
window-fill :
    (r : ℕ) (f : ℕ → Block) (i : ℕ) (b : SndBuffer) (n p : ℕ)
    → length b.circle ≡ b.size
    → b.last_block ≡ (p + n) % b.size
    → n + r < b.size
    → window (fill r f i b).circle blank b.size (n + r) p
      ≡ window b.circle blank b.size n p ++ made r f i
unfolding fill
window-fill zero f i b n p bl at h =
    let w : n + 0 ≡ n = omega arith in
    ap (λ m. window b.circle blank b.size m p) w
    ∙ sym (append-nil (window b.circle blank b.size n p))
window-fill (suc r) f i b n p bl at h =
    let b' : SndBuffer = record b {
      circle = set b.circle b.last_block (f i);
      last_block = (b.last_block + 1) % b.size;
    } in
    let w : n + suc r ≡ suc n + r = omega arith in
    let w' : p + n + 1 ≡ p + suc n = omega arith in
    ap (λ m. window (fill r f (i + 1) b').circle blank b.size m p) w
    ∙ window-fill r f (i + 1) b' (suc n) p (length-set b.circle b.last_block (f i) ∙ bl)
        (ap (λ j. (j + 1) % b.size) at ∙ mod-add-mod (p + n) b.size 1 ∙ ap (λ j. j % b.size) w')
        (omega arith)
    ∙ ap (λ q. q ++ made r f (i + 1)) (pushed b' refl)
    ∙ append_assoc (window b.circle blank b.size n p) (f i ∷ []) (made r f (i + 1))
  where
    pushed :
        (b' : SndBuffer)
        → b'.circle ≡ set b.circle b.last_block (f i)
        → window b'.circle blank b.size (suc n) p ≡ window b.circle blank b.size n p ++ f i ∷ []
    pushed b' e =
        ap (λ c. window c blank b.size (suc n) p) (e ∙ ap (λ j. set b.circle j (f i)) at)
        ∙ window-push b.circle blank (f i) b.size n p (omega arith)
            (rw bl (mod-lt (p + n) (omega arith)))

-- The packets of a message.
abbrev pub packets : SndBuffer → List ℕ → ℕ → ℤ → Bool → ℕ → List Block
packets b bytes len ttl order now =
    made (blocks_of len b.mss) (block b bytes len ttl order now (blocks_of len b.mss)) 0

-- A valid buffer with room, after the loop and with the new count.
module _ (b : SndBuffer) (v : IsValid b) (n : ℕ) (f : ℕ → Block) (next : ℕ)
    (room : n + b.count < b.size) where
  abbrev filled : SndBuffer
  filled = fill n f 0 b

  abbrev pub final : SndBuffer
  final = record filled { count = filled.count + n; next_msg_no = next }

  k : Kept b filled n
  k = fill-Kept n f 0 b (last_in b v)

  last_filled : filled.last_block ≡ (b.first_block + (b.count + n)) % b.size
  last_filled =
      let w : b.first_block + b.count + n ≡ b.first_block + (b.count + n) = omega arith in
      k.last
      ∙ ap (λ l. (l + n) % b.size) v.last_at
      ∙ mod-add-mod (b.first_block + b.count) b.size n
      ∙ ap (λ j. j % b.size) w

  ahead-final : ahead final ≡ ahead b + n
  ahead-final = ground (
    arith,
    k.last,
    k.size,
    k.curr,
    v.curr_in,
    v.unsent,
    last_in b v,
    add-mod_lap b.last_block n b.size,
  )

  grows_by :
      (m p : ℕ)
      → b.last_block ≡ (p + m) % b.size
      → m + n < b.size
      → window filled.circle blank filled.size (m + n) p
        ≡ window b.circle blank b.size m p ++ made n f 0
  grows_by m p at h =
      ap (λ s. window filled.circle blank s (m + n) p) k.size
      ∙ window-fill n f 0 b m p v.blocks at h

  final_lem :
      (contents final ≡ contents b ++ made n f 0)
      × (pending final ≡ pending b ++ made n f 0)
      × IsValid final
  final_lem = (
    ap₂ (λ c p. window filled.circle blank filled.size (c + n) p) k.count k.first
        ∙ grows_by b.count b.first_block v.last_at (omega arith),
    ap₂ (λ c p. window filled.circle blank filled.size c p) ahead-final k.curr
        ∙ grows_by (ahead b) b.curr_block (last_ahead b v) (omega (arith, v.unsent)),
    record {
      blocks = k.blocks ∙ v.blocks ∙ sym k.size;
      first_in = omega (arith, k.first, k.size, v.first_in);
      curr_in = omega (arith, k.curr, k.size, v.curr_in);
      last_at =
          last_filled
          ∙ ap₂ (λ p c. (p + (c + n)) % b.size) (sym k.first) (sym k.count)
          ∙ ap (λ s. (filled.first_block + (filled.count + n)) % s) (sym k.size);
      unsent = omega (arith, ahead-final, k.count, v.unsent);
      room = omega (arith, k.count, k.size);
      grows = omega (arith, k.unit, v.grows);
      packet = omega (arith, k.mss, v.packet);
    },
  )

module _ (b : SndBuffer) (bytes : List ℕ) (len : ℕ) (ttl : ℤ) (order : Bool) (now : ℕ)
    (v : IsValid b) where
  abbrev n : ℕ
  n = blocks_of len b.mss

  abbrev grown : SndBuffer
  grown = increase_until (suc (n + b.count)) n b

  g : Grown b grown × (n + b.count < grown.size)
  g = increase_until-Grown (suc (n + b.count)) n b v (omega arith)

  abbrev next : ℕ
  next = if b.next_msg_no + 1 == max_msg_no then 1 else b.next_msg_no + 1

  abbrev Appends : SndBuffer → Type 0
  Appends b' =
      (contents b' ≡ contents b ++ packets b bytes len ttl order now)
      × (pending b' ≡ pending b ++ packets b bytes len ttl order now)
      × IsValid b'

  -- Adding a message to a valid buffer appends its packets to those that wait for acknowledgement
  -- and to those that wait for sending, in order, however often the buffer has to grow, and the
  -- buffer stays valid.
  pub add_buffer_refines :
      let b' = add_buffer b bytes len ttl order now in
      (contents b' ≡ contents b ++ packets b bytes len ttl order now)
      × (pending b' ≡ pending b ++ packets b bytes len ttl order now)
      × IsValid b'
  unfolding add_buffer
  add_buffer_refines =
      let f = block b bytes len ttl order now n in
      let h = final_lem grown g.0.valid n f next (omega (arith, g.0.same_count, g.1)) in
      (
        h.0 ∙ ap (λ q. q ++ made n f 0) g.0.same_contents,
        h.1 ∙ ap (λ q. q ++ made n f 0) g.0.same_pending,
        h.2,
      )
