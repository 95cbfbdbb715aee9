-- ===== src/AckWindow/Records.antt =====
-- The records of CACKWindow (udt-sys/udt/window.cpp) as a list, oldest first.
use ninewire.Base.{
  ℕ, zero, suc, ◌+◌, ◌-◌, ◌%◌, ◌<◌, ◌≡◌, ◌≢◌, refl, arith, ap, ap₂, ◌∙◌, sym, ℤ, pos, leb,
  if◌then◌else◌, List, [], ◌∷◌, ◌++◌, length, get_or, get_or-set_self, get_or-set_ne, mod-mod,
  add-mod-ne,
}
use native.Mathlib.Nat.{mod-add-mod}
use ninewire.AckWindow.{AckWindow, store}

-- An ACK sequence number, the data ACK that it carried and the time of sending.
abbrev pub Entry : Type 0
Entry = ℤ × ℤ × ℕ

pub record IsValid (w : AckWindow) : Type 0 where
  pub seqs : length w.ack_seq_no ≡ w.size
  pub acks : length w.ack ≡ w.size
  pub stamps : length w.time_stamp ≡ w.size
  pub head_in : w.head < w.size
  pub tail_in : w.tail < w.size

abbrev pub slot : AckWindow → ℕ → Entry
slot w i = (get_or w.ack_seq_no i (pos 0), get_or w.ack i (pos 0), get_or w.time_stamp i 0)

-- The `n` records from slot `j` on, going round at the size.
abbrev pub records : AckWindow → ℕ → ℕ → List Entry
records w zero j = []
records w (suc n) j = slot w (j % w.size) ∷ records w n (j + 1)

abbrev pub count : AckWindow → ℕ
count w = (if leb w.tail w.head then w.head else w.head + w.size) - w.tail

abbrev pub contents : AckWindow → List Entry
contents w = records w (count w) w.tail

pub length-records : (w : AckWindow) (n j : ℕ) → length (records w n j) ≡ n
length-records w zero j = refl
length-records w (suc n) j = ap suc (length-records w n (j + 1))

pub records_mod : (w : AckWindow) (n j : ℕ) → records w n (j % w.size) ≡ records w n j
records_mod w zero j = refl
records_mod w (suc n) j =
    ap₂ {C = List Entry} (λ i q. slot w i ∷ q) (mod-mod j w.size)
      (sym (records_mod w n (j % w.size + 1))
        ∙ ap (records w n) (mod-add-mod j w.size 1)
        ∙ records_mod w n (j + 1))

pub records-suc :
    (w : AckWindow) (n j : ℕ)
    → records w (suc n) j ≡ records w n j ++ slot w ((j + n) % w.size) ∷ []
records-suc w zero j = ap (λ i. slot w (i % w.size) ∷ []) (omega arith)
records-suc w (suc n) j =
    ap (λ q. slot w (j % w.size) ∷ q)
      (records-suc w n (j + 1)
        ∙ ap (λ i. records w n (j + 1) ++ slot w (i % w.size) ∷ []) (omega arith))

-- A write to the head changes no other slot.
slot-store :
    (w : AckWindow) (now : ℕ) (seq a : ℤ) (i : ℕ)
    → w.head ≢ i
    → slot (store w now seq a) i ≡ slot w i
unfolding store
slot-store w now seq a i h = cc (
  get_or-set_ne w.ack_seq_no w.head i seq (pos 0) h,
  get_or-set_ne w.ack w.head i a (pos 0) h,
  get_or-set_ne w.time_stamp w.head i now 0 h,
)

pub slot-store_head :
    (w : AckWindow) (now : ℕ) (seq a : ℤ)
    → IsValid w
    → slot (store w now seq a) w.head ≡ (seq, a, now)
unfolding store
slot-store_head w now seq a v = cc (
  get_or-set_self w.ack_seq_no w.head seq (pos 0) (omega arith),
  get_or-set_self w.ack w.head a (pos 0) (omega arith),
  get_or-set_self w.time_stamp w.head now 0 (omega arith),
)

-- What `store` writes lies outside the records.
pub records-store :
    (w : AckWindow) (now : ℕ) (seq a : ℤ) (n j : ℕ)
    → n < w.size
    → w.head ≡ (j + n) % w.size
    → records (store w now seq a) n j ≡ records w n j
unfolding store
records-store w now seq a zero j h e = refl
records-store w now seq a (suc n) j h e =
    ap₂ {C = List Entry} ◌∷◌ (slot-store w now seq a (j % w.size) (rw e (add-mod-ne j n w.size h)))
      (records-store w now seq a n (j + 1) (omega arith) (e ∙ ap (λ i. i % w.size) (omega arith)))
