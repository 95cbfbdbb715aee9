-- ===== src/AckWindow/Store.antt =====
-- CACKWindow (udt-sys/udt/window.cpp): `store` against a bounded queue of records, oldest first.
use ninewire.Base.{
  ℕ, suc, ◌+◌, ◌%◌, ◌<◌, ◌≡◌, ◌≢◌, arith, ap, ap₂, ◌∙◌, sym, ℤ, ◌==◌, if◌then◌else◌, List, [], ◌∷◌,
  ◌++◌, length, drop, length-set, ℕ_discrete, ==_self, ne→==, add-mod_lap,
}
use native.Mathlib.Nat.{mod-lt}
use ninewire.AckWindow.{AckWindow, store}
use ninewire.AckWindow.Records.{
  Entry, IsValid, slot, records, count, contents, length-records, records_mod, records-suc,
  slot-store_head, records-store,
}

-- The specification. A window of `size` slots remembers the last `size - 1` records.
unfoldable pub remember : ℕ → List Entry → Entry → List Entry
remember size q e = if length q + 1 == size then drop 1 (q ++ e ∷ []) else q ++ e ∷ []

-- `store` keeps the indices and the arrays in bounds.
pub store-IsValid : (w : AckWindow) (now : ℕ) (seq a : ℤ) → IsValid w → IsValid (store w now seq a)
unfolding store
store-IsValid w now seq a v = ground (
  arith,
  length-set w.ack_seq_no w.head seq,
  length-set w.ack w.head a,
  length-set w.time_stamp w.head now,
  mod-lt (w.head + 1) {m = w.size},
  mod-lt (w.tail + 1) {m = w.size},
)

-- The head is `count` slots past the tail.
head_lap : (w : AckWindow) → IsValid w → (w.head ≡ (w.tail + count w) % w.size) × (count w < w.size)
head_lap w v = (ground (arith, add-mod_lap w.tail (count w) w.size), ground arith)

stored_records :
    (w : AckWindow) (now : ℕ) (seq a : ℤ)
    → IsValid w
    → records (store w now seq a) (suc (count w)) w.tail ≡ contents w ++ (seq, a, now) ∷ []
unfolding store
stored_records w now seq a v =
    records-suc (store w now seq a) (count w) w.tail
    ∙ ap₂ (λ q (e : Entry). q ++ e ∷ [])
        (records-store w now seq a (count w) w.tail (head_lap w v).1 (head_lap w v).0)
        (ap (slot (store w now seq a)) (sym (head_lap w v).0) ∙ slot-store_head w now seq a v)

-- The indices after a write, with room left and with a full window.
store_indices :
    (w : AckWindow) (now : ℕ) (seq a : ℤ)
    → IsValid w
    → let w' = store w now seq a in
      (count w + 1 ≢ w.size → (w'.tail ≡ w.tail) × (count w' ≡ suc (count w)))
      × (count w + 1 ≡ w.size → (w'.tail ≡ (w.tail + 1) % w.size) × (count w' ≡ count w))
unfolding store
store_indices w now seq a v = (
  λ h. ground (arith, add-mod_lap w.head 1 w.size, add-mod_lap w.tail 1 w.size),
  λ h. ground (arith, add-mod_lap w.head 1 w.size, add-mod_lap w.tail 1 w.size),
)

-- Writing a record into a valid window appends it to the records that the window holds, the
-- oldest of which goes if the window is full.
pub store_refines :
    (w : AckWindow) (now : ℕ) (seq a : ℤ)
    → IsValid w
    → contents (store w now seq a) ≡ remember w.size (contents w) (seq, a, now)
unfolding remember store
store_refines w now seq a v = elim (ℕ_discrete (count w + 1) w.size) [
  | yes full ↦
      rw (length-records w (count w) w.tail, full, ==_self)
        (ap₂ (records w') ((store_indices w now seq a v).1 full).1
            ((store_indices w now seq a v).1 full).0
          ∙ records_mod w' (count w) (w.tail + 1)
          ∙ ap (drop 1) (stored_records w now seq a v))
  | no room ↦
      rw (length-records w (count w) w.tail, ne→== _ _ room)
        (ap₂ (records w') ((store_indices w now seq a v).0 room).1
            ((store_indices w now seq a v).0 room).0
          ∙ stored_records w now seq a v)
]
  where
    w' : AckWindow
    w' = store w now seq a
