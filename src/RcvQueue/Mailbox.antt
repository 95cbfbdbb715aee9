-- ===== src/RcvQueue/Mailbox.antt =====
-- udt-sys/udt/queue.cpp: the map of CRcvQueue with the packets that wait, entry by entry.
use ninewire.Base.{if_chooses, ℕ, ◌≡◌, refl, arith, ◌==◌, if◌then◌else◌, List, [], ◌∷◌, none, some}
use ninewire.RcvQueue.{find_entry, set_entry, erase_entry}

module _ {A : Type 0} where
  -- No key has two entries.
  unfoldable pub IsDistinct : List (ℕ × A) → Type 0
  IsDistinct [] = Unit
  IsDistinct ((k, a) ∷ m) = (find_entry m k ≡ none) × IsDistinct m

  pub find_entry-set_entry :
      (m : List (ℕ × A)) (id j : ℕ) (a b : A)
      → find_entry m id ≡ some b
      → find_entry (set_entry m id a) j ≡ (if j == id then some a else find_entry m j)
  unfolding find_entry set_entry
  find_entry-set_entry [] id j a b e = ground (arith, e)
  find_entry-set_entry ((k, c) ∷ m) id j a b e = ground (arith, e, find_entry-set_entry m id j a b)

  set_entry-none :
      (m : List (ℕ × A)) (id j : ℕ) (a : A)
      → find_entry m j ≡ none
      → find_entry (set_entry m id a) j ≡ none
  unfolding find_entry set_entry
  set_entry-none [] id j a e = refl
  set_entry-none ((k, c) ∷ m) id j a e = ground (arith, e, set_entry-none m id j a)

  erase_entry-none :
      (m : List (ℕ × A)) (id j : ℕ) → find_entry m j ≡ none → find_entry (erase_entry m id) j ≡ none
  unfolding find_entry erase_entry
  erase_entry-none [] id j e = refl
  erase_entry-none ((k, c) ∷ m) id j e = ground (arith, e, erase_entry-none m id j)

  pub find_entry-erase_entry :
      (m : List (ℕ × A)) (id j : ℕ)
      → IsDistinct m
      → find_entry (erase_entry m id) j ≡ (if j == id then none else find_entry m j)
  unfolding find_entry erase_entry IsDistinct
  find_entry-erase_entry [] id j d = ground arith
  find_entry-erase_entry ((k, a) ∷ m) id j (fresh, d) =
      ground (arith, fresh, find_entry-erase_entry m id j d)

  pub set_entry-IsDistinct :
      (m : List (ℕ × A)) (id : ℕ) (a : A) → IsDistinct m → IsDistinct (set_entry m id a)
  unfolding set_entry IsDistinct
  set_entry-IsDistinct [] id a d = d
  set_entry-IsDistinct ((k, b) ∷ m) id a (fresh, d) =
      if_chooses IsDistinct (k == id) (λ e. (fresh, d))
        (λ e. (set_entry-none m id k a fresh, set_entry-IsDistinct m id a d))

  pub erase_entry-IsDistinct :
      (m : List (ℕ × A)) (id : ℕ) → IsDistinct m → IsDistinct (erase_entry m id)
  unfolding erase_entry IsDistinct
  erase_entry-IsDistinct [] id d = d
  erase_entry-IsDistinct ((k, b) ∷ m) id (fresh, d) =
      if_chooses IsDistinct (k == id) (λ e. d)
        (λ e. (erase_entry-none m id k fresh, erase_entry-IsDistinct m id d))
