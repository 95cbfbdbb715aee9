-- ===== src/Base/Window.antt =====
-- A stretch of a circular array, for the buffers of udt-sys/udt.
use Prim.Native.Nat.{ℕ, zero, suc, ◌+◌, ◌%◌, ◌<◌}
use mathlib.Core.Path.{◌≡◌, refl, sym, ap, ap₂, ◌∙◌}
use mathlib.Core.List.{List, [], ◌∷◌, ◌++◌}
use native.Mathlib.Omega.{arith}
use native.Mathlib.Nat.{mod-add-mod}
use ninewire.Base.Lists.{length, get_or, set, get_or-set_self, get_or-set_ne}
use ninewire.Base.Ring.{mod-mod, add-mod-ne}

module _ {ℓ} {A : Type ℓ} where
  -- The `n` entries from place `j` on, going round at `size`.
  abbrev pub window : List A → A → ℕ → ℕ → ℕ → List A
  window xs d size zero j = []
  window xs d size (suc n) j = get_or xs (j % size) d ∷ window xs d size n (j + 1)

module _ {ℓ} {A : Type ℓ} (xs : List A) (d : A) (size : ℕ) where
  pub length-window : (n j : ℕ) → length (window xs d size n j) ≡ n
  length-window zero j = refl
  length-window (suc n) j = ap suc (length-window n (j + 1))

  pub window_mod : (n j : ℕ) → window xs d size n (j % size) ≡ window xs d size n j
  window_mod zero j = refl
  window_mod (suc n) j =
      ap₂ (λ i q. get_or xs i d ∷ q) (mod-mod j size)
        (sym (window_mod n (j % size + 1))
          ∙ ap (window xs d size n) (mod-add-mod j size 1)
          ∙ window_mod n (j + 1))

  pub window-suc :
      (n j : ℕ)
      → window xs d size (suc n) j ≡ window xs d size n j ++ get_or xs ((j + n) % size) d ∷ []
  window-suc zero j = ap (λ i. get_or xs (i % size) d ∷ []) (omega arith)
  window-suc (suc n) j =
      ap (λ q. get_or xs (j % size) d ∷ q)
        (window-suc n (j + 1)
          ∙ ap (λ i. window xs d size n (j + 1) ++ get_or xs (i % size) d ∷ []) (omega arith))

  -- A write just past the window does not change it,
  pub window-set_past :
      (v : A) (n j : ℕ)
      → n < size
      → window (set xs ((j + n) % size) v) d size n j ≡ window xs d size n j
  window-set_past v zero j h = refl
  window-set_past v (suc n) j h =
      ap₂ ◌∷◌ (get_or-set_ne xs ((j + suc n) % size) (j % size) v d (add-mod-ne j n size h)) (
        ap (λ i. window (set xs (i % size) v) d size n (j + 1)) (omega arith)
        ∙ window-set_past v n (j + 1) (omega arith))

-- and makes it longer by what is written.
pub window-push {ℓ} :
    {A : Type ℓ} (xs : List A) (d v : A) (size n j : ℕ)
    → n < size
    → (j + n) % size < length xs
    → window (set xs ((j + n) % size) v) d size (suc n) j ≡ window xs d size n j ++ v ∷ []
window-push xs d v size n j h k =
    window-suc (set xs ((j + n) % size) v) d size n j
    ∙ ap₂ (λ q w. q ++ w ∷ []) (window-set_past xs d size v n j h)
        (get_or-set_self xs ((j + n) % size) v d k)
