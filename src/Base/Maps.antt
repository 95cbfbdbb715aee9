-- ===== src/Base/Maps.antt =====
-- Arrays and stores as functions of an index, with a write at one place.
use Prim.Native.Nat.{ℕ}
use ninewire.Base.Tests.{◌==◌, if◌then◌else◌}

abbrev pub put {ℓ} : {A : Type ℓ} → (ℕ → A) → ℕ → A → ℕ → A
put f k v = λ j. if j == k then v else f j
