-- ===== src/Base/Results.antt =====
-- A call that returns or throws a CUDTException (udt-sys/udt/udtCommon.cpp) with its major and
-- minor number.
use Prim.Native.Nat.{ℕ}

pub data Result {ℓ} (A : Type ℓ) : Type ℓ where
  ok : A → Result A
  err : ℕ → ℕ → Result A

infixl 5 ◌>>=◌
abbrev pub ◌>>=◌ {ℓ κ} : {A : Type ℓ} {B : Type κ} → Result A → (A → Result B) → Result B
ok a >>= f = f a
err i j >>= f = err i j

-- The value of a call that returns, else the one from before.
abbrev pub after {ℓ} : {A : Type ℓ} → A → Result A → A
after a (ok b) = b
after a (err i j) = a
