-- ===== src/Base/Double.antt =====
-- What the congestion controls use of `double`: the operations, the order, and the laws of the
-- order that the properties need, which hold of IEEE 754 numbers, NaN included.
use mathlib.Core.Path.{◌≡◌}
use mathlib.Core.Bool.{Bool, true, false}
use ninewire.Base.Tests.{if◌then◌else◌}
use native.Mathlib.Omega.{arith}
use ninewire.Base.Int.{ℤ}

pub record Double : Type 1 where
  pub F : Type 0
  pub of_int : ℤ → F
  pub add : F → F → F
  pub sub : F → F → F
  pub mul : F → F → F
  pub div : F → F → F
  pub lt : F → F → Bool
  pub lt_irrefl : (a : F) → lt a a ≡ false
  pub lt_asymm : (a b : F) → lt a b ≡ true → lt b a ≡ false

module _ (d : Double) where
  open d use {F, lt}

  -- `std::max` and `std::min`
  abbrev pub fmax : F → F → F
  fmax a b = if lt a b then b else a

  abbrev pub fmin : F → F → F
  fmin a b = if lt b a then b else a

module _ (d : Double) where
  open d use {F, lt, lt_irrefl, lt_asymm}

  pub fmax-not-lt : (a b : F) → lt (fmax d a b) b ≡ false
  fmax-not-lt a b = ground (arith, lt_irrefl b)

  pub fmin-not-gt : (a b : F) → lt a (fmin d a b) ≡ false
  fmin-not-gt a b = ground (arith, lt_irrefl a, lt_asymm b a)
