-- ===== src/Base/Ring.antt =====
-- Indices that go round an array, for the circular arrays of udt-sys/udt.
use Prim.Native.Nat.{ℕ, zero, suc, ◌+◌, ◌-◌, ◌%◌, ◌<◌, ◌≤◌}
use mathlib.Core.Path.{◌≡◌}
use mathlib.Core.Logic.{◌≢◌}
use native.Mathlib.Omega.{arith}
use native.Mathlib.Decide.{dec_lt}
use native.Mathlib.Nat.{mod-add-mod, mod-eq_of_lt, mod-eq-sub-mod, mod-lt}
use ninewire.Base.Tests.{ltb, if◌then◌else◌}

pub mod-mod : (i n : ℕ) → i % n % n ≡ i % n
mod-mod zero n = grind arith
mod-mod (suc i) n = ground (arith, mod-add-mod (suc i) n 0)

-- One lap at most: the index in plain terms.
pub add-mod_lap :
    (r n size : ℕ)
    → r < size
    → n ≤ size
    → (r + n) % size ≡ (if ltb (r + n) size then r + n else r + n - size)
add-mod_lap r n size hr hn = elim (dec_lt (r + n) size) [
  | yes p ↦ ground (arith, mod-eq_of_lt p)
  | no p ↦ ground (
    arith,
    mod-eq-sub-mod {n = r + n} {m = size} (omega arith),
    mod-eq_of_lt {n = r + n - size} {m = size} (omega arith),
  )
]

-- Fewer than `size` steps round the array do not come back to the start.
pub add-mod-ne : (j n size : ℕ) → suc n < size → (j + suc n) % size ≢ j % size
add-mod-ne j n size h =
    ground
      (arith, mod-lt j {m = size}, mod-add-mod j size (suc n), add-mod_lap (j % size) (suc n) size)
