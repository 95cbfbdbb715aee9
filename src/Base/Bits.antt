-- ===== src/Base/Bits.antt =====
-- Bit tests of C on unsigned words, in the form that the arithmetic tactics read.
use Prim.Native.Nat.{ℕ, ◌+◌, ◌/◌, ◌%◌, ◌^◌}
use ninewire.Base.Tests.{◌==◌, if◌then◌else◌}

-- `x >> k` and `x & (2^k - 1)`
abbrev pub shr : ℕ → ℕ → ℕ
shr x k = x / 2 ^ k

abbrev pub low_bits : ℕ → ℕ → ℕ
low_bits x k = x % 2 ^ k

-- `x | (1 << k)`
abbrev pub set_bit : ℕ → ℕ → ℕ
set_bit x k = if x / 2 ^ k % 2 == 1 then x else x + 2 ^ k
