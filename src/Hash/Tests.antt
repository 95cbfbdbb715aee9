-- ===== src/Hash/Tests.antt =====
-- Runs of CHash (udt-sys/udt/queue.cpp) at concrete socket numbers.
use ninewire.Base.{ℕ, ◌≡◌, refl, List, [], ◌∷◌, some}
use ninewire.Hash.{init, lookup}
use ninewire.Hash.Lookup.{Change, add, drop, run, head_of, stacks, lookup-run}

-- 3 and 8 share a bucket of 5, and 3 comes twice.
abbrev changes : List (Change ℕ)
changes = add 3 30 ∷ add 8 80 ∷ add 3 31 ∷ drop 3 ∷ drop 7 ∷ []

older_entry_is_left : lookup (run (init 5) changes) 3 ≡ some 30
unfolding lookup run init
older_entry_is_left = refl

lookup-run_example : lookup (run (init 5) changes) 8 ≡ head_of (stacks changes (λ j. []) 8)
lookup-run_example = lookup-run 5 changes 8
