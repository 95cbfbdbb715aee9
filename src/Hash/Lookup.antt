-- ===== src/Hash/Lookup.antt =====
-- udt-sys/udt/queue.cpp: CHash as a stack of entries for each number.
use ninewire.Base.{
  ℕ, ◌%◌, ◌≡◌, refl, ap, ◌∙◌, arith, ◌==◌, if◌then◌else◌, false, Bool-cases, inl, inr, List, [],
  ◌∷◌, Option, none, some,
}
use ninewire.Hash.{Bucket, Hash, init, find_in, lookup, insert, unlink, remove}

-- The calls that change the table.
pub data Change (U : Type 0) : Type 0 where
  add : ℕ → U → Change U
  drop : ℕ → Change U

module _ {U : Type 0} where
  unfoldable pub change : Hash U → Change U → Hash U
  unfolding insert remove
  change h (add id u) = insert h id u
  change h (drop id) = remove h id

  unfoldable pub run : Hash U → List (Change U) → Hash U
  unfolding change
  run h [] = h
  run h (c ∷ s) = run (change h c) s

  -- What a table means, without hashes and chains: a stack of entries for each number. A new entry
  -- goes on top, and a removal takes the top off.
  abbrev pub tail_of : List U → List U
  tail_of [] = []
  tail_of (x ∷ s) = s

  abbrev pub head_of : List U → Option U
  head_of [] = none
  head_of (x ∷ s) = some x

  unfoldable pub stacks : List (Change U) → (ℕ → List U) → ℕ → List U
  stacks [] w k = w k
  stacks (add id u ∷ s) w k = stacks s (λ j. if j == id then u ∷ w j else w j) k
  stacks (drop id ∷ s) w k = stacks s (λ j. if j == id then tail_of (w j) else w j) k

  -- The entries of a number, the latest first.
  abbrev matching : ℕ → List (Bucket U) → List U
  matching k [] = []
  matching k (b ∷ s) = if k == b.id then b.udt ∷ matching k s else matching k s

  find_in-matching : (k : ℕ) (l : List (Bucket U)) → find_in k l ≡ head_of (matching k l)
  unfolding find_in
  find_in-matching k [] = refl
  find_in-matching k (b ∷ s) = ground (arith, find_in-matching k s)

  matching-unlink :
      (k id : ℕ) (l : List (Bucket U))
      → matching k (unlink id l) ≡ (if k == id then tail_of (matching k l) else matching k l)
  unfolding unlink
  matching-unlink k id [] = ground arith
  matching-unlink k id (b ∷ s) = ground (arith, matching-unlink k id s)

  -- The chain of a number has the entries of that number that its stack has.
  abbrev Agrees : Hash U → (ℕ → List U) → Type 0
  Agrees h w = (k : ℕ) → matching k (h.bucket (k % h.hash_size)) ≡ w k

  insert-Agrees :
      (h : Hash U) (w : ℕ → List U) (id : ℕ) (u : U)
      → Agrees h w
      → Agrees (insert h id u) (λ j. if j == id then u ∷ w j else w j)
  unfolding insert
  insert-Agrees h w id u a k = elim (Bool-cases (k % h.hash_size == id % h.hash_size)) [
    | inl e ↦
        let same : k % h.hash_size ≡ id % h.hash_size = ground (arith, e) in
        rw e (ground (arith, a k, ap (λ j. matching k (h.bucket j)) same))
    | inr e ↦ rw e (ground (arith, a k, ap (λ j. j % h.hash_size) {x = k} {y = id}))
  ]

  remove-Agrees :
      (h : Hash U) (w : ℕ → List U) (id : ℕ)
      → Agrees h w
      → Agrees (remove h id) (λ j. if j == id then tail_of (w j) else w j)
  unfolding remove
  remove-Agrees h w id a k = elim (Bool-cases (k % h.hash_size == id % h.hash_size)) [
    | inl e ↦
        let same : k % h.hash_size ≡ id % h.hash_size = ground (arith, e) in
        rw e (matching-unlink k id (h.bucket (id % h.hash_size)) ∙ rw (← same) (rw (a k) refl))
    | inr e ↦
        let apart : (k == id) ≡ false =
          ground (arith, e, ap (λ j. j % h.hash_size) {x = k} {y = id}) in
        rw (e, apart) (a k)
  ]

  run-stacks :
      (h : Hash U) (w : ℕ → List U) (s : List (Change U)) (k : ℕ)
      → Agrees h w
      → matching k ((run h s).bucket (k % (run h s).hash_size)) ≡ stacks s w k
  unfolding run change stacks
  run-stacks h w [] k a = a k
  run-stacks h w (add id u ∷ s) k a =
      run-stacks (insert h id u) (λ j. if j == id then u ∷ w j else w j) s k
        (insert-Agrees h w id u a)
  run-stacks h w (drop id ∷ s) k a =
      run-stacks (remove h id) (λ j. if j == id then tail_of (w j) else w j) s k
        (remove-Agrees h w id a)

  -- Whatever was inserted and removed since `init`, and in whatever order, `lookup` finds for each
  -- number the entry that was inserted last and not removed, where a removal takes back the last
  -- entry of its number that is left and touches no other number, for every size of the table.
  pub lookup-run :
      (size : ℕ) (s : List (Change U)) (k : ℕ)
      → lookup (run (init size) s) k ≡ head_of (stacks s (λ j. []) k)
  unfolding lookup init
  lookup-run size s k =
      find_in-matching k _ ∙ ap head_of (run-stacks (init size) (λ j. []) s k (λ j. refl))
