-- ===== src/Hash.antt =====
-- udt-sys/udt/queue.cpp: CHash, the sockets of a receiving queue by their number. A bucket's chain
-- is a list, its first node first. Socket numbers are positive, so `%` is that of ℕ.
pub mod Lookup
mod Tests
use ninewire.Base.{ℕ, ◌%◌, ◌==◌, if◌then◌else◌, List, [], ◌∷◌, Option, none, some, put}

pub record Bucket (U : Type 0) : Type 0 where
  pub id : ℕ
  pub udt : U

pub record Hash (U : Type 0) : Type 0 where
  pub bucket : ℕ → List (Bucket U)
  pub hash_size : ℕ

module _ {U : Type 0} where
  unfoldable pub init : ℕ → Hash U
  init size = record { bucket = λ i. []; hash_size = size }

  -- The walk of `lookup` along a chain.
  unfoldable pub find_in : ℕ → List (Bucket U) → Option U
  find_in id [] = none
  find_in id (b ∷ s) = if id == b.id then some b.udt else find_in id s

  unfoldable pub lookup : Hash U → ℕ → Option U
  unfolding find_in
  lookup h id = find_in id (h.bucket (id % h.hash_size))

  unfoldable pub insert : Hash U → ℕ → U → Hash U
  insert h id u =
      let k = id % h.hash_size in
      record h { bucket = put h.bucket k (record { id = id; udt = u } ∷ h.bucket k) }

  -- The walk of `remove` along a chain, which unlinks the first node with the number.
  unfoldable pub unlink : ℕ → List (Bucket U) → List (Bucket U)
  unlink id [] = []
  unlink id (b ∷ s) = if id == b.id then s else b ∷ unlink id s

  unfoldable pub remove : Hash U → ℕ → Hash U
  unfolding unlink
  remove h id =
      let k = id % h.hash_size in record h { bucket = put h.bucket k (unlink id (h.bucket k)) }
