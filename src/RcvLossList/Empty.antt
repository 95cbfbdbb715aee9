-- ===== src/RcvLossList/Empty.antt =====
-- CRcvLossList (udt-sys/udt/list.cpp) while it is empty, and the first insertion.
use ninewire.Base.{
  ℕ, zero, suc, ◌+◌, ◌-◌, ◌%◌, ◌^◌, ◌≤◌, ◌<◌, ◌≡◌, ◌≢◌, refl, ap, sym, ◌∙◌, arith, ℤ, pos,
  minus_one, true, if◌then◌else◌, [], ◌∷◌, length, get_or, set, length-set, get_or-set_self,
  get_or-set_ne, eqb_ℤ, replicate, length-replicate, pos_add, add-mod_lap,
}
use native.Mathlib.Nat.{mod-lt, mod-add-mod}
use ninewire.RcvLossList.{RcvLossList, new, insert, insert_first}
use ninewire.RcvLossList.Spans.{seq, slot, Chain, Holds}
use ninewire.RcvLossList.Append.{end-eq}
use ninewire.RcvLossList.Refine.{seqlen-seq}

pub record IsEmpty (l : RcvLossList) : Type 0 where
  pub lengths :
      (length l.data1 ≡ l.size)
      × (length l.data2 ≡ l.size)
      × (length l.next ≡ l.size)
      × (length l.prior ≡ l.size)
  pub clean :
      (i : ℕ)
      → i < l.size
      → (get_or l.data1 i (pos 0) ≡ minus_one) × (get_or l.data2 i (pos 0) ≡ minus_one)
  pub counted : l.loss_length ≡ pos 0
  pub some_slot : 0 < l.size
  pub small : l.size < 2 ^ 30 - 1

get_or-replicate_lt : (n i : ℕ) (d v : ℤ) → i < n → get_or (replicate n v) i d ≡ v
get_or-replicate_lt zero i d v h = elim h [ ]
get_or-replicate_lt (suc n) zero d v h = refl
get_or-replicate_lt (suc n) (suc i) d v h = get_or-replicate_lt n i d v (omega arith)

-- The constructor gives an empty list.
pub new-IsEmpty : (size : ℕ) → 0 < size → size < 2 ^ 30 - 1 → IsEmpty (new size)
unfolding new
new-IsEmpty size h k = record {
  lengths = (
    length-replicate size minus_one,
    length-replicate size minus_one,
    length-replicate size (pos 0),
    length-replicate size (pos 0),
  );
  clean = λ i lt. (
    get_or-replicate_lt size i (pos 0) minus_one lt,
    get_or-replicate_lt size i (pos 0) minus_one lt,
  );
  counted = refl;
  some_slot = h;
  small = k;
}

module _ (l : RcvLossList) (v : IsEmpty l) (n m : ℕ) (le : n ≤ m) (short : m < n + 2 ^ 30) where
  -- The first number is put at slot 0.
  abbrev pub shift : ℕ
  shift = l.size - n % l.size

  slot_zero : slot shift l n ≡ 0
  slot_zero =
      let whole : n % l.size + shift ≡ l.size = omega (arith, v.some_slot, mod-lt n v.some_slot) in
      sym (mod-add-mod n l.size shift)
      ∙ ap (λ k. k % l.size) whole
      ∙ ground (arith, add-mod_lap 0 l.size l.size v.some_slot)

  abbrev filled : RcvLossList
  filled = insert_first l (seq n) (seq m)

  links_first : Chain shift filled minus_one (pos 0) ((n, m) ∷ [])
  unfolding insert_first
  links_first = rw slot_zero (
    refl,
    get_or-set_self l.data1 0 (seq n) (pos 0) (rw v.lengths.0 v.some_slot),
    kept ∙ end-eq n m le short,
    get_or-set_self l.prior 0 minus_one (pos 0) (rw v.lengths.3 v.some_slot),
    (get_or-set_self l.next 0 minus_one (pos 0) (rw v.lengths.2 v.some_slot), refl),
  )
    where
      kept :
          get_or (if eqb_ℤ (seq m) (seq n) then l.data2 else set l.data2 0 (seq m)) 0 (pos 0)
          ≡ (if eqb_ℤ (seq m) (seq n) then minus_one else seq m)
      kept = ground (
        arith,
        v.clean 0 v.some_slot,
        get_or-set_self l.data2 0 (seq m) (pos 0) (rw v.lengths.1 v.some_slot),
      )

  free_first :
      (i : ℕ)
      → i < l.size
      → 0 ≢ i
      → (get_or filled.data1 i (pos 0) ≡ minus_one) × (get_or filled.data2 i (pos 0) ≡ minus_one)
  unfolding insert_first
  free_first i lt ne = (
    get_or-set_ne l.data1 0 i (seq n) (pos 0) ne ∙ (v.clean i lt).0,
    ground (arith, get_or-set_ne l.data2 0 i (seq m) (pos 0) ne, v.clean i lt),
  )

  first_Holds : Holds shift filled ((n, m) ∷ [])
  unfolding insert_first
  first_Holds = record {
    lengths = (
      length-set l.data1 0 (seq n) ∙ v.lengths.0,
      ground (arith, length-set l.data2 0 (seq m), v.lengths.1),
      length-set l.next 0 minus_one ∙ v.lengths.2,
      length-set l.prior 0 minus_one ∙ v.lengths.3,
    );
    chain = links_first;
    free = λ i lt fr. free_first i lt (λ e. fr.0 (sym e ∙ sym slot_zero));
    ordered = (omega arith, le, tt);
    counted = rw (v.counted, seqlen-seq n m le short, pos_add 0 (suc m - n)) (ap pos (omega arith));
    window = omega (arith, v.some_slot);
    small = v.small;
  }

  is_empty : eqb_ℤ l.loss_length (pos 0) ≡ true
  is_empty = rw v.counted refl

  -- `insert` of a range of at most 2^30 numbers into an empty list leaves a list that holds just
  -- this range, from slot 0 on.
  pub insert_first_refines : Holds shift (insert l (seq n) (seq m)) ((n, m) ∷ [])
  unfolding insert
  insert_first_refines = rw is_empty first_Holds
