-- ===== src/PktTimeWindow/Rank.antt =====
-- std::nth_element in CPktTimeWindow::getPktRcvSpeed (udt-sys/udt/window.cpp): the rank of the value
-- at a place of the sorted copy.
use ninewire.Base.{
  ℕ, zero, suc, ◌≤◌, ◌<◌, ◌≡◌, refl, ◌∙◌, arith, Bool-cases, inl, inr, true, false, if◌then◌else◌,
  ℤ, pos, ◌≤ℤ◌, ltb_ℤ, leb_ℤ, List, [], ◌∷◌, length, get_or,
}
use ninewire.PktTimeWindow.{put_in, ascending}

-- How many elements are less than `m`, and how many are at most `m`.
abbrev pub count_below : ℤ → List ℤ → ℕ
count_below m [] = 0
count_below m (x ∷ xs) = let rest = count_below m xs in if ltb_ℤ x m then suc rest else rest

abbrev pub count_up_to : ℤ → List ℤ → ℕ
count_up_to m [] = 0
count_up_to m (x ∷ xs) = let rest = count_up_to m xs in if leb_ℤ x m then suc rest else rest

count_below-put_in : (m a : ℤ) (xs : List ℤ) → count_below m (put_in a xs) ≡ count_below m (a ∷ xs)
count_below-put_in m a [] = refl
count_below-put_in m a (x ∷ xs) = ground (arith, count_below-put_in m a xs)

count_up_to-put_in : (m a : ℤ) (xs : List ℤ) → count_up_to m (put_in a xs) ≡ count_up_to m (a ∷ xs)
count_up_to-put_in m a [] = refl
count_up_to-put_in m a (x ∷ xs) = ground (arith, count_up_to-put_in m a xs)

pub count_below-ascending : (m : ℤ) (xs : List ℤ) → count_below m (ascending xs) ≡ count_below m xs
count_below-ascending m [] = refl
count_below-ascending m (x ∷ xs) =
    ground (arith, count_below-put_in m x (ascending xs), count_below-ascending m xs)

pub count_up_to-ascending : (m : ℤ) (xs : List ℤ) → count_up_to m (ascending xs) ≡ count_up_to m xs
count_up_to-ascending m [] = refl
count_up_to-ascending m (x ∷ xs) =
    ground (arith, count_up_to-put_in m x (ascending xs), count_up_to-ascending m xs)

length-put_in : (a : ℤ) (xs : List ℤ) → length (put_in a xs) ≡ suc (length xs)
length-put_in a [] = refl
length-put_in a (x ∷ xs) = ground (arith, length-put_in a xs)

pub length-ascending : (xs : List ℤ) → length (ascending xs) ≡ length xs
length-ascending [] = refl
length-ascending (x ∷ xs) = length-put_in x (ascending xs) ∙ ground (arith, length-ascending xs)

-- Every element is at least `x`.
abbrev AtLeast : ℤ → List ℤ → Type 0
AtLeast x [] = Unit
AtLeast x (y ∷ ys) = (x ≤ℤ y) × AtLeast x ys

abbrev IsSorted : List ℤ → Type 0
IsSorted [] = Unit
IsSorted (x ∷ xs) = AtLeast x xs × IsSorted xs

AtLeast-put_in : (x a : ℤ) (ys : List ℤ) → x ≤ℤ a → AtLeast x ys → AtLeast x (put_in a ys)
AtLeast-put_in x a [] h v = (h, v)
AtLeast-put_in x a (y ∷ ys) h v = elim (Bool-cases (leb_ℤ a y)) [
  | inl e ↦ rw e (h, v)
  | inr e ↦ rw e (v.0, AtLeast-put_in x a ys h v.1)
]

AtLeast-trans : (a x : ℤ) (ys : List ℤ) → a ≤ℤ x → AtLeast x ys → AtLeast a ys
AtLeast-trans a x [] h v = tt
AtLeast-trans a x (y ∷ ys) h v = (omega (arith, h, v.0), AtLeast-trans a x ys h v.1)

leb→le : (a x : ℤ) → leb_ℤ a x ≡ true → a ≤ℤ x
leb→le a x e = ground (arith, e)

not_leb→ge : (a x : ℤ) → leb_ℤ a x ≡ false → x ≤ℤ a
not_leb→ge a x e = ground (arith, e)

put_in-IsSorted : (a : ℤ) (xs : List ℤ) → IsSorted xs → IsSorted (put_in a xs)
put_in-IsSorted a [] v = (tt, tt)
put_in-IsSorted a (x ∷ xs) v = elim (Bool-cases (leb_ℤ a x)) [
  | inl e ↦ rw e ((leb→le a x e, AtLeast-trans a x xs (leb→le a x e) v.0), v)
  | inr e ↦ rw e (AtLeast-put_in x a xs (not_leb→ge a x e) v.0, put_in-IsSorted a xs v.1)
]

ascending-IsSorted : (xs : List ℤ) → IsSorted (ascending xs)
ascending-IsSorted [] = tt
ascending-IsSorted (x ∷ xs) = put_in-IsSorted x (ascending xs) (ascending-IsSorted xs)

none_below : (m : ℤ) (xs : List ℤ) → AtLeast m xs → count_below m xs ≡ 0
none_below m [] v = refl
none_below m (x ∷ xs) v = ground (arith, v.0, none_below m xs v.1)

AtLeast-get_or :
    (x : ℤ) (xs : List ℤ) (i : ℕ) → i < length xs → AtLeast x xs → x ≤ℤ get_or xs i (pos 0)
AtLeast-get_or x [] i h v = absurd (omega (arith, h))
AtLeast-get_or x (y ∷ ys) zero h v = v.0
AtLeast-get_or x (y ∷ ys) (suc i) h v = AtLeast-get_or x ys i (omega (arith, h)) v.1

-- At most `i` elements are less than the one at place `i`, and more than `i` are at most as large.
pub rank :
    (xs : List ℤ) (i : ℕ)
    → IsSorted xs
    → i < length xs
    → (count_below (get_or xs i (pos 0)) xs ≤ i) × (i < count_up_to (get_or xs i (pos 0)) xs)
rank [] i v h = absurd (omega (arith, h))
rank (x ∷ xs) zero v h = ground (arith, none_below x xs v.0)
rank (x ∷ xs) (suc i) v h =
    let m = get_or xs i (pos 0) in
    let r = rank xs i v.1 (omega (arith, h)) in
    let above : x ≤ℤ m = AtLeast-get_or x xs i (omega (arith, h)) v.0 in ground (arith, r, above)

pub rank-ascending :
    (xs : List ℤ) (i : ℕ)
    → i < length xs
    → let m = get_or (ascending xs) i (pos 0) in (count_below m xs ≤ i) × (i < count_up_to m xs)
rank-ascending xs i h =
    let m = get_or (ascending xs) i (pos 0) in
    let r = rank (ascending xs) i (ascending-IsSorted xs) (rw (length-ascending xs) h) in
    (rw (← count_below-ascending m xs) r.0, rw (← count_up_to-ascending m xs) r.1)
