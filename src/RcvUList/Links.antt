-- ===== src/RcvUList/Links.antt =====
-- The links of a CRcvUList (udt-sys/udt/queue.cpp) along a list of nodes.
use ninewire.Base.{
  ℕ, ◌≡◌, ◌≢◌, sym, ◌∙◌, subst, arith, Option, none, some, List, [], ◌∷◌, ◌++◌, put, ◌==◌, ==_self,
  if_false, if_true,
}
use ninewire.RcvUList.{put_at}

abbrev pub head_or : Option ℕ → List ℕ → Option ℕ
head_or o [] = o
head_or o (x ∷ xs) = some x

abbrev pub last_or : Option ℕ → List ℕ → Option ℕ
last_or o [] = o
last_or o (x ∷ xs) = last_or (some x) xs

-- Each node's links, between a node in front of them and one behind.
abbrev pub Linked : (ℕ → Option ℕ) → (ℕ → Option ℕ) → Option ℕ → List ℕ → Option ℕ → Type 0
Linked prev next back [] after = Unit
Linked prev next back (x ∷ xs) after =
    (prev x ≡ back) × (next x ≡ head_or after xs) × Linked prev next (some x) xs after

abbrev pub NotIn : ℕ → List ℕ → Type 0
NotIn n [] = Unit
NotIn n (x ∷ xs) = (x ≢ n) × NotIn n xs

abbrev pub Distinct : List ℕ → Type 0
Distinct [] = Unit
Distinct (x ∷ xs) = NotIn x xs × Distinct xs

pub put_self : (f : ℕ → Option ℕ) (n : ℕ) (v : Option ℕ) → put f n v n ≡ v
put_self f n v = if_true (n == n) v (f n) (==_self n)

put-ne : (f : ℕ → Option ℕ) (n x : ℕ) (v : Option ℕ) → x ≢ n → put f n v x ≡ f x
put-ne f n x v h = if_false (x == n) v (f x) (ground (arith, h))

module _ (prev next : ℕ → Option ℕ) where
  pub Linked-split :
      (back : Option ℕ) (xs ys : List ℕ) (after : Option ℕ)
      → Linked prev next back (xs ++ ys) after
      → Linked prev next back xs (head_or after ys) × Linked prev next (last_or back xs) ys after
  Linked-split back [] ys after h = (tt, h)
  Linked-split back (x ∷ []) ys after h = ((h.0, h.1, tt), h.2)
  Linked-split back (x ∷ y ∷ xs) ys after h =
      let r = Linked-split (some x) (y ∷ xs) ys after h.2 in ((h.0, h.1, r.0), r.1)

  pub Linked-join :
      (back : Option ℕ) (xs ys : List ℕ) (after : Option ℕ)
      → Linked prev next back xs (head_or after ys)
      → Linked prev next (last_or back xs) ys after
      → Linked prev next back (xs ++ ys) after
  Linked-join back [] ys after h k = k
  Linked-join back (x ∷ []) ys after h k = (h.0, h.1, k)
  Linked-join back (x ∷ y ∷ xs) ys after h k =
      (h.0, h.1, Linked-join (some x) (y ∷ xs) ys after h.2 k)

  pub Linked-put_next :
      (n : ℕ) (v back : Option ℕ) (xs : List ℕ) (after : Option ℕ)
      → NotIn n xs
      → Linked prev next back xs after
      → Linked prev (put next n v) back xs after
  Linked-put_next n v back [] after f h = tt
  Linked-put_next n v back (x ∷ xs) after f h =
      (h.0, put-ne next n x v f.0 ∙ h.1, Linked-put_next n v (some x) xs after f.1 h.2)

  pub Linked-put_prev :
      (n : ℕ) (v back : Option ℕ) (xs : List ℕ) (after : Option ℕ)
      → NotIn n xs
      → Linked prev next back xs after
      → Linked (put prev n v) next back xs after
  Linked-put_prev n v back [] after f h = tt
  Linked-put_prev n v back (x ∷ xs) after f h =
      (put-ne prev n x v f.0 ∙ h.0, h.1, Linked-put_prev n v (some x) xs after f.1 h.2)

  -- The first node gets another one in front of it.
  pub Linked-front :
      (back back' : Option ℕ) (xs : List ℕ) (after : Option ℕ)
      → Distinct xs
      → Linked prev next back xs after
      → Linked (put_at prev (head_or none xs) back') next back' xs after
  Linked-front back back' [] after d h = tt
  Linked-front back back' (x ∷ xs) after d h =
      (put_self prev x back', h.1, Linked-put_prev x back' (some x) xs after d.0 h.2)

-- A node that may not be there.
abbrev pub NotInAny : Option ℕ → List ℕ → Type 0
NotInAny none xs = Unit
NotInAny (some n) xs = NotIn n xs

abbrev pub Apart : List ℕ → List ℕ → Type 0
Apart [] ys = Unit
Apart (x ∷ xs) ys = NotIn x ys × Apart xs ys

pub NotIn-append : (n : ℕ) (xs ys : List ℕ) → NotIn n (xs ++ ys) → NotIn n xs × NotIn n ys
NotIn-append n [] ys h = (tt, h)
NotIn-append n (x ∷ xs) ys h = let r = NotIn-append n xs ys h.1 in ((h.0, r.0), r.1)

pub append-NotIn : (n : ℕ) (xs ys : List ℕ) → NotIn n xs → NotIn n ys → NotIn n (xs ++ ys)
append-NotIn n [] ys h k = k
append-NotIn n (x ∷ xs) ys h k = (h.0, append-NotIn n xs ys h.1 k)

pub Distinct-append :
    (xs ys : List ℕ) → Distinct (xs ++ ys) → Distinct xs × Distinct ys × Apart xs ys
Distinct-append [] ys h = (tt, h, tt)
Distinct-append (x ∷ xs) ys h =
    let f = NotIn-append x xs ys h.0 in
    let r = Distinct-append xs ys h.1 in ((f.0, r.0), r.1, (f.1, r.2))

pub append-Distinct :
    (xs ys : List ℕ) → Distinct xs → Distinct ys → Apart xs ys → Distinct (xs ++ ys)
append-Distinct [] ys h k a = k
append-Distinct (x ∷ xs) ys h k a = (append-NotIn x xs ys h.0 a.0, append-Distinct xs ys h.1 k a.1)

Apart-head : (xs ys : List ℕ) → Apart xs ys → NotInAny (head_or none ys) xs
Apart-head xs [] a = tt
Apart-head [] (y ∷ ys) a = tt
Apart-head (x ∷ xs) (y ∷ ys) a = (λ e. a.0.0 (sym e), Apart-head xs (y ∷ ys) a.1)

pub Apart-last : (xs ys : List ℕ) → Apart xs ys → NotInAny (last_or none xs) ys
Apart-last [] ys a = tt
Apart-last (x ∷ []) ys a = a.0
Apart-last (x ∷ y ∷ xs) ys a = Apart-last (y ∷ xs) ys a.1

pub Apart-tail : (xs ys : List ℕ) (n : ℕ) → Apart xs (n ∷ ys) → Apart xs ys × NotIn n xs
Apart-tail [] ys n a = (tt, tt)
Apart-tail (x ∷ xs) ys n a =
    let r = Apart-tail xs ys n a.1 in ((a.0.1, r.0), (λ e. a.0.0 (sym e), r.1))

pub put_at-before :
    (f : ℕ → Option ℕ) (x y : ℕ) (xs : List ℕ) (v : Option ℕ)
    → NotIn x (y ∷ xs)
    → put_at f (last_or (some y) xs) v x ≡ f x
put_at-before f x y [] v h = put-ne f y x v (λ e. h.0 (sym e))
put_at-before f x y (z ∷ zs) v h = put_at-before f x z zs v h.1

module _ (prev next : ℕ → Option ℕ) where
  -- The last node gets another one behind it.
  pub Linked-back :
      (back : Option ℕ) (xs : List ℕ) (after after' : Option ℕ)
      → Distinct xs
      → Linked prev next back xs after
      → Linked prev (put_at next (last_or none xs) after') back xs after'
  Linked-back back [] after after' d h = tt
  Linked-back back (x ∷ []) after after' d h = (h.0, put_self next x after', tt)
  Linked-back back (x ∷ y ∷ xs) after after' d h = (
    h.0,
    put_at-before next x y xs after' d.0 ∙ h.1,
    Linked-back (some x) (y ∷ xs) after after' d.1 h.2,
  )

  Linked-put_at_next :
      (o v back : Option ℕ) (xs : List ℕ) (after : Option ℕ)
      → NotInAny o xs
      → Linked prev next back xs after
      → Linked prev (put_at next o v) back xs after
  Linked-put_at_next none v back xs after f h = h
  Linked-put_at_next (some n) v back xs after f h = Linked-put_next prev next n v back xs after f h

  Linked-put_at_prev :
      (o v back : Option ℕ) (xs : List ℕ) (after : Option ℕ)
      → NotInAny o xs
      → Linked prev next back xs after
      → Linked (put_at prev o v) next back xs after
  Linked-put_at_prev none v back xs after f h = h
  Linked-put_at_prev (some n) v back xs after f h = Linked-put_prev prev next n v back xs after f h

-- Two runs of nodes around `n` are linked with each other.
pub Linked-detach :
    (prev next : ℕ → Option ℕ) (ys zs : List ℕ) (n : ℕ)
    → Distinct (ys ++ n ∷ zs)
    → Linked prev next none (ys ++ n ∷ zs) none
    → Linked (put_at prev (next n) (prev n)) (put_at next (prev n) (next n)) none (ys ++ zs) none
Linked-detach prev next ys zs n d h =
    let p = last_or none ys in
    let q = head_or none zs in
    let next' = put_at next p q in
    let (left, mid) = Linked-split prev next none ys (n ∷ zs) none h in
    let (dys, dnzs, apart) = Distinct-append ys (n ∷ zs) d in
    let (near, out) = Apart-tail ys zs n apart in
    let joined : Linked (put_at prev q p) next' none (ys ++ zs) none =
      Linked-join (put_at prev q p) next' none ys zs none
        (Linked-put_at_prev prev next' q p none ys q (Apart-head ys zs near)
          (Linked-back prev next none ys (some n) q dys left))
        (Linked-front prev next' (some n) p zs none dnzs.1
          (Linked-put_at_next prev next p q (some n) zs none (Apart-last ys zs near) mid.2)) in
    subst (λ b. Linked (put_at prev b (prev n)) (put_at next (prev n) b) none (ys ++ zs) none)
      (sym mid.1)
      (subst (λ a. Linked (put_at prev q a) (put_at next a q) none (ys ++ zs) none) (sym mid.0)
        joined)
