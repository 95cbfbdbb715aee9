-- ===== src/SndLossList/Node.antt =====
-- udt-sys/udt/list.cpp: CSndLossList with one node, and how getLostSeq shortens it.
use native.Mathlib.Nat.{mod-lt, mod-eq_of_lt}
use ninewire.Base.{
  add-mod-ne, Bool-cases, inl, inr, ℕ, zero, suc, ◌+◌, ◌-◌, ◌%◌, ◌≤◌, ◌<◌, ◌≡◌, ◌≢◌, refl, ap, sym,
  ◌∙◌, arith, Bool, true, false, ℤ, pos, pos_add, minus_one, eqb_ℤ, ltb_ℤ, read, write, List,
  length, length-set, get_or-set_self, get_or-set_ne, rem, ◌-ℤ◌, if◌then◌else◌, ◌==◌,
}
use ninewire.SeqNo.{max_seq_no, seq_no_th, seqcmp, incseq}
use ninewire.SeqNo.Circle.{ahead, incseq_steps}
use ninewire.SndLossList.{SndLossList}
use ninewire.SndLossList.Remove.{behind, get_lost_seq}

-- The list has one node, `h`, with the `n` numbers from `s` on.
pub record Holds (l : SndLossList) (h s n : ℕ) : Type 0 where
  pub large : 2 ≤ l.size
  pub room : h < l.size
  pub length1 : length l.data1 ≡ l.size
  pub length2 : length l.data2 ≡ l.size
  pub head_at : l.head ≡ pos h
  pub start : read l.data1 (pos h) ≡ pos s
  pub last : read l.data2 (pos h) ≡ (if n == 1 then minus_one else pos (ahead s (n - 1)))
  pub blank : (j : ℕ) → j < l.size → j ≢ h → read l.data2 (pos j) ≡ minus_one
  pub count : l.loss_length ≡ pos n

behind-pos : (l : SndLossList) (h : ℕ) → behind l (pos h) ≡ pos ((h + 1) % l.size)
unfolding behind rem
behind-pos l h = rw (pos_add h 1) refl

ahead-ahead : (s n : ℕ) → ahead s (suc n) ≡ ahead (ahead s 1) n
ahead-ahead s n = ground arith

pub ahead_in_range : (s n : ℕ) → ahead s n ≤ max_seq_no
ahead_in_range s n = ground arith

pos_not_end : (a : ℕ) → eqb_ℤ (pos a) minus_one ≡ false
pos_not_end a = ground arith

less_one : (n : ℕ) → pos (suc n) -ℤ pos 1 ≡ pos n
unfolding ◌-ℤ◌
less_one n = ground arith

-- Whether the rest of the node is longer than one number.
longer :
    (s n : ℕ)
    → s ≤ max_seq_no
    → n < seq_no_th
    → ltb_ℤ (pos 0) (seqcmp (pos (ahead s n)) (pos s)) ≡ ltb_ℤ (pos 0) (pos n)
unfolding seqcmp ◌-ℤ◌
longer s n hs hn = ground arith

pub last_step :
    (l : SndLossList) (h s : ℕ)
    → Holds l h s 1
    → ((get_lost_seq l).1 ≡ pos s) × ((get_lost_seq l).0.loss_length ≡ pos 0)
unfolding get_lost_seq
last_step l h s k = rw (k.head_at, k.count, k.last, k.start, less_one 0) (refl, refl)

next_ne : (h m : ℕ) → h < m → 2 ≤ m → (h + 1) % m ≢ h
next_ne h m r z e = add-mod-ne h 0 m z (e ∙ sym (mod-eq_of_lt r))

next_lt : (h m : ℕ) → 2 ≤ m → (h + 1) % m < m
next_lt h m z = mod-lt (h + 1) (omega (arith, z))

-- The contents of the two arrays behind a step from `h` to `loc`.
read_start :
    (xs : List ℤ) (loc h : ℕ) (v w : ℤ)
    → loc < length xs
    → loc ≢ h
    → read (write (write xs (pos loc) v) (pos h) w) (pos loc) ≡ v
read_start xs loc h v w r n =
    get_or-set_ne (write xs (pos loc) v) h loc w (pos 0) (λ e. n (sym e))
    ∙ get_or-set_self xs loc v (pos 0) r

read_blank :
    (xs : List ℤ) (loc h m : ℕ) (t : Bool) (v : ℤ)
    → length xs ≡ m
    → h < m
    → ((j : ℕ) → j < m → j ≢ h → read xs (pos j) ≡ minus_one)
    → (j : ℕ) → j < m
    → j ≢ loc
    → read (write (if t then write xs (pos loc) v else xs) (pos h) minus_one) (pos j) ≡ minus_one
read_blank xs loc h m t v len r b j hj n = elim (Bool-cases (j == h)) [
  | inl e ↦
      rw (eq_of_test j h e) (
        get_or-set_self (if t then write xs (pos loc) v else xs) h minus_one (pos 0)
          (length_kept t))
  | inr e ↦
      get_or-set_ne (if t then write xs (pos loc) v else xs) h j minus_one (pos 0)
        (ne_of_test j h e)
      ∙ kept t (λ q. ne_of_test j h e (sym q))
]
  where
    eq_of_test : (a c : ℕ) → (a == c) ≡ true → a ≡ c
    eq_of_test a c e = ground (arith, e)

    ne_of_test : (a c : ℕ) → (a == c) ≡ false → c ≢ a
    ne_of_test a c e = ground (arith, e)

    length_kept : (t : Bool) → h < length (if t then write xs (pos loc) v else xs)
    length_kept true = omega (arith, length-set xs loc v, len, r)
    length_kept false = omega (arith, len, r)

    kept : (t : Bool) → j ≢ h → read (if t then write xs (pos loc) v else xs) (pos j) ≡ minus_one
    kept true z = get_or-set_ne xs loc j v (pos 0) (λ q. n (sym q)) ∙ b j hj z
    kept false z = b j hj z

positive : (n : ℕ) → ltb_ℤ (pos 0) (pos (suc n)) ≡ true
positive n = ground arith

pub not_one : (n : ℕ) → (suc (suc n) == 1) ≡ false
not_one n = ground arith

pub not_null : (n : ℕ) → (suc n == 0) ≡ false
not_null n = ground arith

not_zero : (n : ℕ) → eqb_ℤ (pos (suc n)) (pos 0) ≡ false
not_zero n = ground arith

later :
    (s n : ℕ)
    → (if suc (suc n) == 1 then minus_one else pos (ahead s (suc (suc n) - 1)))
      ≡ pos (ahead s (suc n))
later s n =
    rw (not_one n) (ap (λ k. pos (ahead s k)) {x = suc (suc n) - 1} {y = suc n} (omega arith))

read_last :
    (t : Bool) (xs : List ℤ) (loc h n : ℕ) (v : ℤ)
    → t ≡ ltb_ℤ (pos 0) (pos n)
    → loc < length xs
    → loc ≢ h
    → read xs (pos loc) ≡ minus_one
    → read (write (if t then write xs (pos loc) v else xs) (pos h) minus_one) (pos loc)
      ≡ (if suc n == 1 then minus_one else v)
read_last t xs loc h zero v e r n b =
    rw e (get_or-set_ne xs h loc minus_one (pos 0) (λ e. n (sym e)) ∙ b)
read_last t xs loc h (suc n) v e r ne b =
    rw (e ∙ positive n, not_one n) (read_start xs loc h v minus_one r ne)

length_after :
    (t : Bool) (xs : List ℤ) (loc h : ℕ) (v w : ℤ)
    → length (write (if t then write xs (pos loc) v else xs) (pos h) w) ≡ length xs
length_after true xs loc h v w = length-set (write xs (pos loc) v) h w ∙ length-set xs loc v
length_after false xs loc h v w = length-set xs h w

pub step :
    (l : SndLossList) (h s n : ℕ)
    → Holds l h s (suc (suc n))
    → s ≤ max_seq_no
    → suc n < seq_no_th
    → 2 ≤ l.size
    → ((get_lost_seq l).1 ≡ pos s) × Holds (get_lost_seq l).0 ((h + 1) % l.size) (ahead s 1) (suc n)
unfolding get_lost_seq
step l h s n k hs b z =
    let loc = (h + 1) % l.size in
    let ne = next_ne h l.size k.room z in
    let q = ahead s 1 in
    let e = ahead s (suc n) in
    let inc : incseq (pos s) ≡ pos q = (incseq_steps s 1 hs (omega arith)).1 in
    let t = ltb_ℤ (pos 0) (seqcmp (pos e) (pos q)) in
    let cmp : t ≡ ltb_ℤ (pos 0) (pos n) =
      ap (λ m. ltb_ℤ (pos 0) (seqcmp (pos m) (pos q))) (ahead-ahead s n)
      ∙ longer q n (ahead_in_range s 1) (omega arith) in
    let shape : (if suc n == 1 then minus_one else pos e)
        ≡ (if suc n == 1 then minus_one else pos (ahead q (suc n - 1))) =
      ap (λ m. if suc n == 1 then minus_one else pos m)
        (ahead-ahead s n ∙ ap (ahead q) {x = n} {y = suc n - 1} (omega arith)) in
    let room1 : loc < length l.data1 = rw k.length1 (next_lt h l.size z) in
    let room2 : loc < length l.data2 = rw k.length2 (next_lt h l.size z) in
    rw
      (
        k.head_at,
        k.count,
        k.last ∙ later s n,
        k.start,
        not_zero (suc n),
        pos_not_end e,
        behind-pos l h,
        inc,
        less_one (suc n),
      )
      (
        refl,
        record {
          large = z;
          room = next_lt h l.size z;
          length1 =
              length-set (write l.data1 (pos loc) (pos q)) h minus_one
              ∙ length-set l.data1 loc (pos q)
              ∙ k.length1;
          length2 = length_after t l.data2 loc h (pos e) minus_one ∙ k.length2;
          head_at = refl;
          start = read_start l.data1 loc h (pos q) minus_one room1 ne;
          last =
              read_last t l.data2 loc h n (pos e) cmp room2 ne (k.blank loc (next_lt h l.size z) ne)
              ∙ shape;
          blank = read_blank l.data2 loc h l.size t (pos e) k.length2 k.room k.blank;
          count = refl;
        },
      )
