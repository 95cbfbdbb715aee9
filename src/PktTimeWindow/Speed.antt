-- ===== src/PktTimeWindow/Speed.antt =====
-- CPktTimeWindow::getPktRcvSpeed (udt-sys/udt/window.cpp): the median filter and the rate.
use ninewire.Base.{
  ℕ, zero, suc, ◌+◌, ◌-◌, ◌*◌, ◌/◌, ◌^◌, ◌≤◌, ◌<◌, ◌≡◌, inl, inr, refl, ap, ◌∙◌, subst, arith,
  Bool-cases, true, false, ltb, ◌&&◌, if◌then◌else◌, scale, shr_ℤ, ℤ, pos, negsuc, pos_add, ◌≤ℤ◌,
  ◌<ℤ◌, ◌+ℤ◌, ltb_ℤ, leb_ℤ, List, [], ◌∷◌, length, get_or, take, length-take,
}
use native.Mathlib.Nat.{le-div_iff_mul-le, div-lt_iff_lt-mul}
use ninewire.PktTimeWindow.Rank.{count_below, count_up_to, rank-ascending}
use ninewire.PktTimeWindow.{
  PktTimeWindow, to_int, put_in, ascending, middle, upper, lower, gather, quotient, per_second,
  get_pkt_rcv_speed,
}

-- Every interval is at least 0 and less than 2^27 microseconds, which is 134 seconds.
abbrev IsShort : ℤ → Type 0
IsShort x = (pos 0 ≤ℤ x) × (x <ℤ pos (2 ^ 27))

abbrev pub AllShort : List ℤ → Type 0
AllShort [] = Unit
AllShort (x ∷ xs) = IsShort x × AllShort xs

AllShort-put_in : (a : ℤ) (xs : List ℤ) → IsShort a → AllShort xs → AllShort (put_in a xs)
AllShort-put_in a [] h v = (h, v)
AllShort-put_in a (x ∷ xs) h v = elim (Bool-cases (leb_ℤ a x)) [
  | inl e ↦ rw e (h, v)
  | inr e ↦ rw e (v.0, AllShort-put_in a xs h v.1)
]

AllShort-ascending : (xs : List ℤ) → AllShort xs → AllShort (ascending xs)
AllShort-ascending [] v = v
AllShort-ascending (x ∷ xs) v = AllShort-put_in x (ascending xs) v.0 (AllShort-ascending xs v.1)

AllShort-take : (n : ℕ) (xs : List ℤ) → AllShort xs → AllShort (take n xs)
AllShort-take zero xs v = tt
AllShort-take (suc n) [] v = v
AllShort-take (suc n) (x ∷ xs) v = (v.0, AllShort-take n xs v.1)

IsShort-get_or : (xs : List ℤ) (i : ℕ) → AllShort xs → IsShort (get_or xs i (pos 0))
IsShort-get_or [] i v = omega arith
IsShort-get_or (x ∷ xs) zero v = v.0
IsShort-get_or (x ∷ xs) (suc i) v = IsShort-get_or xs i v.1

IsShort-middle : (xs : List ℤ) (n : ℕ) → AllShort xs → IsShort (middle xs n)
unfolding middle
IsShort-middle xs n v =
    IsShort-get_or (ascending (take (n - 1) xs)) (n / 2)
      (AllShort-ascending (take (n - 1) xs) (AllShort-take (n - 1) xs v))

-- The intervals strictly between an eighth of `c` and eight times `c`, and their sum.
abbrev pub near : ℕ → List ℤ → List ℕ
near c [] = []
near c (negsuc n ∷ xs) = near c xs
near c (pos n ∷ xs) =
    let rest = near c xs in if ltb (c / 2 ^ 3) n && ltb n (8 * c) then n ∷ rest else rest

abbrev pub total : List ℕ → ℕ
total [] = 0
total (x ∷ xs) = x + total xs

-- No overflow.
to_int_id : (n : ℕ) → n < 2 ^ 31 → to_int (pos n) ≡ pos n
unfolding to_int
to_int_id n h = ground (arith, h)

gather-near :
    (xs : List ℤ) (c count s : ℕ)
    → AllShort xs
    → s + length xs * (2 ^ 27 - 1) < 2 ^ 31
    → gather (pos (c / 2 ^ 3)) (pos (8 * c)) count (pos s) xs
      ≡ (count + length (near c xs), pos (s + total (near c xs)))
unfolding gather
gather-near [] c count s v room =
    ap (λ n. (n, pos s)) {x = count} {y = count + 0} (omega arith)
    ∙ ap (λ n. (count + 0, pos n)) {x = s} {y = s + 0} (omega arith)
gather-near (negsuc n ∷ xs) c count s v room = absurd (omega (arith, v.0))
gather-near (pos n ∷ xs) c count s v room = elim (Bool-cases (ltb (c / 2 ^ 3) n && ltb n (8 * c))) [
  | inl e ↦
      let fits : to_int (pos s +ℤ pos n) ≡ pos (s + n) =
        ap to_int (pos_add s n) ∙ to_int_id (s + n) (omega (arith, room, v.0)) in
      let inside : (ltb_ℤ (pos n) (pos (8 * c)) && ltb_ℤ (pos (c / 2 ^ 3)) (pos n)) ≡ true =
        ground (arith, e) in
      rw (gather, inside, e)
        (ap (λ z. gather (pos (c / 2 ^ 3)) (pos (8 * c)) (count + 1) z xs) fits
          ∙ gather-near xs c (count + 1) (s + n) v.1 (omega (arith, room, v.0))
          ∙ ap (λ k. (k, pos (s + n + total (near c xs)))) {x = count + 1 + length (near c xs)}
              {y = count + suc (length (near c xs))} (omega arith)
          ∙ ap (λ k. (count + suc (length (near c xs)), pos k)) {x = s + n + total (near c xs)}
              {y = s + (n + total (near c xs))} (omega arith))
  | inr e ↦
      let outside : (ltb_ℤ (pos n) (pos (8 * c)) && ltb_ℤ (pos (c / 2 ^ 3)) (pos n)) ≡ false =
        ground (arith, e) in
      rw (gather, outside, e) (gather-near xs c count s v.1 (omega (arith, room)))
]

-- `count` values strictly between `lo` and `hi` have this sum.
record Between (lo hi count sum : ℕ) : Type 0 where
  least : count * (lo + 1) ≤ sum
  most : sum ≤ count * (hi - 1)

add_one :
    (lo hi count x s : ℕ)
    → lo < x
    → x < hi
    → Between lo hi count s
    → Between lo hi (suc count) (x + s)
add_one lo hi count x s above below v = record {
  least = omega (arith, v.least, above);
  most = omega (arith, v.most, below);
}

near-Between :
    (c : ℕ) (xs : List ℤ) → Between (c / 2 ^ 3) (8 * c) (length (near c xs)) (total (near c xs))
near-Between c [] = record { least = omega arith; most = omega arith }
near-Between c (negsuc n ∷ xs) = near-Between c xs
near-Between c (pos n ∷ xs) = elim (Bool-cases (ltb (c / 2 ^ 3) n && ltb n (8 * c))) [
  | inl e ↦ rw e (
      add_one (c / 2 ^ 3) (8 * c) (length (near c xs)) n (total (near c xs)) (ground (arith, e))
        (ground (arith, e)) (near-Between c xs))
  | inr e ↦ rw e (near-Between c xs)
]

-- The average is within the bounds too.
average : (lo hi c t : ℕ) → 0 < c → Between lo hi c t → (lo + 1 ≤ t / c) × (t / c ≤ hi - 1)
average lo hi c t some b = (
  (le-div_iff_mul-le some).1 (omega (arith, b.least)),
  omega (arith, (div-lt_iff_lt-mul {x = t} {y = hi - 1 + 1} some).1 (omega (arith, b.most))),
)

per_second_lem : (q : ℕ) → 0 < q → per_second (pos q) ≡ pos ((1000000 + q - 1) / q)
unfolding per_second
per_second_lem zero h = absurd (omega (arith, h))
per_second_lem (suc n) h =
    ap (λ x. pos (x / suc n)) {x = 1000000 + n} {y = 1000000 + suc n - 1} (omega arith)

-- What the code makes of an interval `c`, for the intervals near it. The speed is 0 if at most half
-- as many as there are slots are near it, and otherwise the rate, rounded up, of their average.
pub record IsRate (size : ℕ) (window : List ℤ) (speed : ℤ) (c : ℕ) : Type 0 where
  pub few : length (near c window) ≤ size / 2 → speed ≡ pos 0
  pub many :
      size / 2 < length (near c window)
      → let q = total (near c window) / length (near c window) in
        (c / 8 < q) × (q < 8 * c) × (speed ≡ pos ((1000000 + q - 1) / q))

IsRate_lem :
    (size c : ℕ) (window : List ℤ)
    → let k = length (near c window) in
      IsRate size window
        (if ltb (size / 2) k then per_second (quotient (pos (total (near c window))) k) else pos 0)
        c
unfolding quotient
IsRate_lem size c window =
    let k = length (near c window) in
    elim (Bool-cases (ltb (size / 2) k)) [
      | inr f ↦ rw f (record { few = λ h. refl; many = λ h. absurd (ground (arith, f, h)) })
      | inl f ↦
          let bounds =
            average (c / 2 ^ 3) (8 * c) k (total (near c window)) (ground (arith, f))
              (near-Between c window) in
          rw f (record {
            few = λ h. absurd (ground (arith, f, h));
            many = λ h. (
              omega (arith, bounds),
              omega (arith, bounds),
              per_second_lem (total (near c window) / k) (omega (arith, bounds)),
            );
          })
    ]

-- The interval `c` is the one at place `size / 2`, from 0 on, of all but the last slot in ascending
-- order: this number of them is at least that of the lesser ones, and less than that of those that
-- are not greater. The speed is what the code makes of it.
pub record Rated (w : PktTimeWindow) (c : ℕ) : Type 0 where
  pub below : count_below (pos c) (take (w.aw_size - 1) w.pkt_window) ≤ w.aw_size / 2
  pub above : w.aw_size / 2 < count_up_to (pos c) (take (w.aw_size - 1) w.pkt_window)
  pub rate : IsRate w.aw_size w.pkt_window (get_pkt_rcv_speed w) c

as_natural : (m : ℤ) → IsShort m → (c : ℕ) × (m ≡ pos c) × (c < 2 ^ 27)
as_natural (pos n) v = (n, refl, omega (arith, v))
as_natural (negsuc n) v = absurd (omega (arith, v))

speed_of :
    (w : PktTimeWindow) (c : ℕ)
    → AllShort w.pkt_window
    → length w.pkt_window ≤ 16
    → c < 2 ^ 27
    → middle w.pkt_window w.aw_size ≡ pos c
    → IsRate w.aw_size w.pkt_window (get_pkt_rcv_speed w) c
unfolding get_pkt_rcv_speed lower upper scale shr_ℤ
speed_of w c v few small e =
    let top : to_int (pos (8 * c)) ≡ pos (8 * c) = to_int_id (8 * c) (omega (arith, small)) in
    let k = length (near c w.pkt_window) in
    let t = total (near c w.pkt_window) in
    let g : gather (pos (c / 2 ^ 3)) (pos (8 * c)) 0 (pos 0) w.pkt_window ≡ (k, pos t) =
      gather-near w.pkt_window c 0 0 v (omega (arith, few))
      ∙ ap (λ n. (n, pos (0 + t))) {x = 0 + k} {y = k} (omega arith)
      ∙ ap (λ n. (k, pos n)) {x = 0 + t} {y = t} (omega arith) in
    rw (e, top, g) (IsRate_lem w.aw_size c w.pkt_window)

-- For a window of 3 to 16 intervals, each at least 0 and less than 2^27 microseconds, there is an
-- interval `c` in the middle of those in all slots but the last: at most half as many of them as
-- there are slots are less than `c`, and more than half as many are at most `c`. If no more than
-- half as many of all intervals as there are slots are strictly between an eighth of `c` and eight
-- times `c`, the speed is 0; otherwise it is the rate, rounded up, of their average, rounded down,
-- which is within these bounds too.
pub get_pkt_rcv_speed_bounds :
    (w : PktTimeWindow)
    → AllShort w.pkt_window
    → length w.pkt_window ≤ 16
    → w.aw_size ≡ length w.pkt_window
    → 3 ≤ w.aw_size
    → (c : ℕ) × Rated w c
unfolding middle
get_pkt_rcv_speed_bounds w v few full some =
    let seen = take (w.aw_size - 1) w.pkt_window in
    let (c, e, small) =
      as_natural (middle w.pkt_window w.aw_size) (IsShort-middle w.pkt_window w.aw_size v) in
    let r =
      rank-ascending seen (w.aw_size / 2)
        (omega (arith, length-take (w.aw_size - 1) w.pkt_window, full, some)) in
    (
      c,
      record {
        below = subst (λ m. count_below m seen ≤ w.aw_size / 2) e r.0;
        above = subst (λ m. w.aw_size / 2 < count_up_to m seen) e r.1;
        rate = speed_of w c v few small e;
      },
    )
