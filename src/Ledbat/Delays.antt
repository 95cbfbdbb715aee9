-- ===== src/Ledbat/Delays.antt =====
-- The delay histories of LedbatCC (udt-sys/bridge/ledbat.cpp).
use ninewire.Base.{
  ℕ, suc, ◌≡◌, ◌≢◌, inl, inr, refl, ap, arith, ℤ, pos, ◌-ℤ◌, ◌≤ℤ◌, eqb_ℤ, min_ℤ, if◌then◌else◌, leb,
  List, [], ◌∷◌, ◌++◌, length, drop, Bool-cases,
}
use ninewire.Ledbat.{
  Ledbat, current_timestamp, current_filter_size, back, set_back, round_to_minute, least,
  get_min_base_delays, filter_current_delays, update_current_delay, update_base_delay, take_samples,
  queuing_delay,
}

pub length-set_back : (xs : List ℤ) (v : ℤ) → length (set_back xs v) ≡ length xs
length-set_back [] v = refl
length-set_back (x ∷ []) v = refl
length-set_back (x ∷ y ∷ s) v = ap suc (length-set_back (y ∷ s) v)

back-append : (xs : List ℤ) (v : ℤ) → back (xs ++ v ∷ []) ≡ v
back-append [] v = refl
back-append (x ∷ []) v = refl
back-append (x ∷ y ∷ s) v = back-append (y ∷ s) v

filter-append : (xs : List ℤ) (v : ℤ) → filter_current_delays (xs ++ v ∷ []) ≡ v
unfolding filter_current_delays
filter-append [] v = refl
filter-append (x ∷ s) v = back-append (x ∷ s) v

abbrev AllAbove : ℤ → List ℤ → Type 0
AllAbove m [] = Unit
AllAbove m (x ∷ s) = (m ≤ℤ x) × AllAbove m s

AllAbove-mono : (a b : ℤ) (s : List ℤ) → a ≤ℤ b → AllAbove b s → AllAbove a s
AllAbove-mono a b [] h k = tt
AllAbove-mono a b (x ∷ s) h k = (omega (arith, k.0), AllAbove-mono a b s h k.1)

min_le_right : (a b : ℤ) → min_ℤ a b ≤ℤ b
min_le_right a b = ground arith

≤ℤ-trans : (a b c : ℤ) → a ≤ℤ b → b ≤ℤ c → a ≤ℤ c
≤ℤ-trans a b c h k = omega (arith, h, k)

sub_nonneg : (a b : ℤ) → b ≤ℤ a → pos 0 ≤ℤ a -ℤ b
unfolding ◌-ℤ◌
sub_nonneg a b h = ground (arith, h)

least-le : (m : ℤ) (s : List ℤ) → (least m s ≤ℤ m) × AllAbove (least m s) s
least-le m [] = (omega arith, tt)
least-le m (x ∷ s) =
    let r = least-le (min_ℤ m x) s in
    let b = min_bounds m x in (omega (arith, r.0, b.0), (omega (arith, r.0, b.1), r.1))
  where
    min_bounds : (a b : ℤ) → (min_ℤ a b ≤ℤ a) × (min_ℤ a b ≤ℤ b)
    min_bounds a b = ground arith

-- The base delay is at most the last entry of a history.
abbrev Within : ℤ → List ℤ → Type 0
Within m xs = get_min_base_delays xs ≤ℤ m

base_le_all : (xs : List ℤ) → AllAbove (get_min_base_delays xs) xs
unfolding get_min_base_delays
base_le_all [] = tt
base_le_all (x ∷ s) = least-le x s

AllAbove-append : (m v : ℤ) (xs : List ℤ) → AllAbove m (xs ++ v ∷ []) → m ≤ℤ v
AllAbove-append m v [] h = h.0
AllAbove-append m v (x ∷ s) h = AllAbove-append m v s h.1

AllAbove-set_back : (m v : ℤ) (xs : List ℤ) → xs ≢ [] → AllAbove m (set_back xs v) → m ≤ℤ v
AllAbove-set_back m v [] n h = absurd (n refl)
AllAbove-set_back m v (x ∷ []) n h = h.0
AllAbove-set_back m v (x ∷ y ∷ s) n h = AllAbove-set_back m v (y ∷ s) (λ e. cc) h.1

module _ {F : Type 0} where
  -- A delay that was just noted is not below the base delay.
  base-update :
      (l : Ledbat F) (clock : ℕ) (x : ℤ)
      → l.base_delays ≢ []
      → get_min_base_delays (update_base_delay l clock x).base_delays ≤ℤ x
  unfolding update_base_delay
  base-update l clock x n =
      let t = eqb_ℤ (round_to_minute (current_timestamp clock)) (round_to_minute l.last_rollover) in
      let m = min_ℤ (back l.base_delays) x in
      let noted = set_back l.base_delays m in
      let rolled = drop 1 l.base_delays ++ x ∷ [] in
      let b = get_min_base_delays noted in
      let b' = get_min_base_delays rolled in
      elim (Bool-cases t) [
        | inl e ↦ rw e (
            ≤ℤ-trans b m x (AllAbove-set_back b m l.base_delays n (base_le_all noted))
              (min_le_right (back l.base_delays) x))
        | inr e ↦ rw e (AllAbove-append b' x (drop 1 l.base_delays) (base_le_all rolled))
      ]

  -- With a history of base delays that is not empty, the queuing delay that an acknowledgement
  -- computes is never negative, so that its limit from below by 0 has no effect.
  pub queuing_delay_nonneg :
      (l : Ledbat F) (clock : ℕ) (x : ℤ)
      → l.base_delays ≢ []
      → pos 0 ≤ℤ queuing_delay (take_samples l clock (x ∷ []))
  unfolding queuing_delay take_samples update_current_delay
  queuing_delay_nonneg l clock x n =
      let b = base-update l clock x n in
      let u = update_base_delay l clock x in
      let kept =
        if leb current_filter_size (length u.current_delays)
        then drop 1 u.current_delays
        else u.current_delays in
      rw (filter-append kept x) (sub_nonneg x (get_min_base_delays u.base_delays) b)
