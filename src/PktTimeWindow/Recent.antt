-- ===== src/PktTimeWindow/Recent.antt =====
-- The circular windows of CPktTimeWindow (udt-sys/udt/window.cpp) as the latest intervals.
use ninewire.Base.{
  ℕ, zero, suc, ◌+◌, ◌<◌, ◌≡◌, refl, sym, ap, ap₂, ◌∙◌, arith, Bool-cases, inl, inr, ◌==◌, List, [],
  ◌∷◌, ◌++◌, length, set, take, drop, length-set,
}
use mathlib.Core.List.{append_assoc, append-nil}
use ninewire.PktTimeWindow.{PktTimeWindow, interval, behind, on_pkt_arrival, probe2_arrival}

module _ {A : Type 0} where
  drop-set : (xs : List A) (p : ℕ) (v : A) → drop (suc p) (set xs p v) ≡ drop (suc p) xs
  drop-set [] p v = refl
  drop-set (x ∷ xs) zero v = refl
  drop-set (x ∷ xs) (suc p) v = drop-set xs p v

  take-set :
      (xs : List A) (p : ℕ) (v : A)
      → p < length xs
      → take (suc p) (set xs p v) ≡ take p xs ++ v ∷ []
  take-set [] p v h = elim h [ ]
  take-set (x ∷ xs) zero v h = refl
  take-set (x ∷ xs) (suc p) v h = ap (λ t. x ∷ t) (take-set xs p v (omega arith))

  drop-drop_one :
      (xs : List A) (p : ℕ) (ys : List A)
      → p < length xs
      → drop 1 (drop p xs ++ ys) ≡ drop (suc p) xs ++ ys
  drop-drop_one [] p ys h = elim h [ ]
  drop-drop_one (x ∷ xs) zero ys h = refl
  drop-drop_one (x ∷ xs) (suc p) ys h = drop-drop_one xs p ys (omega arith)

  drop_all : (xs : List A) → drop (length xs) xs ≡ []
  drop_all [] = refl
  drop_all (x ∷ xs) = drop_all xs

  take_all : (xs : List A) → take (length xs) xs ≡ xs
  take_all [] = refl
  take_all (x ∷ xs) = ap (λ t. x ∷ t) (take_all xs)

  -- A circular array from its oldest entry on.
  abbrev pub from_oldest : List A → ℕ → List A
  from_oldest xs p = drop p xs ++ take p xs

  from_oldest-behind :
      (xs : List A) (p n : ℕ)
      → p < n
      → length xs ≡ n
      → from_oldest xs (behind p n) ≡ from_oldest xs (suc p)
  from_oldest-behind xs p n h e = elim (Bool-cases (p + 1 == n)) [
    | inl y ↦
        let whole : suc p ≡ length xs = ground (arith, y, e) in
        rw (y, whole, drop_all xs, take_all xs) (append-nil xs)
    | inr y ↦ rw y (ap (from_oldest xs) {x = p + 1} {y = suc p} (omega arith))
  ]

  from_oldest-set :
      (xs : List A) (p n : ℕ) (v : A)
      → p < n
      → length xs ≡ n
      → from_oldest (set xs p v) (behind p n) ≡ drop 1 (from_oldest xs p) ++ v ∷ []
  from_oldest-set xs p n v h e =
      from_oldest-behind (set xs p v) p n h (length-set xs p v ∙ e)
      ∙ ap₂ (λ a b. a ++ b) (drop-set xs p v) (take-set xs p v (rw e h))
      ∙ sym (append_assoc (drop (suc p) xs) (take p xs) (v ∷ []))
      ∙ ap (λ t. t ++ v ∷ []) (sym (drop-drop_one xs p (take p xs) (rw e h)))

pub record IsValid (w : PktTimeWindow) : Type 0 where
  pub arrivals : length w.pkt_window ≡ w.aw_size
  pub arrivals_ptr : w.pkt_window_ptr < w.aw_size
  pub probes : length w.probe_window ≡ w.pw_size
  pub probes_ptr : w.probe_window_ptr < w.pw_size

behind_lt : (p n : ℕ) → p < n → behind p n < n
behind_lt p n h = ground (arith, h)

-- An arrival takes the oldest interval out of the window of a valid state and puts the time since
-- the last arrival behind the others; the second packet of a pair does the same for the probing
-- window, with the time since the first one. Neither touches the other window, and the state
-- stays valid.
pub arrivals_are_recent :
    (w : PktTimeWindow) (now : ℕ)
    → IsValid w
    → let a = on_pkt_arrival w now in
      let b = probe2_arrival w now in
      (from_oldest a.pkt_window a.pkt_window_ptr
        ≡ drop 1 (from_oldest w.pkt_window w.pkt_window_ptr) ++ interval now w.last_arr_time ∷ [])
      × (a.probe_window ≡ w.probe_window)
      × (a.last_arr_time ≡ now)
      × IsValid a
      × (from_oldest b.probe_window b.probe_window_ptr
          ≡ drop 1 (from_oldest w.probe_window w.probe_window_ptr)
            ++ interval now w.probe_time ∷ [])
      × (b.pkt_window ≡ w.pkt_window)
      × IsValid b
unfolding on_pkt_arrival probe2_arrival
arrivals_are_recent w now v = (
  from_oldest-set w.pkt_window w.pkt_window_ptr w.aw_size (interval now w.last_arr_time)
      v.arrivals_ptr v.arrivals,
  refl,
  refl,
  record {
    probes = v.probes;
    probes_ptr = v.probes_ptr;
    arrivals = length-set w.pkt_window w.pkt_window_ptr (interval now w.last_arr_time) ∙ v.arrivals;
    arrivals_ptr = behind_lt w.pkt_window_ptr w.aw_size v.arrivals_ptr;
  },
  from_oldest-set w.probe_window w.probe_window_ptr w.pw_size (interval now w.probe_time)
      v.probes_ptr v.probes,
  refl,
  record {
    arrivals = v.arrivals;
    arrivals_ptr = v.arrivals_ptr;
    probes = length-set w.probe_window w.probe_window_ptr (interval now w.probe_time) ∙ v.probes;
    probes_ptr = behind_lt w.probe_window_ptr w.pw_size v.probes_ptr;
  },
)
