-- ===== src/Ledbat/Window.antt =====
-- The congestion window of LedbatCC (udt-sys/bridge/ledbat.cpp).
use ninewire.Base.{
  ℕ, ◌≡◌, ◌⊎◌, inl, inr, refl, ap, sym, ◌∙◌, false, ◌||◌, ◌&&◌, ℤ, pos, ◌+ℤ◌, ◌-ℤ◌, eqb_ℤ, ltb_ℤ,
  max_ℤ, List, [], ◌∷◌, Bool-cases,
}
use ninewire.Base.Double.{Double, fmax, fmin, fmax-not-lt, fmin-not-gt}
use ninewire.Ledbat.{
  Ledbat, to_int32, int_max, current_timestamp, round_to_minute, get_min_base_delays,
  filter_current_delays, update_current_delay, update_base_delay, update_cto, take_samples,
  update_period, on_loss, next_cwnd, queuing_delay, update_congestion_window,
}

module _ (d : Double) where
  open d use {F, of_int, div, lt}

  cwnd-update_period : (l : Ledbat F) → (update_period d l).cwnd_size ≡ l.cwnd_size
  unfolding update_period
  cwnd-update_period l =
      elim (Bool-cases (lt (of_int (pos 0)) l.cwnd_size && ltb_ℤ (pos 0) l.rtt)) [
        | inl t ↦ rw t refl
        | inr f ↦ rw f refl
      ]

  cwnd-update_cto : (l : Ledbat F) → (update_cto l).cwnd_size ≡ l.cwnd_size
  unfolding update_cto
  cwnd-update_cto l = elim (Bool-cases (ltb_ℤ (pos 0) l.rtt)) [
    | inl t ↦ rw t refl
    | inr f ↦ rw f refl
  ]

  mss-take_samples :
      (l : Ledbat F) (clock : ℕ) (xs : List ℤ)
      → ((take_samples l clock xs).mss ≡ l.mss)
        × ((take_samples l clock xs).cwnd_size ≡ l.cwnd_size)
  unfolding take_samples update_current_delay update_base_delay
  mss-take_samples l clock [] = (refl, refl)
  mss-take_samples l clock (x ∷ s) =
      let u = update_base_delay l clock x in
      let r = mss-take_samples (update_current_delay u x) clock s in
      elim (Bool-cases
        (eqb_ℤ (round_to_minute (current_timestamp clock)) (round_to_minute l.last_rollover))) [
          | inl t ↦ (r.0 ∙ rw t refl, r.1 ∙ rw t refl)
          | inr f ↦ (r.0 ∙ rw f refl, r.1 ∙ rw f refl)
        ]

  cwnd_lower :
      (l : Ledbat F) (queuing bytes : ℤ)
      → lt (next_cwnd d l queuing bytes) (of_int (l.mss +ℤ l.mss)) ≡ false
  unfolding next_cwnd
  cwnd_lower l queuing bytes = fmax-not-lt d _ (of_int (l.mss +ℤ l.mss))

  -- An acknowledgement leaves the window as it is, when there is no delay to go by, or sets it to
  -- one that is not below two segments.
  pub ack_window :
      (l : Ledbat F) (clock : ℕ) (samples : List ℤ) (bytes : ℤ)
      → let l' = update_congestion_window d l clock samples bytes in
        (l'.cwnd_size ≡ l.cwnd_size) ⊎ (lt l'.cwnd_size (of_int (l.mss +ℤ l.mss)) ≡ false)
  unfolding update_congestion_window
  ack_window l clock samples bytes =
      let l' = take_samples l clock samples in
      let same = mss-take_samples l clock samples in
      let queuing = max_ℤ (pos 0) (queuing_delay l') in
      let moved = record l' {
        cwnd_size = next_cwnd d l' queuing bytes;
        flight_size = max_ℤ (pos 0) (to_int32 (l'.flight_size -ℤ bytes));
      } in
      let early =
        ltb_ℤ (filter_current_delays l'.current_delays) (pos 0)
        || eqb_ℤ (get_min_base_delays l'.base_delays) int_max in
      elim (Bool-cases early) [
        | inl t ↦ rw t (inl same.1)
        | inr f ↦
            rw (f, cwnd-update_period (update_cto moved), cwnd-update_cto moved)
              (inr (
                ap (λ m. lt (next_cwnd d l' queuing bytes) (of_int (m +ℤ m))) (sym same.0)
                ∙ cwnd_lower l' queuing bytes))
      ]

  -- A loss never makes the window larger.
  pub loss_window : (l : Ledbat F) → lt l.cwnd_size (on_loss d l).cwnd_size ≡ false
  unfolding on_loss
  loss_window l =
      let next = fmax d (div l.cwnd_size (of_int (pos 2))) (of_int (l.mss +ℤ l.mss)) in
      rw
        (cwnd-update_period
          (record l { cwnd_size = fmin d l.cwnd_size next; in_slow_start = false }))
        (fmin-not-gt d l.cwnd_size next)
