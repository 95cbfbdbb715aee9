-- ===== src/Connection/Silence.antt =====
-- udt-sys/udt/core.cpp: CUDT::checkTimers while nothing comes from the peer.
use ninewire.Base.{
  differ, ℕ, ◌%◌, ◌^◌, not, eqb_ℤ, pos, ◌⊎◌, ◌+◌, ◌-◌, ◌*◌, ◌≤◌, ◌<◌, ◌≡◌, refl, arith, if_chooses,
  true, false, Bool-cases, inl, inr, ltb, ◌&&◌, if◌then◌else◌, List, [], ◌∷◌, length, none, length,
}
use native.Mathlib.Nat.{mul-le-mul_left, mul-le-mul_right}
use ninewire.SeqNo.{incseq}
use ninewire.SndBuffer.{get_curr_buf_size}
use ninewire.Connection.{Congestion, Udt, cc_update}
use ninewire.Connection.Flags.{check_expiration-Later}
use ninewire.Connection.Loss.{note_loss}
use ninewire.Connection.Timers.{
  exp_wait, next_exp_time, give_up, lose_all, expire, check_expiration,
}

floor_wait :
    (last w l : ℕ)
    → l < 2 ^ 64
    → let wait = if ltb w (l % 2 ^ 64) then l % 2 ^ 64 else w in
      last + wait < 2 ^ 64 → last + l ≤ (last + wait) % 2 ^ 64
floor_wait last w l small fits = ground (arith, small, fits)

is_past : (x a : ℕ) → x < a → ltb x a ≡ true
is_past x a h = ground arith

still_few : (e x d : ℕ) → (ltb 16 e && ltb x d) ≡ false → (16 < e → x < d) → e ≤ 16
still_few e x d h k = elim (Bool-cases (ltb 16 e)) [
  | inl many ↦ let far : x < d = k (ground (arith, many)) in ground (arith, many, h, far)
  | inr few ↦ ground (arith, few)
]

-- More than 5 seconds are over when the 17th or a later expiration is due.
long_enough :
    (e least f last exp_time a : ℕ)
    → 16 < e
    → 300000 * f ≤ least
    → last + e * least ≤ exp_time
    → exp_time < a
    → 5000000 * f < a - last
long_enough e least f last exp_time a many floor wait past =
    let some_waits : 17 * least ≤ e * least = mul-le-mul_right least (omega (arith, many)) in
    let waits : 17 * (300000 * f) ≤ 17 * least = mul-le-mul_left 17 floor in
    omega (arith, some_waits, waits, wait, past)

module _ (k : Congestion) {W : Type 0} where
  open k use {C}

  -- The expiration time of this state fits 64 bits.
  abbrev pub Fits : Udt C W → Type 0
  Fits u = (u.exp_count * u.min_exp_int < 2 ^ 64) × (u.last_rsp_time + exp_wait k u < 2 ^ 64)

  -- The timers are checked at these times (and readings of `CTimer::getTime`), each behind the
  -- time at which the peer counts as silent, a time that fits 64 bits, and nothing comes in between.
  abbrev pub Silent : Udt C W → List (ℕ × ℕ) → Type 0
  Silent u [] = Unit
  Silent u ((a, b) ∷ s) = Fits u × (next_exp_time k u < a) × Silent (check_expiration k u a b) s

  unfoldable pub keep_checking : Udt C W → List (ℕ × ℕ) → Udt C W
  unfolding check_expiration
  keep_checking u [] = u
  keep_checking u ((a, b) ∷ s) = keep_checking (check_expiration k u a b) s

  keep_checking-broken :
      (s : List (ℕ × ℕ)) (u : Udt C W)
      → u.status.broken ≡ true
      → (keep_checking u s).status.broken ≡ true
  unfolding keep_checking
  keep_checking-broken [] u h = h
  keep_checking-broken ((a, b) ∷ s) u h =
      keep_checking-broken s (check_expiration k u a b) ((check_expiration-Later k u a b).broken h)

  -- One more expiration, with the same bounds.
  record OneMore (u v : Udt C W) : Type 0 where
    count : v.exp_count ≡ u.exp_count + 1
    least : v.min_exp_int ≡ u.min_exp_int
    frequency : v.cpu_frequency ≡ u.cpu_frequency

  lose_all_bounds :
      (u : Udt C W)
      → ((lose_all k u).min_exp_int ≡ u.min_exp_int)
        × ((lose_all k u).cpu_frequency ≡ u.cpu_frequency)
  unfolding lose_all note_loss
  lose_all_bounds u =
      if_chooses
        (λ (v : Udt C W). (v.min_exp_int ≡ u.min_exp_int) × (v.cpu_frequency ≡ u.cpu_frequency))
        (not (eqb_ℤ (incseq u.snd_curr_seq_no) u.snd_last_ack)
          && eqb_ℤ u.snd_loss_list.loss_length (pos 0))
        (λ y. (refl, refl)) (λ n. (refl, refl))

  expire-OneMore : (u : Udt C W) (a b : ℕ) → OneMore u (expire k u a b)
  unfolding expire cc_update
  expire-OneMore u a b =
      let (least, frequency) = lose_all_bounds u in
      if_chooses
        (λ (v : Udt C W). OneMore u (record v { exp_count = u.exp_count + 1; last_rsp_time = a }))
        (ltb 0 (get_curr_buf_size u.snd_buffer))
        (λ y. record { count = refl; least = least; frequency = frequency })
        (λ n. record { count = refl; least = refl; frequency = refl })

  module _ (no_rto : (c : C) → k.rto c ≡ none) where
    exp_time_floor :
        (u : Udt C W) → Fits u → u.last_rsp_time + u.exp_count * u.min_exp_int ≤ next_exp_time k u
    unfolding next_exp_time
    exp_time_floor u fits =
        rw (next_exp_time, exp_wait, no_rto u.cc)
          (floor_wait u.last_rsp_time _ (u.exp_count * u.min_exp_int) fits.0 fits.1)

    -- What a silent check does.
    silent_check :
        (u : Udt C W) (a b : ℕ)
        → 300000 * u.cpu_frequency ≤ u.min_exp_int
        → Fits u
        → next_exp_time k u < a
        → ((check_expiration k u a b).status.broken ≡ true)
          ⊎ ((u.exp_count ≤ 16) × OneMore u (check_expiration k u a b))
    unfolding check_expiration give_up
    silent_check u a b floor fits past =
        let late = ltb 16 u.exp_count && ltb (5000000 * u.cpu_frequency) (a - u.last_rsp_time) in
        let P : Udt C W → Type 0 =
          λ v. (v.status.broken ≡ true) ⊎ ((u.exp_count ≤ 16) × OneMore u v) in
        if_chooses P (ltb (next_exp_time k u) a)
          (λ y.
            if_chooses P late (λ z. inl refl)
              (λ z. inr (
                still_few u.exp_count _ _ z (λ many.
                    long_enough u.exp_count u.min_exp_int u.cpu_frequency u.last_rsp_time
                      (next_exp_time k u) a many floor (exp_time_floor u fits) past),
                expire-OneMore u a b,
              )))
          (λ n. absurd (differ (ltb (next_exp_time k u) a) (is_past (next_exp_time k u) a past) n))

    -- Let congestion control set no timeout of its own, and let the least expiration interval be
    -- at least 300 ms. Let nothing come from the peer, and let the timers be checked at least once,
    -- each time behind the time at which the peer counts as silent, where these times fit 64 bits.
    -- If the count of expirations and the number of checks together are 18 or more, the connection
    -- is broken in the end.
    pub silence_breaks :
        (s : List (ℕ × ℕ)) (u : Udt C W)
        → 300000 * u.cpu_frequency ≤ u.min_exp_int
        → Silent u s
        → 0 < length s
        → 18 ≤ u.exp_count + length s
        → (keep_checking u s).status.broken ≡ true
    unfolding keep_checking
    silence_breaks [] u floor silent any enough = absurd (omega (arith, any))
    silence_breaks ((a, b) ∷ s) u floor silent any enough =
        let v = check_expiration k u a b in
        elim (silent_check u a b floor silent.0 silent.1) [
          | inl broken ↦ keep_checking-broken s v broken
          | inr (few, more) ↦
              silence_breaks s v (rw (more.frequency, more.least) floor) silent.2
                (omega (arith, few, enough)) (omega (arith, more.count, enough))
        ]
