-- ===== src/Ledbat/Histories.antt =====
-- The histories of LedbatCC (udt-sys/bridge/ledbat.cpp) over its events.
use ninewire.Base.{
  subst, sym, ℕ, suc, ◌+◌, ◌≤◌, ◌≡◌, inl, inr, ◌∙◌, arith, false, ◌||◌, ◌&&◌, ◌==◌, ℤ, pos, ◌+ℤ◌,
  ◌-ℤ◌, ◌≤ℤ◌, ◌*◌, ◌<◌, ◌^◌, eqb_ℤ, ltb_ℤ, max_ℤ, min_ℤ, if◌then◌else◌, leb, List, [], ◌∷◌, ◌++◌,
  length, drop, length-append, length-replicate, Bool-cases,
}
use ninewire.Base.Double.{Double, fmax, fmin}
use ninewire.Ledbat.{
  Ledbat, to_int32, int_max, current_timestamp, back, round_to_minute, get_min_base_delays,
  filter_current_delays, update_current_delay, update_base_delay, update_cto, take_samples,
  process_timestamp, on_pkt_sent, on_pkt_received, init, update_period, on_loss, on_timeout,
  next_cwnd, queuing_delay, update_congestion_window, on_ack, Event, ack, loss, timeout, sent,
  received, step, run,
}
use ninewire.Ledbat.Delays.{length-set_back}
use ninewire.Ledbat.InFlight.{sent_count, Bounded, sum_in_range, difference_in_range}

length-rolled :
    (xs : List ℤ) (v : ℤ) (n : ℕ) → length xs ≡ suc n → length (drop 1 xs ++ v ∷ []) ≡ suc n
length-rolled [] v n h = omega (arith, h)
length-rolled (x ∷ s) v n h = rw (length-append s (v ∷ [])) (omega (arith, h))

length-noted :
    (xs : List ℤ) (v : ℤ)
    → length xs ≤ 4
    → length ((if leb 4 (length xs) then drop 1 xs else xs) ++ v ∷ []) ≤ 4
length-noted [] v h = ground arith
length-noted (x ∷ s) v h = elim (Bool-cases (leb 4 (length (x ∷ s)))) [
  | inl t ↦ rw t (rw (length-append s (v ∷ [])) (omega (arith, h)))
  | inr f ↦ rw f (rw (length-append (x ∷ s) (v ∷ [])) (not_full (length (x ∷ s)) f))
]
  where
    not_full : (n : ℕ) → leb 4 n ≡ false → n + 1 ≤ 4
    not_full n f = ground (arith, f)

module _ {F : Type 0} {m n : ℕ} where
  base_update-Bounded :
      (l : Ledbat F) (clock : ℕ) (x : ℤ) → Bounded m n l → Bounded m n (update_base_delay l clock x)
  unfolding update_base_delay
  base_update-Bounded l clock x h =
      let t = eqb_ℤ (round_to_minute (current_timestamp clock)) (round_to_minute l.last_rollover) in
      elim (Bool-cases t) [
        | inl e ↦ rw e (record {
          mss_same = h.mss_same;
          base_length =
              length-set_back l.base_delays (min_ℤ (back l.base_delays) x) ∙ h.base_length;
          current_length = h.current_length;
          flight_nonneg = h.flight_nonneg;
          flight_most = h.flight_most;
        })
        | inr e ↦ rw e (record {
          mss_same = h.mss_same;
          base_length = length-rolled l.base_delays x 9 h.base_length;
          current_length = h.current_length;
          flight_nonneg = h.flight_nonneg;
          flight_most = h.flight_most;
        })
      ]

  current_update-Bounded :
      (l : Ledbat F) (x : ℤ) → Bounded m n l → Bounded m n (update_current_delay l x)
  unfolding update_current_delay
  current_update-Bounded l x h = record {
    mss_same = h.mss_same;
    base_length = h.base_length;
    current_length = length-noted l.current_delays x h.current_length;
    flight_nonneg = h.flight_nonneg;
    flight_most = h.flight_most;
  }

  samples-Bounded :
      (l : Ledbat F) (clock : ℕ) (xs : List ℤ)
      → Bounded m n l
      → Bounded m n (take_samples l clock xs)
  unfolding take_samples
  samples-Bounded l clock [] h = h
  samples-Bounded l clock (x ∷ s) h =
      let u = update_base_delay l clock x in
      samples-Bounded (update_current_delay u x) clock s
        (current_update-Bounded u x (base_update-Bounded l clock x h))

  received-Bounded :
      (l : Ledbat F) (clock clock' : ℕ) (stamp : ℤ)
      → Bounded m n l
      → Bounded m n (on_pkt_received l clock clock' stamp)
  unfolding on_pkt_received process_timestamp
  received-Bounded l clock clock' stamp h =
      let delay = current_timestamp clock -ℤ stamp in
      let u = update_current_delay l delay in
      elim (Bool-cases (ltb_ℤ (pos 0) stamp)) [
        | inr f ↦ rw f h
        | inl t ↦ elim (Bool-cases (ltb_ℤ (pos 0) delay)) [
          | inl e ↦
              rw (t, e) (base_update-Bounded u clock' delay (current_update-Bounded l delay h))
          | inr e ↦ rw (t, e) h
        ]
      ]

  sent-Bounded :
      (l : Ledbat F) → m * suc n < 2 ^ 31 → Bounded m n l → Bounded m (suc n) (on_pkt_sent l)
  unfolding on_pkt_sent
  sent-Bounded l few h =
      let sum = sum_in_range l.flight_size m n h.flight_nonneg h.flight_most few in
      record {
        mss_same = h.mss_same;
        base_length = h.base_length;
        current_length = h.current_length;
        flight_nonneg = rw h.mss_same sum.0;
        flight_most = rw h.mss_same sum.1;
      }

  cto-Bounded : (l : Ledbat F) → Bounded m n l → Bounded m n (update_cto l)
  unfolding update_cto
  cto-Bounded l h = elim (Bool-cases (ltb_ℤ (pos 0) l.rtt)) [
    | inl t ↦ rw t (record {
      mss_same = h.mss_same;
      base_length = h.base_length;
      current_length = h.current_length;
      flight_nonneg = h.flight_nonneg;
      flight_most = h.flight_most;
    })
    | inr f ↦ rw f h
  ]

module _ (d : Double) {m n : ℕ} where
  open d use {F, of_int, div, lt}

  period-Bounded : (l : Ledbat F) → Bounded m n l → Bounded m n (update_period d l)
  unfolding update_period
  period-Bounded l h = elim (Bool-cases (lt (of_int (pos 0)) l.cwnd_size && ltb_ℤ (pos 0) l.rtt)) [
    | inl t ↦ rw t (record {
      mss_same = h.mss_same;
      base_length = h.base_length;
      current_length = h.current_length;
      flight_nonneg = h.flight_nonneg;
      flight_most = h.flight_most;
    })
    | inr f ↦ rw f h
  ]

  loss-Bounded : (l : Ledbat F) → Bounded m n l → Bounded m n (on_loss d l)
  unfolding on_loss
  loss-Bounded l h =
      period-Bounded
        (record l {
          cwnd_size =
              fmin d l.cwnd_size
                (fmax d (div l.cwnd_size (of_int (pos 2))) (of_int (l.mss +ℤ l.mss)));
          in_slow_start = false;
        })
        (record {
          mss_same = h.mss_same;
          base_length = h.base_length;
          current_length = h.current_length;
          flight_nonneg = h.flight_nonneg;
          flight_most = h.flight_most;
        })

  timeout-Bounded : (l : Ledbat F) (clock : ℕ) → Bounded m n l → Bounded m n (on_timeout d l clock)
  unfolding on_timeout
  timeout-Bounded l clock h = period-Bounded _ (record {
    mss_same = h.mss_same;
    base_length = h.base_length;
    current_length = h.current_length;
    flight_nonneg = h.flight_nonneg;
    flight_most = h.flight_most;
  })

  window-Bounded :
      (l : Ledbat F) (clock : ℕ) (samples : List ℤ) (bytes : ℤ)
      → bytes ≡ pos m
      → m < 2 ^ 31
      → m * n < 2 ^ 31
      → Bounded m n l
      → Bounded m n (update_congestion_window d l clock samples bytes)
  unfolding update_congestion_window
  window-Bounded l clock samples bytes same fits few h =
      let l' = take_samples l clock samples in
      let k = samples-Bounded l clock samples h in
      let left =
        subst
          (λ b.
            let r = max_ℤ (pos 0) (to_int32 (l'.flight_size -ℤ b)) in
            (pos 0 ≤ℤ r) × (r ≤ℤ pos (m * n)))
          (sym same)
          (difference_in_range l'.flight_size m (m * n) k.flight_nonneg k.flight_most fits few) in
      let moved = record l' {
        cwnd_size = next_cwnd d l' (max_ℤ (pos 0) (queuing_delay l')) bytes;
        flight_size = max_ℤ (pos 0) (to_int32 (l'.flight_size -ℤ bytes));
      } in
      let early =
        ltb_ℤ (filter_current_delays l'.current_delays) (pos 0)
        || eqb_ℤ (get_min_base_delays l'.base_delays) int_max in
      elim (Bool-cases early) [
        | inl t ↦ rw t k
        | inr f ↦ rw f (
            period-Bounded (update_cto moved) (
              cto-Bounded moved (record {
                mss_same = k.mss_same;
                base_length = k.base_length;
                current_length = k.current_length;
                flight_nonneg = left.0;
                flight_most = left.1;
              })))
      ]

  ack-Bounded :
      (l : Ledbat F) (clock : ℕ)
      → m < 2 ^ 31
      → m * n < 2 ^ 31
      → Bounded m n l
      → Bounded m n (on_ack d l clock)
  unfolding on_ack
  ack-Bounded l clock fits few h = elim (Bool-cases (length l.current_delays == 0)) [
    | inl t ↦ rw t h
    | inr f ↦ rw f (window-Bounded l clock (back l.current_delays ∷ []) l.mss h.mss_same fits few h)
  ]

-- The packets that events send, behind `n` of them.
module _ (d : Double) {m : ℕ} (fits : m < 2 ^ 31) where
  open d use {F}

  run-Bounded :
      (n t : ℕ) (l : Ledbat F) (es : List Event)
      → m * (n + sent_count es) < 2 ^ 31
      → n + sent_count es ≡ t
      → Bounded m n l
      → Bounded m t (run d l es)
  unfolding run step
  run-Bounded n t l [] few e h =
      let same : n ≡ t = omega (arith, e) in subst (λ k. Bounded m k l) same h
  run-Bounded n t l (ack clock ∷ es) few e h =
      run-Bounded n t (on_ack d l clock) es few e
        (ack-Bounded d l clock fits (omega (arith, few)) h)
  run-Bounded n t l (loss ∷ es) few e h =
      run-Bounded n t (on_loss d l) es few e (loss-Bounded d l h)
  run-Bounded n t l (timeout clock ∷ es) few e h =
      run-Bounded n t (on_timeout d l clock) es few e (timeout-Bounded d l clock h)
  run-Bounded n t l (sent ∷ es) few e h =
      run-Bounded (suc n) t (on_pkt_sent l) es (omega (arith, few)) (omega (arith, e))
        (sent-Bounded l (omega (arith, few)) h)
  run-Bounded n t l (received clock clock' stamp ∷ es) few e h =
      run-Bounded n t (on_pkt_received l clock clock' stamp) es few e
        (received-Bounded l clock clock' stamp h)

-- From `init` on, whatever the events are and in whatever order they come, let fewer than 2^31 bytes
-- be sent, counting each packet as one of the maximum segment size `m`, which is an int. Then there
-- are ten base delays and at most four current ones, and the number of bytes in flight is not
-- negative and at most `m` times the number of packets sent.
pub run-init-Bounded :
    (d : Double) (l : Ledbat d.F) (clock m : ℕ) (es : List Event)
    → l.mss ≡ pos m
    → m < 2 ^ 31
    → m * sent_count es < 2 ^ 31
    → Bounded m (sent_count es) (run d (init d l clock) es)
unfolding init
run-init-Bounded d l clock m es same fits few =
    run-Bounded d fits 0 (sent_count es) (init d l clock) es (omega (arith, few)) (omega arith)
      (record {
        mss_same = same;
        base_length = length-replicate 10 int_max;
        current_length = omega arith;
        flight_nonneg = omega arith;
        flight_most = omega arith;
      })
