-- ===== src/Ledbat/InFlight.antt =====
-- udt-sys/bridge/ledbat.cpp: m_flightSize of LedbatCC, the bytes in flight, as an int32_t.
use ninewire.Base.{
  ℕ, suc, ◌≤◌, ◌≡◌, arith, ℤ, pos, to_word, ◌+ℤ◌, ◌-ℤ◌, ◌≤ℤ◌, ◌<ℤ◌, negsuc, ◌*◌, ◌<◌, ◌^◌, +ℤ_parts,
  max_ℤ, List, [], ◌∷◌, length,
}
use ninewire.Ledbat.{
  Ledbat, to_int32, current_filter_size, base_history_size, Event, ack, loss, timeout, sent,
  received,
}

-- How many packets are sent.
abbrev pub sent_count : List Event → ℕ
sent_count [] = 0
sent_count (sent ∷ es) = suc (sent_count es)
sent_count (ack clock ∷ es) = sent_count es
sent_count (loss ∷ es) = sent_count es
sent_count (timeout clock ∷ es) = sent_count es
sent_count (received clock clock' stamp ∷ es) = sent_count es

-- The histories: ten base delays, at most four samples, and no more bytes in flight than `n` packets
-- of `m` bytes.
pub record Bounded {F : Type 0} (m n : ℕ) (l : Ledbat F) : Type 0 where
  pub mss_same : l.mss ≡ pos m
  pub base_length : length l.base_delays ≡ base_history_size
  pub current_length : length l.current_delays ≤ current_filter_size
  pub flight_nonneg : pos 0 ≤ℤ l.flight_size
  pub flight_most : l.flight_size ≤ℤ pos (m * n)

to_int32_nonneg : (x : ℤ) → pos 0 ≤ℤ x → x <ℤ pos (2 ^ 31) → to_int32 x ≡ x
unfolding to_word
to_int32_nonneg (negsuc x) h k = absurd (omega (arith, h))
to_int32_nonneg (pos x) h k = ground (arith, h, k)

-- No overflow in a sum of what may be in flight.
pub sum_in_range :
    (a : ℤ) (m n : ℕ)
    → pos 0 ≤ℤ a
    → a ≤ℤ pos (m * n)
    → m * suc n < 2 ^ 31
    → let r = to_int32 (a +ℤ pos m) in (pos 0 ≤ℤ r) × (r ≤ℤ pos (m * suc n))
sum_in_range a m n h k few =
    let sum : (pos 0 ≤ℤ (a +ℤ pos m)) × ((a +ℤ pos m) ≤ℤ pos (m * suc n)) =
      (omega (arith, h, +ℤ_parts a (pos m)), omega (arith, k, +ℤ_parts a (pos m))) in
    rw (to_int32_nonneg (a +ℤ pos m) sum.0 (omega (arith, sum.1, few))) sum

pub difference_in_range :
    (a : ℤ) (m top : ℕ)
    → pos 0 ≤ℤ a
    → a ≤ℤ pos top
    → m < 2 ^ 31
    → top < 2 ^ 31
    → let r = max_ℤ (pos 0) (to_int32 (a -ℤ pos m)) in (pos 0 ≤ℤ r) × (r ≤ℤ pos top)
unfolding to_word ◌-ℤ◌
difference_in_range (negsuc x) m top h k fits few = absurd (omega (arith, h))
difference_in_range (pos x) m top h k fits few = ground (arith, k, fits, few)
