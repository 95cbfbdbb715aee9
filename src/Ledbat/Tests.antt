-- ===== src/Ledbat/Tests.antt =====
-- Runs of LedbatCC (udt-sys/bridge/ledbat.cpp), with natural numbers in place of `double`.
use ninewire.Base.{
  ℕ, ◌+◌, ◌-◌, ◌*◌, ◌/◌, ◌≡◌, refl, true, arith, pos, negsuc, replicate, pos_part, to_word, ltb,
  List, [], ◌∷◌,
}
use ninewire.Base.Double.{Double}
use ninewire.Ledbat.{Ledbat, init, Event, ack, loss, timeout, sent, received, run}
use ninewire.Ledbat.Histories.{run-init-Bounded}
use ninewire.Ledbat.InFlight.{Bounded}

abbrev whole : Double
whole = record {
  F = ℕ;
  of_int = pos_part;
  add = λ a b. a + b;
  sub = λ a b. a - b;
  mul = λ a b. a * b;
  div = λ a b. a / b;
  lt = ltb;
  lt_irrefl = λ a. ground arith;
  lt_asymm = λ a b h. ground (arith, h);
}

abbrev fresh : Ledbat ℕ
fresh = record {
  mss = pos 1500;
  rtt = pos 80000;
  cwnd_size = 16;
  pkt_snd_period = 1;
  current_delays = [];
  base_delays = [];
  last_rollover = pos 0;
  flight_size = pos 0;
  cto = pos 1000000;
  in_slow_start = true;
  last_timeout = pos 0;
}

abbrev started : Ledbat ℕ
started = record fresh {
  cwnd_size = 9000;
  current_delays = pos 41000 ∷ [];
  base_delays = pos 40000 ∷ pos 39000 ∷ [];
  flight_size = pos 6000;
}

abbrev events : List Event
events =
    sent
    ∷ sent
    ∷ received 70000000 70000001 (pos 69960000)
    ∷ ack 70000100
    ∷ loss
    ∷ timeout 72000000
    ∷ []

counts_bytes_in_flight : (run whole (init whole fresh 70000000) events).flight_size ≡ pos 1500
unfolding run init to_word
counts_bytes_in_flight = refl

run-init-Bounded_example : Bounded 1500 2 (run whole (init whole fresh 70000000) events)
run-init-Bounded_example =
    run-init-Bounded whole fresh 70000000 1500 events refl (omega arith) (omega arith)

-- The thirteenth size of the time-out is more than an `int32_t` holds.
abbrev twelve_timeouts : List Event
twelve_timeouts = replicate 12 (timeout 72000000)

timeout_becomes_negative :
    (run whole (init whole fresh 70000000) twelve_timeouts).cto ≡ negsuc 198967295
unfolding run init to_word
timeout_becomes_negative = refl
