-- ===== src/Ledbat.antt =====
-- udt-sys/bridge/ledbat.cpp: LedbatCC, the congestion control after RFC 6817, with the fields of
-- the class CCC (udt-sys/udt/ccc.h) that it reads and writes. `double` is the parameter `d`; the
-- clock of `gettimeofday`, in microseconds, is an argument. A deque is a list, its front first.
pub mod Delays
pub mod Histories
pub mod InFlight
pub mod Window
mod Tests
use ninewire.Base.{
  ℕ, ◌+◌, ◌-◌, ◌*◌, ◌/◌, ◌^◌, Bool, true, false, not, ◌&&◌, ◌||◌, ◌==◌, ℤ, pos, negsuc, minus_one,
  ◌+ℤ◌, ◌-ℤ◌, eqb_ℤ, ltb_ℤ, sub_ℕ, max_ℤ, min_ℤ, signed32, to_word, if◌then◌else◌, leb, List, [],
  ◌∷◌, ◌++◌, length, drop, replicate,
}
use ninewire.Base.Double.{Double, fmax, fmin}

abbrev pub target_delay : ℕ
target_delay = 100000

abbrev pub base_history_size : ℕ
base_history_size = 10

abbrev pub current_filter_size : ℕ
current_filter_size = 4

abbrev pub int_max : ℤ
int_max = pos (2 ^ 31 - 1)

pub record Ledbat (F : Type 0) : Type 0 where
  pub mss : ℤ
  pub rtt : ℤ
  pub cwnd_size : F
  pub pkt_snd_period : F
  pub current_delays : List ℤ
  pub base_delays : List ℤ
  pub last_rollover : ℤ
  pub flight_size : ℤ
  pub cto : ℤ
  pub in_slow_start : Bool
  pub last_timeout : ℤ

-- A value as an `int32_t`, for results out of range as the processor leaves them.
abbrev pub to_int32 : ℤ → ℤ
to_int32 a = signed32 (to_word a)

-- `tv.tv_sec * 1000000 + tv.tv_usec`, returned as an `int32_t`
abbrev pub current_timestamp : ℕ → ℤ
current_timestamp clock = signed32 clock

-- `deque::back` and a write to it, for a deque that is not empty.
abbrev pub back : List ℤ → ℤ
back [] = pos 0
back (x ∷ []) = x
back (x ∷ y ∷ s) = back (y ∷ s)

abbrev pub set_back : List ℤ → ℤ → List ℤ
set_back [] v = []
set_back (x ∷ []) v = v ∷ []
set_back (x ∷ y ∷ s) v = x ∷ set_back (y ∷ s) v

unfoldable pub round_to_minute : ℤ → ℤ
round_to_minute (pos n) = pos (n / 60000000 * 60000000)
round_to_minute (negsuc n) = sub_ℕ 0 ((n + 1) / 60000000 * 60000000)

-- The least element, starting from `m`.
abbrev pub least : ℤ → List ℤ → ℤ
least m [] = m
least m (x ∷ s) = least (min_ℤ m x) s

unfoldable pub get_min_base_delays : List ℤ → ℤ
get_min_base_delays [] = int_max
get_min_base_delays (x ∷ s) = least x s

unfoldable pub filter_current_delays : List ℤ → ℤ
filter_current_delays [] = minus_one
filter_current_delays (x ∷ s) = back (x ∷ s)

module _ {F : Type 0} where
  unfoldable pub update_current_delay : Ledbat F → ℤ → Ledbat F
  update_current_delay l delay =
      let kept =
        if leb current_filter_size (length l.current_delays)
        then drop 1 l.current_delays
        else l.current_delays in
      record l { current_delays = kept ++ delay ∷ [] }

  unfoldable pub update_base_delay : Ledbat F → ℕ → ℤ → Ledbat F
  unfolding round_to_minute
  update_base_delay l clock delay =
      let now = current_timestamp clock in
      if eqb_ℤ (round_to_minute now) (round_to_minute l.last_rollover)
      then record l { base_delays = set_back l.base_delays (min_ℤ (back l.base_delays) delay) }
      else record l { last_rollover = now; base_delays = drop 1 l.base_delays ++ delay ∷ [] }

  unfoldable pub update_cto : Ledbat F → Ledbat F
  unfolding ◌+ℤ◌
  update_cto l =
      if ltb_ℤ (pos 0) l.rtt
      then record l { cto = max_ℤ (pos 1000000) (to_int32 (l.rtt +ℤ l.rtt)) }
      else l

  -- `processTimestamp`; `clock` and `clock'` are its two readings of the clock.
  unfoldable pub process_timestamp : Ledbat F → ℕ → ℕ → ℤ → Ledbat F
  unfolding update_current_delay update_base_delay ◌-ℤ◌
  process_timestamp l clock clock' timestamp =
      let one_way_delay = current_timestamp clock -ℤ timestamp in
      if ltb_ℤ (pos 0) one_way_delay
      then update_base_delay (update_current_delay l one_way_delay) clock' one_way_delay
      else l

  -- The loop over the samples of an acknowledgement.
  unfoldable pub take_samples : Ledbat F → ℕ → List ℤ → Ledbat F
  unfolding update_current_delay update_base_delay
  take_samples l clock [] = l
  take_samples l clock (x ∷ s) =
      take_samples (update_current_delay (update_base_delay l clock x) x) clock s

  unfoldable pub on_pkt_sent : Ledbat F → Ledbat F
  unfolding ◌+ℤ◌
  on_pkt_sent l = record l { flight_size = to_int32 (l.flight_size +ℤ l.mss) }

  -- The time stamp of the packet is its argument.
  unfoldable pub on_pkt_received : Ledbat F → ℕ → ℕ → ℤ → Ledbat F
  unfolding process_timestamp
  on_pkt_received l clock clock' timestamp =
      if ltb_ℤ (pos 0) timestamp then process_timestamp l clock clock' timestamp else l

  unfoldable pub queuing_delay : Ledbat F → ℤ
  unfolding filter_current_delays get_min_base_delays ◌-ℤ◌
  queuing_delay l = filter_current_delays l.current_delays -ℤ get_min_base_delays l.base_delays

  unfoldable pub close : Ledbat F → Ledbat F
  close l = record l { current_delays = []; base_delays = [] }

-- The calls that the socket makes between `init` and `close`.
pub data Event : Type 0 where
  ack : ℕ → Event
  loss : Event
  timeout : ℕ → Event
  sent : Event
  received : ℕ → ℕ → ℤ → Event

module _ (d : Double) where
  open d use {F, of_int, add, sub, mul, div, lt}

  unfoldable pub init : Ledbat F → ℕ → Ledbat F
  unfolding ◌+ℤ◌ ◌-ℤ◌
  init l clock = record l {
    cwnd_size = of_int (l.mss +ℤ l.mss);
    in_slow_start = true;
    flight_size = pos 0;
    cto = pos 1000000;
    current_delays = [];
    base_delays = replicate base_history_size int_max;
    last_rollover = current_timestamp clock -ℤ pos 60000000;
  }

  -- `if (m_dCWndSize > 0 && m_iRTT > 0) m_dPktSndPeriod = double(m_iRTT) / m_dCWndSize;`
  unfoldable pub update_period : Ledbat F → Ledbat F
  update_period l =
      if lt (of_int (pos 0)) l.cwnd_size && ltb_ℤ (pos 0) l.rtt
      then record l { pkt_snd_period = div (of_int l.rtt) l.cwnd_size }
      else l

  unfoldable pub on_loss : Ledbat F → Ledbat F
  unfolding update_period ◌+ℤ◌
  on_loss l =
      let new_cwnd = fmax d (div l.cwnd_size (of_int (pos 2))) (of_int (l.mss +ℤ l.mss)) in
      update_period (record l { cwnd_size = fmin d l.cwnd_size new_cwnd; in_slow_start = false })

  unfoldable pub on_timeout : Ledbat F → ℕ → Ledbat F
  unfolding update_period ◌+ℤ◌
  on_timeout l clock = update_period (record l {
    cwnd_size = mul (of_int (pos 1)) (of_int l.mss);
    cto = to_int32 (l.cto +ℤ l.cto);
    in_slow_start = false;
    last_timeout = current_timestamp clock;
  })

  -- The window for a queuing delay, with its two limits.
  unfoldable pub next_cwnd : Ledbat F → ℤ → ℤ → F
  unfolding ◌+ℤ◌
  next_cwnd l queuing bytes =
      let off_target =
        div (sub (of_int (pos target_delay)) (of_int queuing)) (of_int (pos target_delay)) in
      let increment =
        div (mul (mul (mul (of_int (pos 1)) off_target) (of_int bytes)) (of_int l.mss))
          l.cwnd_size in
      let allowed = of_int (to_int32 (l.flight_size +ℤ l.mss)) in
      fmax d (fmin d (add l.cwnd_size increment) allowed) (of_int (l.mss +ℤ l.mss))

  unfoldable pub update_congestion_window : Ledbat F → ℕ → List ℤ → ℤ → Ledbat F
  unfolding take_samples next_cwnd queuing_delay update_cto update_period ◌-ℤ◌
  update_congestion_window l clock samples bytes =
      let l' = take_samples l clock samples in
      if ltb_ℤ (filter_current_delays l'.current_delays) (pos 0)
        || eqb_ℤ (get_min_base_delays l'.base_delays) int_max
      then l'
      else update_period (
          update_cto (record l' {
            cwnd_size = next_cwnd l' (max_ℤ (pos 0) (queuing_delay l')) bytes;
            flight_size = max_ℤ (pos 0) (to_int32 (l'.flight_size -ℤ bytes));
          }))

  -- The acknowledgement number is not used.
  unfoldable pub on_ack : Ledbat F → ℕ → Ledbat F
  unfolding update_congestion_window
  on_ack l clock =
      if length l.current_delays == 0
      then l
      else update_congestion_window l clock (back l.current_delays ∷ []) l.mss

  unfoldable pub step : Ledbat F → Event → Ledbat F
  unfolding on_ack on_loss on_timeout on_pkt_sent on_pkt_received
  step l (ack clock) = on_ack l clock
  step l loss = on_loss l
  step l (timeout clock) = on_timeout l clock
  step l sent = on_pkt_sent l
  step l (received clock clock' timestamp) = on_pkt_received l clock clock' timestamp

  unfoldable pub run : Ledbat F → List Event → Ledbat F
  unfolding step
  run l [] = l
  run l (e ∷ es) = run (step l e) es
