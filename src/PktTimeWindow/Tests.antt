-- ===== src/PktTimeWindow/Tests.antt =====
-- Windows of four intervals.
use ninewire.Base.{ℕ, ◌≡◌, refl, arith, ℤ, pos, List, [], ◌∷◌, ◌++◌, drop}
use ninewire.PktTimeWindow.{
  PktTimeWindow, new, get_pkt_rcv_speed, on_pkt_arrival, probe2_arrival, interval,
}
use ninewire.PktTimeWindow.Recent.{from_oldest, IsValid, arrivals_are_recent}
use ninewire.PktTimeWindow.Speed.{Rated, get_pkt_rcv_speed_bounds}

abbrev small : PktTimeWindow
small = new 4 4 1000

small-IsValid : IsValid small
unfolding new
small-IsValid = record {
  arrivals = refl;
  arrivals_ptr = omega arith;
  probes = refl;
  probes_ptr = omega arith;
}

arrivals_are_recent_example :
    let a = on_pkt_arrival small 1500 in
    let b = probe2_arrival small 1500 in
    (from_oldest a.pkt_window a.pkt_window_ptr
      ≡ drop 1 (from_oldest small.pkt_window small.pkt_window_ptr) ++ pos 500 ∷ [])
    × (a.probe_window ≡ small.probe_window)
    × (a.last_arr_time ≡ 1500)
    × IsValid a
    × (from_oldest b.probe_window b.probe_window_ptr
        ≡ drop 1 (from_oldest small.probe_window small.probe_window_ptr) ++ pos 1500 ∷ [])
    × (b.pkt_window ≡ small.pkt_window)
    × IsValid b
unfolding new interval
arrivals_are_recent_example = arrivals_are_recent small 1500 small-IsValid

-- The same four intervals, starting at another slot: the median filter leaves the last slot out.
abbrev with_intervals : List ℤ → PktTimeWindow
with_intervals xs = record small { pkt_window = xs }

abbrev one_order : PktTimeWindow
one_order = with_intervals (pos 10 ∷ pos 10 ∷ pos 10 ∷ pos 100 ∷ [])

last_slot_counts_less :
    (get_pkt_rcv_speed one_order ≡ pos 100000)
    × (get_pkt_rcv_speed (with_intervals (pos 100 ∷ pos 10 ∷ pos 10 ∷ pos 10 ∷ [])) ≡ pos 0)
unfolding get_pkt_rcv_speed new
last_slot_counts_less = (refl, refl)

get_pkt_rcv_speed_bounds_example : (c : ℕ) × Rated one_order c
unfolding new
get_pkt_rcv_speed_bounds_example =
    get_pkt_rcv_speed_bounds one_order
      (omega arith, (omega arith, (omega arith, (omega arith, tt)))) (omega arith) refl
      (omega arith)
