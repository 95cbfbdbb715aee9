-- ===== src/PktTimeWindow.antt =====
-- udt-sys/udt/window.h and window.cpp: CPktTimeWindow, the intervals between packets that arrive
-- and between the packets of a probing pair, in microseconds. An `int` is an integer that is
-- wrapped where a sum or a shift may leave its range. A reading of CTimer::getTime is an argument.
pub mod Rank
pub mod Recent
pub mod Speed
mod Tests
use ninewire.Base.{
  ℕ, zero, suc, ◌+◌, ◌-◌, ◌/◌, ◌^◌, Bool, ltb, ◌==◌, ◌&&◌, if◌then◌else◌, ℤ, pos, negsuc, sub_ℕ,
  ◌+ℤ◌, ◌-ℤ◌, ltb_ℤ, leb_ℤ, signed32, to_word, scale, shr_ℤ, List, [], ◌∷◌, get_or, set, take,
  replicate,
}

pub record PktTimeWindow : Type 0 where
  pub aw_size : ℕ
  pub pkt_window : List ℤ
  pub pkt_window_ptr : ℕ
  pub pw_size : ℕ
  pub probe_window : List ℤ
  pub probe_window_ptr : ℕ
  pub last_sent_time : ℤ
  pub min_pkt_snd_int : ℤ
  pub last_arr_time : ℕ
  pub curr_arr_time : ℕ
  pub probe_time : ℕ

-- The constructor.
unfoldable pub new : ℕ → ℕ → ℕ → PktTimeWindow
new asize psize now = record {
  aw_size = asize;
  pkt_window = replicate asize (pos 1000000);
  pkt_window_ptr = 0;
  pw_size = psize;
  probe_window = replicate psize (pos 1000);
  probe_window_ptr = 0;
  last_sent_time = pos 0;
  min_pkt_snd_int = pos 1000000;
  last_arr_time = now;
  curr_arr_time = 0;
  probe_time = 0;
}

-- A value as an `int`.
unfoldable pub to_int : ℤ → ℤ
unfolding to_word
to_int a = signed32 (to_word a)

-- `int(a - b)` for two times, which are uint64_t.
unfoldable pub interval : ℕ → ℕ → ℤ
interval a b = signed32 (a + 2 ^ 64 - b)

-- What std::nth_element puts at a place: the element that is there in ascending order.
abbrev pub put_in : ℤ → List ℤ → List ℤ
put_in a [] = a ∷ []
put_in a (x ∷ xs) = let rest = put_in a xs in if leb_ℤ a x then a ∷ x ∷ xs else x ∷ rest

abbrev pub ascending : List ℤ → List ℤ
ascending [] = []
ascending (x ∷ xs) = put_in x (ascending xs)

-- `median` of the source. The copy leaves the last slot out; place `size / 2` of a copy that is
-- shorter holds 0.
unfoldable pub middle : List ℤ → ℕ → ℤ
middle window size = get_or (ascending (take (size - 1) window)) (size / 2) (pos 0)

unfoldable pub upper : ℤ → ℤ
unfolding to_int scale
upper m = to_int (scale 8 m)

unfoldable pub lower : ℤ → ℤ
unfolding shr_ℤ
lower m = shr_ℤ m 3

-- `count` and `sum` of the loop for median filtering.
unfoldable pub gather : ℤ → ℤ → ℕ → ℤ → List ℤ → ℕ × ℤ
unfolding to_int ◌+ℤ◌
gather lo hi count sum [] = (count, sum)
gather lo hi count sum (x ∷ xs) =
    let inside = ltb_ℤ x hi && ltb_ℤ lo x in
    gather lo hi (if inside then count + 1 else count) (if inside then to_int (sum +ℤ x) else sum)
      xs

-- `sum / count`, which rounds towards 0
unfoldable pub quotient : ℤ → ℕ → ℤ
quotient (pos n) count = pos (n / count)
quotient (negsuc n) count = sub_ℕ 0 (suc n / count)

-- `(int)ceil(1000000.0 / q)`; the quotient by 0 does not fit an `int`, and is not asked for.
unfoldable pub per_second : ℤ → ℤ
per_second (pos zero) = pos 0
per_second (pos (suc n)) = pos ((1000000 + n) / suc n)
per_second (negsuc n) = sub_ℕ 0 (1000000 / suc n)

unfoldable pub get_pkt_rcv_speed : PktTimeWindow → ℤ
unfolding middle upper lower gather quotient per_second
get_pkt_rcv_speed w =
    let m = middle w.pkt_window w.aw_size in
    let r = gather (lower m) (upper m) 0 (pos 0) w.pkt_window in
    if ltb (w.aw_size / 2) r.0 then per_second (quotient r.1 r.0) else pos 0

-- `rate sum count` stands for `(int)ceil(1000000.0 / (double(sum) / double(count)))`.
unfoldable pub get_bandwidth : (ℤ → ℕ → ℤ) → PktTimeWindow → ℤ
unfolding middle upper lower gather
get_bandwidth rate w =
    let m = middle w.probe_window w.pw_size in
    let r = gather (lower m) (upper m) 1 m w.probe_window in rate r.1 r.0

unfoldable pub on_pkt_sent : PktTimeWindow → ℤ → PktTimeWindow
unfolding ◌-ℤ◌ to_int
on_pkt_sent w currtime =
    let gap = to_int (currtime -ℤ w.last_sent_time) in
    record w {
      min_pkt_snd_int =
          if ltb_ℤ gap w.min_pkt_snd_int && ltb_ℤ (pos 0) gap then gap else w.min_pkt_snd_int;
      last_sent_time = currtime;
    }

-- The place behind `ptr` in a circle of `size`.
abbrev pub behind : ℕ → ℕ → ℕ
behind ptr size = if ptr + 1 == size then 0 else ptr + 1

unfoldable pub on_pkt_arrival : PktTimeWindow → ℕ → PktTimeWindow
unfolding interval
on_pkt_arrival w now = record w {
  curr_arr_time = now;
  pkt_window = set w.pkt_window w.pkt_window_ptr (interval now w.last_arr_time);
  pkt_window_ptr = behind w.pkt_window_ptr w.aw_size;
  last_arr_time = now;
}

unfoldable pub probe1_arrival : PktTimeWindow → ℕ → PktTimeWindow
probe1_arrival w now = record w { probe_time = now }

unfoldable pub probe2_arrival : PktTimeWindow → ℕ → PktTimeWindow
unfolding interval
probe2_arrival w now = record w {
  curr_arr_time = now;
  probe_window = set w.probe_window w.probe_window_ptr (interval now w.probe_time);
  probe_window_ptr = behind w.probe_window_ptr w.pw_size;
}
