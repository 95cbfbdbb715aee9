-- ===== src/Connection/Measured.antt =====
-- CPktTimeWindow (udt-sys/udt/window.cpp) as the time window of a connection.
use ninewire.Base.{ℕ, ℤ}
use ninewire.PktTimeWindow.{
  PktTimeWindow, on_pkt_arrival, probe1_arrival, probe2_arrival, get_pkt_rcv_speed, get_bandwidth,
}
use ninewire.Connection.{TimeWindow}

-- `rate` is that of `get_bandwidth`.
abbrev pub measured : (ℤ → ℕ → ℤ) → TimeWindow
measured rate = record {
  W = PktTimeWindow;
  on_pkt_arrival = on_pkt_arrival;
  probe1_arrival = probe1_arrival;
  probe2_arrival = probe2_arrival;
  get_pkt_rcv_speed = get_pkt_rcv_speed;
  get_bandwidth = get_bandwidth rate;
}
