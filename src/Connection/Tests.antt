-- ===== src/Connection/Tests.antt =====
-- A connection on concrete data: congestion control with a fixed window of 16 packets, and the
-- windows of CPktTimeWindow.
use ninewire.Base.{
  pos_part, to_word, ℕ, ◌*◌, ◌^◌, ◌+◌, ◌≡◌, ◌<◌, ◌⊎◌, refl, arith, true, false, List, [], ◌∷◌, ◌++◌,
  pos, minus_one, none, ◌<ℤ◌,
}
use ninewire.AckWindow
use ninewire.Packet.{null}
use ninewire.RcvBuffer.{RcvBuffer, PacketUnit, no_unit}
use ninewire.RcvBuffer
use ninewire.RcvLossList
use ninewire.SndBuffer
use ninewire.SndBuffer.{Block, add_buffer}
use ninewire.SeqNo.{seqcmp, incseq}
use ninewire.RcvLossList.Spans.{Holds, add}
use ninewire.RcvLossList.Empty.{new-IsEmpty, insert_first_refines}
use ninewire.SndLossList
use ninewire.Connection.{Congestion, TimeWindow, Udt, CtrlPacket, send}
use ninewire.Connection.Acks.{SameData, Freed, process_ack_safe}
use ninewire.Connection.Broken.{Event, control, departure, timers, run, run-Later}
use ninewire.Connection.Data.{packed, pack_data, process_data}
use ninewire.Connection.Flow.{Again, Fresh, pack_data_safe}
use ninewire.Connection.Flags.{Later}
use ninewire.Connection.Gap.{process_data_records_gap}
use ninewire.Connection.Timers.{next_exp_time, check_expiration}
use ninewire.PktTimeWindow
use ninewire.PktTimeWindow.{PktTimeWindow, quotient}
use ninewire.Connection.Measured.{measured}
use ninewire.Connection.Silence.{Silent, keep_checking, silence_breaks}
use ninewire.Connection.Receive.{process_ack}

abbrev fixed : Congestion
fixed = record {
  C = Unit;
  set_rtt = λ c x. c;
  set_rcv_rate = λ c x. c;
  set_bandwidth = λ c x. c;
  set_snd_curr_seq_no = λ c x. c;
  on_ack = λ c x y. c;
  on_loss = λ c x y. c;
  on_timeout = λ c x. c;
  on_pkt_sent = λ c. c;
  on_pkt_received = λ c x y. c;
  process_custom_msg = λ c x. c;
  pkt_interval = λ c f. f;
  window = λ c. pos 16;
  ack_interval = λ c. pos 0;
  ack_period = λ c. pos 0;
  rto = λ c. none;
}

-- The bandwidth without the rounding of `double`.
abbrev windows : TimeWindow
windows = measured (λ sum count. quotient (pos (1000000 * count)) (pos_part sum))

-- A connection whose first number is 100 in both directions, at 1 tick in a microsecond.
abbrev pub fresh : Udt Unit PktTimeWindow
fresh = record {
  status = record {
    closing = false;
    shutdown = false;
    broken = false;
    peer_health = true;
    broken_counter = 0;
  };
  trace = record {
    sent_total = 0;
    recv_total = 0;
    snd_loss_total = pos 0;
    rcv_loss_total = pos 0;
    retrans_total = 0;
    sent_ack_total = 0;
    recv_ack_total = 0;
    sent_nak_total = 0;
    recv_nak_total = 0;
    snd_duration_total = 0;
    snd_duration_counter = 0;
  };
  cc = tt;
  times = PktTimeWindow.new 16 64 0;
  out = [];
  exp_count = 1;
  rtt = pos 100000;
  rtt_var = pos 50000;
  bandwidth = pos 1;
  delivery_rate = pos 16;
  payload_size = 4;
  snd_buffer = SndBuffer.new 4 4;
  snd_loss_list = SndLossList.new 16;
  interval = 1;
  min_interval = none;
  time_diff = 0;
  target_time = 0;
  flow_window_size = pos 16;
  congestion_window = pos 16;
  snd_last_ack = pos 100;
  snd_last_data_ack = pos 100;
  snd_curr_seq_no = pos 99;
  last_dec_seq = pos 99;
  snd_last_ack2 = pos 100;
  snd_last_ack2_time = 0;
  rcv_buffer = RcvBuffer.new [] (pos 0) 16;
  rcv_loss_list = RcvLossList.new 16;
  ack_window = AckWindow.new 16;
  rcv_last_ack = pos 100;
  last_ack_time = 0;
  rcv_last_ack_ack = pos 100;
  ack_seq_no = pos 0;
  rcv_curr_seq_no = pos 99;
  cpu_frequency = 1;
  next_ack_time = 10000;
  syn_int = 10000;
  ack_int = 10000;
  nak_int = 300000;
  min_nak_int = 300000;
  min_exp_int = 300000;
  last_rsp_time = 0;
  last_warning_time = 0;
  pkt_count = 0;
  light_ack_count = 1;
}

-- Two packets wait to be sent.
abbrev loaded : Udt Unit PktTimeWindow
loaded = record fresh {
  snd_buffer = add_buffer (SndBuffer.new 4 4) (1 ∷ 2 ∷ 3 ∷ 4 ∷ 5 ∷ 6 ∷ []) 6 minus_one false 0;
}

abbrev first_block : Block
first_block = record {
  payload = 1 ∷ 2 ∷ 3 ∷ 4 ∷ [];
  msg_no = 0x8000_0001;
  origin_time = 0;
  ttl = minus_one;
}

first_is_sent : (pack_data fixed loaded 5 5).1 ≡ packed (pos 100) first_block 6
unfolding pack_data SndLossList.new SndBuffer.new add_buffer
first_is_sent = refl

pack_data_safe_example :
    let u' = (pack_data fixed loaded 5 5).0 in
    Again fixed loaded (pos 100) u' ⊎ Fresh fixed loaded (pos 100) u'
pack_data_safe_example = pack_data_safe fixed (pos 100) first_block 6 loaded 5 5 first_is_sent

-- An acknowledgement of both packets, when they are sent.
abbrev both_sent : Udt Unit PktTimeWindow
both_sent = (pack_data fixed (pack_data fixed loaded 5 5).0 6 6).0

abbrev both_arrived : CtrlPacket
both_arrived = record {
  packet = record {
    word0 = 2 ^ 31 + 2 * 2 ^ 16;
    word1 = 1;
    word2 = 0;
    word3 = 0;
    payload = null;
    len = 16;
  };
  words = 102 ∷ 50 ∷ 10 ∷ 8 ∷ [];
}

the_ack_counts :
    ((process_ack fixed both_sent both_arrived 9 9).snd_last_data_ack ≡ pos 102)
    × ((process_ack fixed both_sent both_arrived 9 9).flow_window_size ≡ pos 8)
unfolding process_ack pack_data SndLossList.new SndBuffer.new add_buffer
the_ack_counts = (refl, refl)

process_ack_safe_example :
    let u' = process_ack fixed both_sent both_arrived 9 9 in
    (SameData both_sent u' ⊎ Freed both_sent (pos 102) u')
    × (false ≡ false
        → pos 0 <ℤ seqcmp (pos 102) (incseq both_sent.snd_curr_seq_no)
        → (u'.status.broken ≡ true)
          × (u'.flow_window_size ≡ both_sent.flow_window_size)
          × (u'.snd_last_ack ≡ both_sent.snd_last_ack))
process_ack_safe_example = process_ack_safe fixed both_sent both_arrived 9 9

-- A second shutdown packet comes, and a timer fires.
abbrev shutdown_packet : CtrlPacket
shutdown_packet = record {
  packet = record {
    word0 = 2 ^ 31 + 5 * 2 ^ 16;
    word1 = 0;
    word2 = 0;
    word3 = 0;
    payload = null;
    len = 4;
  };
  words = 0 ∷ [];
}

abbrev some_events : List Event
some_events = control shutdown_packet 7 7 ∷ departure 8 8 ∷ timers 9 9 9 ∷ []

run-Later_example :
    Later loaded.status (run fixed windows (λ n. n) false [] loaded some_events).status
run-Later_example = run-Later fixed windows (λ n. n) false [] loaded some_events

-- The packets 100 and 101 are missing, and 105 comes behind 102.
abbrev with_gap : Udt Unit PktTimeWindow
with_gap = record fresh {
  rcv_loss_list = RcvLossList.insert (RcvLossList.new 16) (pos 100) (pos 101);
  rcv_curr_seq_no = pos 102;
  rcv_buffer =
      RcvBuffer.new
        (record {
          packet = record { word0 = 105; word1 = 0; word2 = 0; word3 = 0; payload = null; len = 4 };
          flag = 0;
        }
          ∷ [])
        (pos 0) 16;
}

with_gap-Holds : Holds 12 with_gap.rcv_loss_list ((100, 101) ∷ [])
unfolding RcvLossList.new
with_gap-Holds =
    insert_first_refines (RcvLossList.new 16) (new-IsEmpty 16 (omega arith) (omega arith)) 100 101
      (omega arith) (omega arith)

it_is_stored : (process_data fixed windows with_gap 0 7 7 7).1 ≡ true
unfolding process_data RcvBuffer.new RcvLossList.new
it_is_stored = refl

size_lap : 103 < 100 + with_gap.rcv_loss_list.size
unfolding RcvLossList.insert RcvLossList.new
size_lap = omega arith

process_data_records_gap_example :
    let u' = (process_data fixed windows with_gap 0 7 7 7).0 in
    Holds 12 u'.rcv_loss_list (add ((100, 101) ∷ []) (103, 104))
    × (u'.rcv_curr_seq_no ≡ pos 105)
    × (u'.out ≡ with_gap.out ++ send 3 none ((103 + 2 ^ 31) ∷ 104 ∷ []) ∷ [])
unfolding RcvBuffer.new to_word
process_data_records_gap_example =
    process_data_records_gap fixed windows 102 104 (omega arith) (omega arith) 12 100 101 []
      with_gap 0 7 7 7 with_gap-Holds (omega arith) size_lap refl refl it_is_stored

-- The 16th and the 17th expiration.
abbrev silent_times : List (ℕ × ℕ)
silent_times = (5_000_000, 0) ∷ (11_000_000, 0) ∷ []

abbrev waiting : Udt Unit PktTimeWindow
waiting = record fresh { exp_count = 16 }

waiting-Silent : Silent fixed waiting silent_times
unfolding next_exp_time check_expiration SndBuffer.new SndLossList.new
waiting-Silent =
    ((omega arith, omega arith), omega arith, ((omega arith, omega arith), omega arith, tt))

silence_breaks_example : (keep_checking fixed waiting silent_times).status.broken ≡ true
silence_breaks_example =
    silence_breaks fixed (λ c. refl) silent_times waiting (omega arith) waiting-Silent (omega arith)
      (omega arith)
