-- ===== src/Setup.antt =====
-- udt-sys/udt/core.cpp: how a CUDT comes into being and ends: open, listen(), both halves of
-- connect as a client, connect as the server's end, and close. Once connected, `conn` is the
-- connection that these set up, of Connection. Readings of clocks, addresses, the random number and
-- memory that is not initialised are arguments; what the calls do outside of the object are the
-- entries of `calls`.
pub mod Connect
pub mod Close
pub mod Roles
pub mod Cycle
pub mod Negotiate
pub mod Feeds
pub mod Responses
pub mod Tests
use ninewire.Base.{
  ℕ, ◌+◌, ◌-◌, ◌*◌, ◌/◌, ◌%◌, ◌^◌, Bool, true, false, ltb, ◌==◌, not, ◌&&◌, ◌||◌, if◌then◌else◌,
  List, [], ◌∷◌, ◌++◌, Option, none, some, ℤ, pos, negsuc, minus_one, pos_part, signed32, to_word,
  ◌-ℤ◌, ltb_ℤ,
}
use ninewire.Base.Results.{Result, ok, err}
use ninewire.Connection.{Congestion, Udt, Status, Trace, syn_interval}
use ninewire.Options.{Options, ip_and_udp_overhead}
use ninewire.Packet.HandShake.{HandShake, serialize}

-- What `open` sets for the connection to come.
pub record Initial : Type 0 where
  pub exp_count : ℕ
  pub bandwidth : ℤ
  pub delivery_rate : ℤ
  pub ack_seq_no : ℤ
  pub last_ack_time : ℕ
  pub trace : Trace
  pub rtt : ℤ
  pub rtt_var : ℤ
  pub cpu_frequency : ℕ
  pub syn_int : ℕ
  pub min_nak_int : ℕ
  pub min_exp_int : ℕ
  pub ack_int : ℕ
  pub nak_int : ℕ
  pub last_rsp_time : ℕ
  pub next_ack_time : ℕ
  pub pkt_count : ℕ
  pub light_ack_count : ℕ
  pub target_time : ℕ
  pub time_diff : ℕ

pub data Call : Type 0 where
  set_listener : Call
  remove_listener : Call
  -- the time at which the attempt ends
  register_connector : ℕ → Call
  remove_connector : Call
  -- the field m_iID, the words of the content and its length
  send_to : ℕ → List ℕ → ℤ → Call
  new_entry : Call
  connect_complete : Call
  no_events : Call
  writable : Call
  both_events : Call
  remove_usock : Call
  leave_snd_list : Call
  release_synch : Call
  shut_down : Call
  cc_close : Call
  -- the round-trip time and the bandwidth for the cache
  update_cache : ℤ → ℤ → Call

pub record Socket (C W : Type 0) : Type 0 where
  pub options : Options
  pub id : ℕ
  pub sock_type : ℕ
  pub opened : Bool
  pub listening : Bool
  pub connecting : Bool
  pub connected : Bool
  pub status : Status
  pub initial : Initial
  pub mss : ℤ
  pub pkt_size : ℤ
  pub payload_size : ℤ
  pub flow_window_size : ℤ
  pub isn : ℤ
  pub peer_isn : ℤ
  pub snd_last_ack : ℤ
  pub snd_last_data_ack : ℤ
  pub snd_curr_seq_no : ℤ
  pub last_dec_seq : ℤ
  pub snd_last_ack2 : ℤ
  pub snd_last_ack2_time : ℕ
  pub rcv_last_ack : ℤ
  pub rcv_last_ack_ack : ℤ
  pub rcv_curr_seq_no : ℤ
  pub peer_id : ℕ
  pub self_ip : List ℕ
  pub conn_req : HandShake
  pub conn_res : HandShake
  pub last_req_time : ℕ
  pub conn : Option (Udt C W)
  pub calls : List Call

-- `m_iVersion`, and `CPacket::m_iPktHdrSize`
abbrev pub version : ℕ
version = 4

abbrev pub pkt_hdr_size : ℕ
pkt_hdr_size = 16

unfoldable pub no_trace : Trace
no_trace = record {
  sent_total = 0;
  recv_total = 0;
  snd_loss_total = pos 0;
  rcv_loss_total = pos 0;
  retrans_total = 0;
  sent_ack_total = 0;
  recv_ack_total = 0;
  sent_nak_total = 0;
  recv_nak_total = 0;
  snd_duration_total = 0;
  snd_duration_counter = 0;
}

unfoldable pub initial_at : ℕ → ℕ → Initial
unfolding no_trace
initial_at frequency clock = record {
  exp_count = 1;
  bandwidth = pos 1;
  delivery_rate = pos 16;
  ack_seq_no = pos 0;
  last_ack_time = 0;
  trace = no_trace;
  rtt = pos (10 * syn_interval);
  rtt_var = pos (10 * syn_interval / 2);
  cpu_frequency = frequency;
  syn_int = syn_interval * frequency;
  min_nak_int = 300000 * frequency;
  min_exp_int = 300000 * frequency;
  ack_int = syn_interval * frequency;
  nak_int = 300000 * frequency;
  last_rsp_time = clock;
  next_ack_time = clock + syn_interval * frequency;
  pkt_count = 0;
  light_ack_count = 1;
  target_time = 0;
  time_diff = 0;
}

-- The smaller of the receiver's buffer and window, which the peer may have in flight.
unfoldable pub max_flight : Options → ℕ
max_flight o = if ltb o.rcv_buf_size o.flight_flag_size then o.rcv_buf_size else o.flight_flag_size

-- The constructor of CHandShake.
abbrev pub no_handshake : HandShake
no_handshake = record {
  version = 0;
  type = 0;
  isn = 0;
  mss = 0;
  flight_flag_size = 0;
  req_type = 0;
  id = 0;
  cookie = 0;
  peer_ip = 0 ∷ 0 ∷ 0 ∷ 0 ∷ [];
}

module _ {C W : Type 0} where
  -- The constructor, with the identifier and the type that CUDTUnited gives; a field that is not
  -- initialised before it is read is 0 here.
  unfoldable pub new : Options → ℕ → ℕ → Socket C W
  unfolding initial_at
  new o id sock_type = record {
    options = o;
    id = id;
    sock_type = sock_type;
    opened = false;
    listening = false;
    connecting = false;
    connected = false;
    status = record {
      closing = false;
      shutdown = false;
      broken = false;
      peer_health = true;
      broken_counter = 0;
    };
    initial = initial_at 0 0;
    mss = pos o.mss;
    pkt_size = pos 0;
    payload_size = pos 0;
    flow_window_size = pos 0;
    isn = pos 0;
    peer_isn = pos 0;
    snd_last_ack = pos 0;
    snd_last_data_ack = pos 0;
    snd_curr_seq_no = pos 0;
    last_dec_seq = pos 0;
    snd_last_ack2 = pos 0;
    snd_last_ack2_time = 0;
    rcv_last_ack = pos 0;
    rcv_last_ack_ack = pos 0;
    rcv_curr_seq_no = pos 0;
    peer_id = 0;
    self_ip = [];
    conn_req = no_handshake;
    conn_res = no_handshake;
    last_req_time = 0;
    conn = none;
    calls = [];
  }

  -- `m_iPktSize` and `m_iPayloadSize` from `m_iMSS`
  unfoldable pub set_sizes : Socket C W → Socket C W
  unfolding ◌-ℤ◌
  set_sizes s = record s {
    pkt_size = s.mss -ℤ pos ip_and_udp_overhead;
    payload_size = s.mss -ℤ pos ip_and_udp_overhead -ℤ pos pkt_hdr_size;
  }

  abbrev pub call : Call → Socket C W → Socket C W
  call c s = record s { calls = s.calls ++ c ∷ [] }

  unfoldable pub open_socket : ℕ → ℕ → Socket C W → Socket C W
  unfolding initial_at set_sizes
  open_socket frequency clock s =
      let sized = set_sizes (record s { mss = pos s.options.mss }) in
      record sized { initial = initial_at frequency clock; opened = true }

  -- `listen()`; `taken` says that another socket listens on this port.
  unfoldable pub start_listening : Bool → Socket C W → Result (Socket C W)
  start_listening taken s =
      if not s.opened
      then err 5 0
      else if s.connecting || s.connected
      then err 5 2
      else if s.listening
      then ok s
      else if taken
      then err 5 11
      else ok (call no_events (call set_listener (record s { listening = true })))

  -- The fields of the sending direction from the initial sequence number.
  unfoldable pub start_sending : ℤ → ℕ → Socket C W → Socket C W
  unfolding ◌-ℤ◌
  start_sending isn now s = record s {
    isn = isn;
    last_dec_seq = isn -ℤ pos 1;
    snd_last_ack = isn;
    snd_last_data_ack = isn;
    snd_curr_seq_no = isn -ℤ pos 1;
    snd_last_ack2 = isn;
    snd_last_ack2_time = now;
  }

  -- The fields of the receiving direction from the peer's handshake.
  unfoldable pub start_receiving : HandShake → Socket C W → Socket C W
  unfolding ◌-ℤ◌
  start_receiving hs s = record s {
    flow_window_size = signed32 hs.flight_flag_size;
    peer_isn = signed32 hs.isn;
    rcv_last_ack = signed32 hs.isn;
    rcv_last_ack_ack = signed32 hs.isn;
    rcv_curr_seq_no = signed32 hs.isn -ℤ pos 1;
    peer_id = hs.id;
    self_ip = hs.peer_ip;
  }
