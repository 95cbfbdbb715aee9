-- ===== src/Setup/Connect.antt =====
-- udt-sys/udt/core.cpp: the three functions called connect, and close.
use ninewire.Base.{
  ℕ, ◌+◌, ◌-◌, ◌*◌, ◌^◌, Bool, true, false, ◌==◌, not, ◌&&◌, ◌||◌, if◌then◌else◌, List, [], Option,
  none, some, ℤ, pos, minus_one, pos_part, signed32, to_word, scale, ltb_ℤ, eqb_ℤ,
}
use ninewire.Base.Results.{Result, ok, err, ◌>>=◌}
use ninewire.Connection.{Congestion, Udt}
use ninewire.Packet.{Packet, get_flag, get_type}
use ninewire.Packet.HandShake.{HandShake, content_size, words, deserialize}
use ninewire.Listen.{content}
use ninewire.RcvBuffer.{PacketUnit}
use ninewire.AckWindow
use ninewire.RcvBuffer
use ninewire.RcvLossList
use ninewire.SndBuffer
use ninewire.SndLossList
use ninewire.Setup.{
  Initial, Socket, register_connector, remove_connector, send_to, new_entry, connect_complete,
  writable, version, call, max_flight, set_sizes, start_sending, start_receiving,
}

-- What setting up a connection takes from elsewhere. `create` is CCCFactory::create with the
-- setters that follow (of the MSS, the largest window, the last number sent, the receiving rate, the
-- round-trip time and the bandwidth) and `init`; `paced` is the bound of CCUpdate for m_llMaxBW;
-- `times` is a new time window.
pub record Factory : Type 1 where
  pub k : Congestion
  pub W : Type 0
  pub create : ℤ → ℤ → ℤ → ℤ → ℤ → ℤ → k.C
  pub paced : ℤ → ℤ → Option ℕ
  pub times : W
  pub units : List PacketUnit
  pub unit_count : ℤ

-- What `connect(response)` comes to: a result, or std::terminate, as it is declared `throw ()`.
pub data Outcome (A : Type 0) : Type 0 where
  returned : ℤ → A → Outcome A
  terminated : Outcome A

-- The handshake written into `reqdata`, which is left as it is if it is too short, and the length.
unfoldable pub written : HandShake → List ℕ → ℤ → List ℕ × ℤ
unfolding words
written hs scratch size =
    if ltb_ℤ size (pos content_size) then (scratch, size) else (words hs, pos content_size)

-- With m_iRTT and m_iBandwidth of the entry that the cache has for the peer, if it has one.
unfoldable pub from_cache : Option (ℤ × ℤ) → Initial → Initial
from_cache none i = i
from_cache (some (rtt, bandwidth)) i = record i { rtt = rtt; bandwidth = bandwidth }

module _ (f : Factory) where
  open f use {k, W}

  -- The buffers, the congestion control and the fields that they give the connection.
  unfoldable pub build : Socket k.C W → Initial → Udt k.C W
  unfolding AckWindow.new RcvBuffer.new RcvLossList.new SndBuffer.new SndLossList.new
  build s i =
      let cc =
        f.create s.mss s.flow_window_size s.snd_curr_seq_no i.delivery_rate i.rtt i.bandwidth in
      record {
        status = s.status;
        trace = i.trace;
        cc = cc;
        times = f.times;
        out = [];
        exp_count = i.exp_count;
        rtt = i.rtt;
        rtt_var = i.rtt_var;
        bandwidth = i.bandwidth;
        delivery_rate = i.delivery_rate;
        payload_size = pos_part s.payload_size;
        snd_buffer = SndBuffer.new 32 (pos_part s.payload_size);
        snd_loss_list = SndLossList.new (pos_part s.flow_window_size * 2);
        interval = k.pkt_interval cc i.cpu_frequency;
        min_interval = f.paced s.options.max_bw s.mss;
        time_diff = i.time_diff;
        target_time = i.target_time;
        flow_window_size = s.flow_window_size;
        congestion_window = k.window cc;
        snd_last_ack = s.snd_last_ack;
        snd_last_data_ack = s.snd_last_data_ack;
        snd_curr_seq_no = s.snd_curr_seq_no;
        last_dec_seq = s.last_dec_seq;
        snd_last_ack2 = s.snd_last_ack2;
        snd_last_ack2_time = s.snd_last_ack2_time;
        rcv_buffer = RcvBuffer.new f.units f.unit_count s.options.rcv_buf_size;
        rcv_loss_list = RcvLossList.new s.options.flight_flag_size;
        ack_window = AckWindow.new 1024;
        rcv_last_ack = s.rcv_last_ack;
        last_ack_time = i.last_ack_time;
        rcv_last_ack_ack = s.rcv_last_ack_ack;
        ack_seq_no = i.ack_seq_no;
        rcv_curr_seq_no = s.rcv_curr_seq_no;
        cpu_frequency = i.cpu_frequency;
        next_ack_time = i.next_ack_time;
        syn_int = i.syn_int;
        ack_int = i.ack_int;
        nak_int = i.nak_int;
        min_nak_int = i.min_nak_int;
        min_exp_int = i.min_exp_int;
        last_rsp_time = i.last_rsp_time;
        last_warning_time = 0;
        pkt_count = i.pkt_count;
        light_ack_count = i.light_ack_count;
      }

  -- Whether the sizes of two arrays are negative ints: 32 packets in CSndBuffer, and the nodes of
  -- CSndLossList, two for each packet of the window. A product that is out of range wraps.
  unfoldable pub too_large : Socket k.C W → Bool
  unfolding to_word scale
  too_large s =
      ltb_ℤ (signed32 (to_word (scale 32 s.payload_size))) (pos 0)
      || ltb_ℤ (signed32 (to_word (scale 2 s.flow_window_size))) (pos 0)

  -- "Prepare all data structures": arrays of a negative size throw.
  unfoldable pub prepare : Option (ℤ × ℤ) → Socket k.C W → Result (Socket k.C W)
  unfolding build from_cache too_large
  prepare cached s =
      let i = from_cache cached s.initial in
      if too_large s
      then err 3 2
      else ok (call new_entry (record s { initial = i; connected = true; conn = some (build s i) }))

  -- From the recording of the server's address on. `ip` is this address in the handshake, `isn` the
  -- random number.
  unfoldable pub send_request : List ℕ → ℤ → ℕ → List ℕ → Socket k.C W → Socket k.C W
  unfolding start_sending written
  send_request ip isn now scratch s =
      let o = s.options in
      let ttl = (if o.rendezvous then 30000000 else 3000000) + now in
      let request : HandShake = record {
        version = version;
        type = s.sock_type;
        isn = to_word isn;
        mss = to_word s.mss;
        flight_flag_size = max_flight o;
        req_type = if o.rendezvous then 0 else 1;
        id = s.id;
        cookie = s.conn_req.cookie;
        peer_ip = ip;
      } in
      let (content, len) = written request scratch s.payload_size in
      record (call (send_to 0 content len)
        (call (register_connector ttl) (start_sending isn now s))) {
          conn_req = request;
          last_req_time = now;
          connecting = true;
        }

  -- `connect(serv_addr)` up to the return of an asynchronous call.
  unfoldable pub connect : List ℕ → ℤ → ℕ → List ℕ → Socket k.C W → Result (Socket k.C W)
  unfolding send_request
  connect ip isn now scratch s =
      if not s.opened
      then err 5 0
      else if s.listening
      then err 5 2
      else if s.connecting || s.connected
      then err 5 2
      else ok (send_request ip isn now scratch s)

  unfoldable pub finish : Result (Socket k.C W) → Outcome (Socket k.C W)
  finish (ok c) =
      returned (pos 0) (call connect_complete (call writable (record c { connecting = false })))
  finish (err i j) = terminated

  -- "Re-configure according to the negotiated values."
  unfoldable pub agree : Socket k.C W → Socket k.C W
  unfolding set_sizes start_receiving
  agree s = set_sizes (
      start_receiving s.conn_res
        (record (call remove_connector s) { mss = signed32 s.conn_res.mss }))

  -- From POST_CONNECT on.
  unfoldable pub post_connect : Option (ℤ × ℤ) → Socket k.C W → Outcome (Socket k.C W)
  unfolding agree prepare finish
  post_connect cached s = finish (prepare cached (agree s))

  -- The handshake is sent again, as a request of type -1.
  unfoldable pub asked_again : Socket k.C W → ℕ → Socket k.C W
  asked_again s cookie = record s {
    conn_req = record s.conn_req { req_type = 2 ^ 32 - 1; cookie = cookie };
    last_req_time = 0;
  }

  abbrev pub ask_again : Socket k.C W → ℕ → Outcome (Socket k.C W)
  ask_again s cookie = returned (pos 1) (asked_again s cookie)

  -- The tests on a handshake that has been parsed into `m_ConnRes`.
  unfoldable pub negotiate : Option (ℤ × ℤ) → Socket k.C W → Outcome (Socket k.C W)
  unfolding post_connect asked_again
  negotiate cached s =
      if s.options.rendezvous
      then if s.conn_res.req_type == 1
        then returned minus_one s
        else if s.conn_req.req_type == 0 || s.conn_res.req_type == 0
        then ask_again s s.conn_req.cookie
        else post_connect cached s
      else if s.conn_res.req_type == 1
      then ask_again s s.conn_res.cookie
      else post_connect cached s

  -- A packet that shows that the peer is connected, where its handshake came before.
  unfoldable pub shows_connected : Packet → Socket k.C W → Bool
  unfolding get_flag get_type
  shows_connected p s =
      s.options.rendezvous && (get_flag p == 0 || get_type p == 1) && not (s.conn_res.type == 0)

  unfoldable pub is_handshake : Packet → Bool
  unfolding get_flag get_type
  is_handshake p = get_flag p == 1 && get_type p == 0

  -- `m_ConnRes.deserialize(…)`
  unfoldable pub read_response : Packet → Socket k.C W → Socket k.C W
  unfolding deserialize
  read_response p s = record s {
    conn_res = elim (deserialize (content p.payload) p.len) [ none ↦ s.conn_res | some hs ↦ hs ];
  }

  unfoldable pub connect_response : Packet → Option (ℤ × ℤ) → Socket k.C W → Outcome (Socket k.C W)
  unfolding shows_connected is_handshake read_response negotiate post_connect
  connect_response p cached s =
      if not s.connecting
      then returned minus_one s
      else if shows_connected p s
      then post_connect cached s
      else if is_handshake p
      then negotiate cached (read_response p s)
      else returned minus_one s

  -- The tests behind the loop of a synchronous `connect`; `timed_out` is the error of the loop.
  unfoldable pub connect_result : Bool → Socket k.C W → Result (Socket k.C W)
  connect_result timed_out s =
      if timed_out
      then err 1 1
      else if s.status.closing
      then err 1 0
      else if s.conn_res.req_type == 1002
      then err 1 2
      else if not s.options.rendezvous && not (eqb_ℤ s.isn (signed32 s.conn_res.isn))
      then err 1 4
      else ok s

  -- `connect(peer, hs)` at the server's end, with the handshake of the peer; the one that goes back
  -- is in `calls`, for a socket that `open_socket` left.
  unfoldable pub answered : Socket k.C W → List ℕ → HandShake → HandShake
  answered s ip hs = record hs {
    mss = if ltb_ℤ s.mss (signed32 hs.mss) then to_word s.mss else hs.mss;
    flight_flag_size = max_flight s.options;
    id = s.id;
    req_type = 2 ^ 32 - 1;
    peer_ip = ip;
  }

  -- What the two ends agree on, at the server's.
  unfoldable pub agree_peer : HandShake → ℕ → Socket k.C W → Socket k.C W
  unfolding start_sending start_receiving set_sizes
  agree_peer hs now s =
      let mss = if ltb_ℤ s.mss (signed32 hs.mss) then s.mss else signed32 hs.mss in
      set_sizes (start_sending (signed32 hs.isn) now (start_receiving hs (record s { mss = mss })))

  unfoldable pub connect_peer :
      List ℕ → HandShake → Option (ℤ × ℤ) → ℕ → Socket k.C W → Result (Socket k.C W)
  unfolding answered agree_peer prepare words
  connect_peer ip hs cached now s = prepare cached (agree_peer hs now s) >>= λ c.
      ok (call (send_to hs.id (words (answered s ip hs)) (pos content_size)) c)
