-- ===== src/Options.antt =====
-- udt-sys/udt/core.cpp: CUDT::setOpt and CUDT::getOpt, the options of a socket, with the values that
-- the constructor gives. Sizes are natural numbers, as the tests of setOpt leave them.
pub mod Bounds
mod Tests
use ninewire.Base.{
  ℕ, ◌+◌, ◌-◌, ◌*◌, ◌/◌, Bool, true, false, ltb, ◌||◌, if◌then◌else◌, ℤ, pos, pos_part, minus_one,
  max_ℤ, ltb_ℤ, leb_ℤ,
}
use ninewire.Base.Results.{Result, ok, err}

-- `IP_AND_UDP_OVERHEAD`
abbrev pub ip_and_udp_overhead : ℕ
ip_and_udp_overhead = 48

-- The options, and the flags of the connection that setOpt tests. `cc` names a factory.
pub record Options : Type 0 where
  pub mss : ℕ
  pub syn_connect : Bool
  pub cc : ℕ
  pub flight_flag_size : ℕ
  pub snd_buf_size : ℕ
  pub rcv_buf_size : ℕ
  pub udp_snd_buf_size : ℕ
  pub udp_rcv_buf_size : ℕ
  pub rendezvous : Bool
  pub reuse_addr : Bool
  pub max_bw : ℤ

pub record Flags : Type 0 where
  pub opened : Bool
  pub connecting : Bool
  pub connected : Bool
  pub broken : Bool
  pub closing : Bool

-- The default constructor; `cc` is the factory of CUDTCC.
abbrev pub default : ℕ → Options
default cc = record {
  mss = 1500;
  syn_connect = true;
  cc = cc;
  flight_flag_size = 25600;
  snd_buf_size = 8192;
  rcv_buf_size = 8192;
  udp_snd_buf_size = 65536;
  udp_rcv_buf_size = 8192 * 1500;
  rendezvous = false;
  reuse_addr = true;
  max_bw = minus_one;
}

-- The copy constructor: a connection that a listener accepts has its options.
abbrev pub inherit : Options → Options
inherit ancestor = record ancestor { reuse_addr = true }

-- UDTOpt, with the value for setOpt.
pub data Setting : Type 0 where
  udt_mss : ℤ → Setting
  udt_connsyn : Bool → Setting
  udt_cc : ℕ → Setting
  udt_fc : ℤ → Setting
  udt_sndbuf : ℤ → Setting
  udt_rcvbuf : ℤ → Setting
  udp_sndbuf : ℤ → Setting
  udp_rcvbuf : ℤ → Setting
  udt_rendezvous : Bool → Setting
  udt_reuseaddr : Bool → Setting
  udt_maxbw : ℤ → Setting
  unknown : Setting

abbrev at_most : ℕ → ℕ → ℕ
at_most limit n = if ltb limit n then limit else n

-- `m_iMSS - IP_AND_UDP_OVERHEAD`
abbrev pub packet_size : Options → ℕ
packet_size o = o.mss - ip_and_udp_overhead

-- `int(IP_AND_UDP_OVERHEAD + CHandShake::m_iContentSize)`
abbrev pub least_mss : ℕ
least_mss = 48 + 48

unfoldable pub set_mss : Options → ℤ → Options
set_mss o v = record o {
  mss = at_most o.udp_rcv_buf_size (at_most o.udp_snd_buf_size (pos_part v));
}

unfoldable pub set_fc : Options → ℤ → Options
set_fc o v = record o { flight_flag_size = if ltb_ℤ (pos 32) v then pos_part v else 32 }

unfoldable pub set_sndbuf : Options → ℤ → Options
set_sndbuf o v = record o { snd_buf_size = pos_part v / packet_size o }

unfoldable pub set_rcvbuf : Options → ℤ → Options
set_rcvbuf o v =
    let wanted = if ltb (packet_size o * 32) (pos_part v) then pos_part v / packet_size o else 32 in
    record o { rcv_buf_size = at_most o.flight_flag_size wanted }

-- The switch of setOpt.
unfoldable pub set_opt_checked : Flags → Options → Setting → Result Options
unfolding set_mss set_fc set_sndbuf set_rcvbuf
set_opt_checked f o (udt_mss v) =
    if f.opened then err 5 1 else if ltb_ℤ v (pos least_mss) then err 5 3 else ok (set_mss o v)
set_opt_checked f o (udt_connsyn b) = ok (record o { syn_connect = b })
set_opt_checked f o (udt_cc c) =
    if f.connecting || f.connected then err 5 1 else ok (record o { cc = c })
set_opt_checked f o (udt_fc v) =
    if f.connecting || f.connected
    then err 5 2
    else if ltb_ℤ v (pos 1)
    then err 5 3
    else ok (set_fc o v)
set_opt_checked f o (udt_sndbuf v) =
    if f.opened then err 5 1 else if leb_ℤ v (pos 0) then err 5 3 else ok (set_sndbuf o v)
set_opt_checked f o (udt_rcvbuf v) =
    if f.opened then err 5 1 else if leb_ℤ v (pos 0) then err 5 3 else ok (set_rcvbuf o v)
set_opt_checked f o (udp_sndbuf v) =
    if f.opened
    then err 5 1
    else ok (record o { udp_snd_buf_size = pos_part (max_ℤ v (pos o.mss)) })
set_opt_checked f o (udp_rcvbuf v) =
    if f.opened
    then err 5 1
    else ok (record o { udp_rcv_buf_size = pos_part (max_ℤ v (pos o.mss)) })
set_opt_checked f o (udt_rendezvous b) =
    if f.connecting || f.connected then err 5 1 else ok (record o { rendezvous = b })
set_opt_checked f o (udt_reuseaddr b) =
    if f.opened then err 5 1 else ok (record o { reuse_addr = b })
set_opt_checked f o (udt_maxbw v) = ok (record o { max_bw = v })
set_opt_checked f o unknown = err 5 0

unfoldable pub set_opt : Flags → Options → Setting → Result Options
unfolding set_opt_checked
set_opt f o s = if f.broken || f.closing then err 2 1 else set_opt_checked f o s

-- The options that getOpt reads from the configuration.
pub data Name : Type 0 where
  mss connsyn fc sndbuf rcvbuf udp_snd udp_rcv rdv reuse maxbw : Name

pub data Value : Type 0 where
  number : ℤ → Value
  flag : Bool → Value

unfoldable pub get_opt : Options → Name → Value
get_opt o mss = number (pos o.mss)
get_opt o connsyn = flag o.syn_connect
get_opt o fc = number (pos o.flight_flag_size)
get_opt o sndbuf = number (pos (o.snd_buf_size * packet_size o))
get_opt o rcvbuf = number (pos (o.rcv_buf_size * packet_size o))
get_opt o udp_snd = number (pos o.udp_snd_buf_size)
get_opt o udp_rcv = number (pos o.udp_rcv_buf_size)
get_opt o rdv = flag o.rendezvous
get_opt o reuse = flag o.reuse_addr
get_opt o maxbw = number o.max_bw
