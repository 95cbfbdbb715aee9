-- ===== src/Connection.antt =====
-- udt-sys/udt/core.cpp and core.h: CUDT, one end of a connection, from the time that it is
-- connected. The fields are those that its handlers read and write; the buffers and loss lists are
-- the models of their classes. A reading of a clock is an argument: `clock` stands for
-- CTimer::rdtsc, `now` for CTimer::getTime. What a handler does outside of the object, sending a
-- control packet or waking another thread, is an entry of `out`.
pub mod Send
pub mod Receive
pub mod Loss
pub mod Data
pub mod Timers
pub mod Flags
pub mod Acks
pub mod Flow
pub mod Silence
pub mod Gap
pub mod Measured
pub mod Broken
pub mod Messages
pub mod Room
mod Tests
use ninewire.Base.{
  ℕ, ◌+◌, ◌-◌, ◌%◌, ◌/◌, ◌^◌, Bool, true, ltb, if◌then◌else◌, List, [], ◌∷◌, ◌++◌, get_or, Option,
  none, some, ℤ, pos, signed32, ◌-ℤ◌, ◌+ℤ◌, abs, scale, shr_ℤ,
}
use ninewire.AckWindow.{AckWindow}
use ninewire.Packet.{Packet}
use ninewire.RcvBuffer.{RcvBuffer}
use ninewire.RcvLossList.{RcvLossList}
use ninewire.SndBuffer.{SndBuffer}
use ninewire.SndLossList.{SndLossList}

-- The virtual class CCC of udt-sys/udt/ccc.h, as the connection uses it. `pkt_interval` is
-- `(uint64_t)(m_dPktSndPeriod * frequency)`, `window` is `(int)m_dCWndSize`, and `rto` is m_iRTO if
-- m_bUserDefinedRTO.
pub record Congestion : Type 1 where
  pub C : Type 0
  pub set_rtt : C → ℤ → C
  pub set_rcv_rate : C → ℤ → C
  pub set_bandwidth : C → ℤ → C
  pub set_snd_curr_seq_no : C → ℤ → C
  pub on_ack : C → ℕ → ℤ → C
  pub on_loss : C → List ℕ → ℕ → C
  pub on_timeout : C → ℕ → C
  pub on_pkt_sent : C → C
  pub on_pkt_received : C → ℕ → Packet → C
  pub process_custom_msg : C → List ℕ → C
  pub pkt_interval : C → ℕ → ℕ
  pub window : C → ℤ
  pub ack_interval : C → ℤ
  pub ack_period : C → ℤ
  pub rto : C → Option ℤ

-- CPktTimeWindow of udt-sys/udt/window.h, as the connection uses it.
pub record TimeWindow : Type 1 where
  pub W : Type 0
  pub on_pkt_arrival : W → ℕ → W
  pub probe1_arrival : W → ℕ → W
  pub probe2_arrival : W → ℕ → W
  pub get_pkt_rcv_speed : W → ℤ
  pub get_bandwidth : W → ℤ

pub data Effect : Type 0 where
  -- `sendCtrl` packs a packet of this type with this `lparam` and these words, and sends it.
  send : ℕ → Option ℤ → List ℕ → Effect
  -- `update_events` for UDT_EPOLL_OUT, UDT_EPOLL_IN or both
  writable : Effect
  readable : Effect
  both_events : Effect
  -- `m_pSndUList->update(this, reschedule)`
  update_snd_list : Bool → Effect
  release_synch : Effect

pub record Status : Type 0 where
  pub closing : Bool
  pub shutdown : Bool
  pub broken : Bool
  pub peer_health : Bool
  pub broken_counter : ℕ

pub record Trace : Type 0 where
  pub sent_total : ℕ
  pub recv_total : ℕ
  pub snd_loss_total : ℤ
  pub rcv_loss_total : ℤ
  pub retrans_total : ℕ
  pub sent_ack_total : ℕ
  pub recv_ack_total : ℕ
  pub sent_nak_total : ℕ
  pub recv_nak_total : ℕ
  pub snd_duration_total : ℕ
  pub snd_duration_counter : ℕ

-- `snd_…` and `rcv_…` are the two directions. `congestion_window` is `(int)m_dCongestionWindow`;
-- `min_interval` is the bound that CCUpdate computes from m_llMaxBW, if that is set.
pub record Udt (C W : Type 0) : Type 0 where
  pub status : Status
  pub trace : Trace
  pub cc : C
  pub times : W
  pub out : List Effect
  pub exp_count : ℕ
  pub rtt : ℤ
  pub rtt_var : ℤ
  pub bandwidth : ℤ
  pub delivery_rate : ℤ
  pub payload_size : ℕ
  pub snd_buffer : SndBuffer
  pub snd_loss_list : SndLossList
  pub interval : ℕ
  pub min_interval : Option ℕ
  pub time_diff : ℕ
  pub target_time : ℕ
  pub flow_window_size : ℤ
  pub congestion_window : ℤ
  pub snd_last_ack : ℤ
  pub snd_last_data_ack : ℤ
  pub snd_curr_seq_no : ℤ
  pub last_dec_seq : ℤ
  pub snd_last_ack2 : ℤ
  pub snd_last_ack2_time : ℕ
  pub rcv_buffer : RcvBuffer
  pub rcv_loss_list : RcvLossList
  pub ack_window : AckWindow
  pub rcv_last_ack : ℤ
  pub last_ack_time : ℕ
  pub rcv_last_ack_ack : ℤ
  pub ack_seq_no : ℤ
  pub rcv_curr_seq_no : ℤ
  pub cpu_frequency : ℕ
  pub next_ack_time : ℕ
  pub syn_int : ℕ
  pub ack_int : ℕ
  pub nak_int : ℕ
  pub min_nak_int : ℕ
  pub min_exp_int : ℕ
  pub last_rsp_time : ℕ
  pub last_warning_time : ℕ
  pub pkt_count : ℕ
  pub light_ack_count : ℕ

abbrev pub syn_interval : ℕ
syn_interval = 10000

abbrev pub self_clock_interval : ℕ
self_clock_interval = 64

-- A control packet as it comes in: the header, and the words in the unit's buffer, which is longer
-- than what the packet says is its length.
pub record CtrlPacket : Type 0 where
  pub packet : Packet
  pub words : List ℕ

-- `*((int32_t *)ctrlpkt.m_pcData + i)`
abbrev pub int_at : List ℕ → ℕ → ℤ
int_at words i = signed32 (get_or words i 0)

-- The moving averages of the round-trip time, and those of a rate.
unfoldable pub smooth_var : ℤ → ℤ → ℤ → ℤ
unfolding ◌+ℤ◌ ◌-ℤ◌ scale shr_ℤ
smooth_var var old sample = shr_ℤ (scale 3 var +ℤ pos (abs (sample -ℤ old))) 2

unfoldable pub smooth : ℤ → ℤ → ℤ
unfolding ◌+ℤ◌ scale shr_ℤ
smooth old sample = shr_ℤ (scale 7 old +ℤ sample) 3

module _ {C W : Type 0} where
  abbrev pub emit : Udt C W → Effect → Udt C W
  emit u e = record u { out = u.out ++ e ∷ [] }

  -- `m_bBroken = true; m_iBrokenCounter = 0;`
  unfoldable pub break_off : Udt C W → Udt C W
  break_off u = record u { status = record u.status { broken = true; broken_counter = 0 } }

module _ (k : Congestion) {W : Type 0} where
  -- CCUpdate
  unfoldable pub cc_update : Udt k.C W → Udt k.C W
  cc_update u =
      let interval = k.pkt_interval u.cc u.cpu_frequency in
      record u {
        interval = elim u.min_interval [
          | none ↦ interval
          | some m ↦ if ltb interval m then m else interval
        ];
        congestion_window = k.window u.cc;
      }
