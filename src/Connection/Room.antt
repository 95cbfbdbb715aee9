-- ===== src/Connection/Room.antt =====
-- udt-sys/udt/core.cpp: which messages CUDT::sendmsg takes, and what CUDT::recvmsg still gives when
-- the connection is broken.
use ninewire.RcvBuffer.{RcvBuffer, PacketUnit}
use ninewire.RcvBuffer.Read.{read_from, read_msg, copied, bytes_of}
use ninewire.RcvBuffer.{unit_at, flag_slot, release, next_pos}
use ninewire.RcvBuffer.Read.{scan_msg, get_head}
use ninewire.Base.{
  length-take, length-append, zero, suc, Option, none, some, if_chooses, ◌-ℤ◌, ℕ, ◌+◌, ◌-◌, ◌%◌,
  ◌≤◌, arith, Bool, ◌==◌, not, ◌||◌, if◌then◌else◌, List, [], ◌++◌, length, ℤ, pos, pos_part, ◌-ℤ◌,
  leb_ℤ,
}
use ninewire.Base.Results.{Result, ok, err}
use ninewire.Connection.{Udt}
use ninewire.Connection.Messages.{recvmsg}

copied_fits : (k : Option PacketUnit) (rs : ℕ) → length (copied k rs) ≤ rs
copied_fits none rs = ground arith
copied_fits (some k) rs = omega (arith, length-take rs (bytes_of k.packet.payload k.packet.len))

read_from_fits :
    (f : ℕ) (b : RcvBuffer) (p stop rs : ℕ) (passack : Bool)
    → length (read_from f b p stop rs passack).1 ≤ rs
unfolding read_from
read_from_fits zero b p stop rs passack = ground arith
read_from_fits (suc f) b p stop rs passack =
    let bytes = copied (unit_at b p) rs in
    let b' = if passack then flag_slot b p 2 else release b p in
    let rest = read_from f b' (next_pos b p) stop (rs - length bytes) passack in
    if_chooses (λ (r : RcvBuffer × List ℕ). length r.1 ≤ rs) (p == stop) {x = (b, [])}
      {y = (rest.0, bytes ++ rest.1)} (λ e. ground arith)
      λ e. omega (
        arith,
        length-append bytes rest.1,
        copied_fits (unit_at b p) rs,
        read_from_fits f b' (next_pos b p) stop (rs - length bytes) passack,
      )

read_msg_fits : (b : RcvBuffer) (len : ℕ) → length (read_msg b len).1 ≤ len
unfolding read_msg
read_msg_fits b len =
    if_chooses (λ (r : RcvBuffer × List ℕ). length r.1 ≤ len) (not (scan_msg b).1.found)
      (λ e. ground arith)
      (λ e.
        read_from_fits b.size (scan_msg b).0 (get_head (scan_msg b).1.head)
          (((scan_msg b).1.tail + 1) % b.size) len (scan_msg b).1.passack)

module _ {C W : Type 0} where
  -- The bytes that the program gets.
  abbrev pub received : Result (ℤ × List ℕ × Udt C W) → List ℕ
  received (ok (res, bytes, u)) = bytes
  received (err i j) = []

  -- The bytes that `recvmsg` gives fit into the program's buffer, whatever has come from the network.
  pub recvmsg_fits :
      (connected : Bool) (u : Udt C W) (len : ℤ)
      → length (received (recvmsg connected u len)) ≤ pos_part len
  unfolding recvmsg
  recvmsg_fits connected u len =
      let Fits = λ (r : Result (ℤ × List ℕ × Udt C W)). length (received r) ≤ pos_part len in
      let fits = read_msg_fits u.rcv_buffer (pos_part len) in
      if_chooses Fits (not connected) (λ c. ground arith)
        λ c.
          if_chooses Fits (leb_ℤ len (pos 0)) (λ z. ground arith)
            λ z.
              if_chooses Fits (u.status.broken || u.status.closing)
                (λ b.
                  if_chooses Fits (length (read_msg u.rcv_buffer (pos_part len)).1 == 0)
                    (λ n. ground arith) (λ n. fits))
                (λ b.
                  if_chooses Fits (length (read_msg u.rcv_buffer (pos_part len)).1 == 0)
                    (λ n. ground arith) (λ n. fits))
