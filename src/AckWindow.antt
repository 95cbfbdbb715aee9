-- ===== src/AckWindow.antt =====
-- udt-sys/udt/window.cpp: CACKWindow, the circular history of the acknowledgements that were sent.
-- `CTimer::getTime()` is the argument `now`; an out parameter is part of the result.
pub mod Records
pub mod Store
pub mod Acknowledge
mod Tests
use ninewire.Base.{
  ℕ, zero, suc, ◌+◌, ◌-◌, ◌%◌, ◌^◌, ℤ, pos, negsuc, minus_one, eqb_ℤ, ltb, leb, ◌==◌, if◌then◌else◌,
  Option, none, some, List, [], ◌∷◌, get_or, set, replicate,
}

-- The arrays `m_piACKSeqNo`, `m_piACK` and `m_pTimeStamp`, then the size and the two indices.
pub record AckWindow : Type 0 where
  pub ack_seq_no : List ℤ
  pub ack : List ℤ
  pub time_stamp : List ℕ
  pub size : ℕ
  pub head : ℕ
  pub tail : ℕ

-- The constructor; `make_unique` clears the arrays.
unfoldable pub new : ℕ → AckWindow
new size = record {
  ack_seq_no = set (replicate size (pos 0)) 0 minus_one;
  ack = replicate size (pos 0);
  time_stamp = replicate size 0;
  size = size;
  head = 0;
  tail = 0;
}

unfoldable pub store : AckWindow → ℕ → ℤ → ℤ → AckWindow
store w now seq data_ack = record {
  ack_seq_no = set w.ack_seq_no w.head seq;
  ack = set w.ack w.head data_ack;
  time_stamp = set w.time_stamp w.head now;
  size = w.size;
  head = (w.head + 1) % w.size;
  tail = if (w.head + 1) % w.size == w.tail then (w.tail + 1) % w.size else w.tail;
}

-- `int(CTimer::getTime() - stamp)`: the difference of two uint64_t, cut to 32 bits.
unfoldable pub rtt : ℕ → ℕ → ℤ
rtt now stamp =
    let d = (now + 2 ^ 64 - stamp) % 2 ^ 32 in
    if ltb d (2 ^ 31) then pos d else negsuc (2 ^ 32 - d - 1)

-- The loop `for (i = m_iTail; i < m_iHead; ++ i)`, over the rounds left; the index that it finds.
unfoldable pub scan_flat : AckWindow → ℤ → ℕ → ℕ → Option ℕ
scan_flat w seq zero i = none
scan_flat w seq (suc n) i =
    let rest = scan_flat w seq n (i + 1) in
    if eqb_ℤ seq (get_or w.ack_seq_no i (pos 0)) then some i else rest

-- The loop `for (j = m_iTail; j < m_iHead + m_iSize; ++ j)`, which reads at `j % m_iSize`.
unfoldable pub scan_wrapped : AckWindow → ℤ → ℕ → ℕ → Option ℕ
scan_wrapped w seq zero j = none
scan_wrapped w seq (suc n) j =
    let rest = scan_wrapped w seq n (j + 1) in
    if eqb_ℤ seq (get_or w.ack_seq_no (j % w.size) (pos 0)) then some (j % w.size) else rest

-- `m_iTail = m_iHead = 0; m_piACKSeqNo[0] = -1;`
unfoldable pub reset : AckWindow → AckWindow
reset w = record w { ack_seq_no = set w.ack_seq_no 0 minus_one; head = 0; tail = 0 }

-- What the loops do at the index that they found.
unfoldable pub take_flat : AckWindow → ℕ → Option ℕ → ℤ × Option ℤ × AckWindow
unfolding reset rtt
take_flat w now none = (minus_one, none, w)
take_flat w now (some i) = (
  rtt now (get_or w.time_stamp i 0),
  some (get_or w.ack i (pos 0)),
  if i + 1 == w.head then reset w else record w { tail = (i + 1) % w.size },
)

unfoldable pub take_wrapped : AckWindow → ℕ → Option ℕ → ℤ × Option ℤ × AckWindow
unfolding reset rtt
take_wrapped w now none = (minus_one, none, w)
take_wrapped w now (some j) = (
  rtt now (get_or w.time_stamp j 0),
  some (get_or w.ack j (pos 0)),
  if j == w.head then reset w else record w { tail = (j + 1) % w.size },
)

-- The RTT or -1, the data ACK if one was found, and the window.
unfoldable pub acknowledge : AckWindow → ℕ → ℤ → ℤ × Option ℤ × AckWindow
unfolding scan_flat scan_wrapped take_flat take_wrapped
acknowledge w now seq =
    if leb w.tail w.head
    then take_flat w now (scan_flat w seq (w.head - w.tail) w.tail)
    else take_wrapped w now (scan_wrapped w seq (w.head + w.size - w.tail) w.tail)
