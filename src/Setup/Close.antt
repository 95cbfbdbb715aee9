-- ===== src/Setup/Close.antt =====
-- udt-sys/udt/core.cpp: CUDT::close.
use ninewire.Base.{true, false, if◌then◌else◌, List, [], ◌∷◌, ◌++◌, Option, none, some}
use ninewire.Connection.{Udt}
use ninewire.Setup.{
  Socket, Call, remove_connector, remove_listener, both_events, remove_usock, leave_snd_list,
  release_synch, shut_down, cc_close, update_cache, call,
}

module _ {C W : Type 0} where
  -- `close`, until no call is in progress.
  unfoldable pub stop_waiting : Socket C W → Socket C W
  stop_waiting s =
      if s.listening
      then call remove_listener (record s { listening = false })
      else if s.connecting
      then call remove_connector s
      else s

  -- What is left to do of a connection: the peer is told unless it has shut down itself, and the
  -- cache keeps the round-trip time and the bandwidth.
  unfoldable pub parting : Option (Udt C W) → List Call
  parting none = []
  parting (some u) =
      let rest = cc_close ∷ update_cache u.rtt u.bandwidth ∷ [] in
      if u.status.shutdown then rest else shut_down ∷ rest

  unfoldable pub disconnect : Socket C W → Socket C W
  unfolding parting
  disconnect s =
      if s.connected then record s { connected = false; calls = s.calls ++ parting s.conn } else s

  -- The connection has the flag too.
  unfoldable pub mark_closing : Option (Udt C W) → Option (Udt C W)
  mark_closing none = none
  mark_closing (some u) = some (record u { status = record u.status { closing = true } })

  -- Up to the signals for the threads that wait for data.
  unfoldable pub begin_close : Socket C W → Socket C W
  unfolding mark_closing
  begin_close s =
      let left = if s.connected then call leave_snd_list s else s in
      record (call release_synch (call remove_usock (call both_events left))) {
        status = record s.status { closing = true };
        conn = mark_closing s.conn;
      }

  unfoldable pub close : Socket C W → Socket C W
  unfolding begin_close stop_waiting disconnect
  close s =
      if s.opened then record (disconnect (stop_waiting (begin_close s))) { opened = false } else s
