-- ===== src/Setup/Roles.antt =====
-- udt-sys/udt/core.cpp: the calls of listen, connect and close keep a socket in one role.
use ninewire.Connection.{Udt}
use ninewire.Base.{
  ℕ, ◌≡◌, ◌≢◌, refl, arith, Bool, true, false, not, ◌||◌, if_chooses, List, Option, none, some, ℤ,
}
use ninewire.Base.Results.{Result, after}
use ninewire.Setup.{Socket, call, leave_snd_list, start_listening}
use ninewire.Setup.Connect.{send_request, Factory, connect}
use ninewire.Setup.Close.{mark_closing, close, begin_close, stop_waiting, disconnect}

-- A socket does one thing at most: it listens, it connects or it is connected; and it is
-- connected only with its buffers.
pub record IsOneRole (listening connecting connected : Bool) {U : Type 0} (conn : Option U)
    : Type 0 where
  pub free : listening ≡ true → connecting ≡ false
  pub alone : listening ≡ true → connected ≡ false
  pub unconnected : connecting ≡ true → connected ≡ false
  pub buffers : connected ≡ true → conn ≢ none

module _ (f : Factory) where
  open f use {k, W}

  abbrev pub HasOneRole : Socket k.C W → Type 0
  HasOneRole s = IsOneRole s.listening s.connecting s.connected s.conn

  pub start_listening-HasOneRole :
      (taken : Bool) (s : Socket k.C W)
      → HasOneRole s
      → HasOneRole (after s (start_listening taken s))
  unfolding start_listening
  start_listening-HasOneRole taken s v =
      if_chooses P (not s.opened) (λ o. v)
        λ o.
          if_chooses P (s.connecting || s.connected) (λ b. v)
            λ b.
              if_chooses P s.listening (λ l. v)
                λ l.
                  if_chooses P taken (λ t. v)
                    λ t. record {
                      free = λ h. ground (arith, b);
                      alone = λ h. ground (arith, b);
                      unconnected = v.unconnected;
                      buffers = v.buffers;
                    }
    where
      P : Result (Socket k.C W) → Type 0
      P r = HasOneRole (after s r)

  pub connect-HasOneRole :
      (ip : List ℕ) (isn : ℤ) (now : ℕ) (scratch : List ℕ) (s : Socket k.C W)
      → HasOneRole s
      → HasOneRole (after s (connect f ip isn now scratch s))
  unfolding connect send_request
  connect-HasOneRole ip isn now scratch s v =
      if_chooses P (not s.opened) (λ o. v)
        λ o.
          if_chooses P s.listening (λ b. v)
            λ l.
              if_chooses P (s.connecting || s.connected) (λ b. v)
                λ b. record {
                  free = λ h. ground (arith, h, l);
                  alone = v.alone;
                  unconnected = λ h. ground (arith, b);
                  buffers = v.buffers;
                }
    where
      P : Result (Socket k.C W) → Type 0
      P r = HasOneRole (after s r)

  stop_waiting-HasOneRole : (s : Socket k.C W) → HasOneRole s → HasOneRole (stop_waiting s)
  unfolding stop_waiting
  stop_waiting-HasOneRole s v =
      if_chooses HasOneRole s.listening
        (λ l. record {
          free = λ h. ground (arith, h);
          alone = λ h. ground (arith, h);
          unconnected = v.unconnected;
          buffers = v.buffers;
        })
        λ l. if_chooses HasOneRole s.connecting (λ c. v) (λ c. v)

  disconnect-HasOneRole : (s : Socket k.C W) → HasOneRole s → HasOneRole (disconnect s)
  unfolding disconnect
  disconnect-HasOneRole s v =
      if_chooses HasOneRole s.connected
        (λ c. record {
          free = v.free;
          alone = λ h. refl;
          unconnected = λ h. refl;
          buffers = λ h. ground (arith, h);
        })
        λ c. v

  mark_closing_some : (u : Option (Udt k.C W)) → u ≢ none → mark_closing u ≢ none
  unfolding mark_closing
  mark_closing_some none h e = h refl
  mark_closing_some (some u) h e = ground (arith, e)

  begin_close-HasOneRole : (s : Socket k.C W) → HasOneRole s → HasOneRole (begin_close s)
  unfolding begin_close
  begin_close-HasOneRole s v =
      if_chooses
        (λ l. HasOneRole (record s {
          listening = l.listening;
          connecting = l.connecting;
          connected = l.connected;
          conn = mark_closing s.conn;
        }))
        s.connected {x = call leave_snd_list s} {y = s} (λ c. marked) (λ c. marked)
    where
      marked : IsOneRole s.listening s.connecting s.connected (mark_closing s.conn)
      marked = record {
        free = v.free;
        alone = v.alone;
        unconnected = v.unconnected;
        buffers = λ h. mark_closing_some s.conn (v.buffers h);
      }

  pub close-HasOneRole : (s : Socket k.C W) → HasOneRole s → HasOneRole (close s)
  unfolding close
  close-HasOneRole s v =
      if_chooses HasOneRole s.opened
        (λ o.
          disconnect-HasOneRole (stop_waiting (begin_close s))
            (stop_waiting-HasOneRole (begin_close s) (begin_close-HasOneRole s v)))
        λ o. v
