-- ===== src/Options/Tests.antt =====
-- udt-sys/udt/core.cpp: options that are set one after the other.
use ninewire.Base.{◌≡◌, refl, true, false, ltb, pos, List, [], ◌∷◌}
use ninewire.Base.Results.{err}
use ninewire.Options.{Flags, Setting, udt_mss, udt_fc, udt_rcvbuf, udt_cc, default, set_opt}
use ninewire.Options.Bounds.{run, set_opt_frozen}

abbrev fresh : Flags
fresh = record {
  opened = false;
  connecting = false;
  connected = false;
  broken = false;
  closing = false;
}

abbrev in_use : Flags
in_use = record {
  opened = true;
  connecting = false;
  connected = true;
  broken = false;
  closing = false;
}

abbrev calls : List (Flags × Setting)
calls =
    (fresh, udt_mss (pos 70000))
    ∷ (fresh, udt_fc (pos 100))
    ∷ (fresh, udt_rcvbuf (pos 1000000))
    ∷ (in_use, udt_mss (pos 200))
    ∷ []

set_opt_frozen_example : set_opt (record in_use { broken = true }) (default 0) (udt_cc 7) ≡ err 2 1
set_opt_frozen_example =
    (set_opt_frozen (record in_use { broken = true }) (default 0) (udt_cc 7)).2 refl

-- The window may be set below the receiver's buffer once the buffer is set.
window_below_buffer :
    let o = run (default 0) ((fresh, udt_rcvbuf (pos 3000000)) ∷ (fresh, udt_fc (pos 64)) ∷ []) in
    ltb o.flight_flag_size o.rcv_buf_size ≡ true
unfolding run set_opt
window_below_buffer = refl
