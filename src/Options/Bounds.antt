-- ===== src/Options/Bounds.antt =====
-- udt-sys/udt/core.cpp: what CUDT::setOpt keeps of a socket's options.
use ninewire.Base.{◌≤◌, ◌≡◌, refl, arith, true, ◌||◌, List, [], ◌∷◌}
use ninewire.Base.Results.{err, after}
use ninewire.Options.{Options, Flags, Setting, set_opt}

-- A packet has at least 96 bytes and fits the buffers of the UDP socket, and both windows of the
-- receiver are at least 32 packets.
pub record IsSane (o : Options) : Type 0 where
  pub least : 96 ≤ o.mss
  pub fits_snd : o.mss ≤ o.udp_snd_buf_size
  pub fits_rcv : o.mss ≤ o.udp_rcv_buf_size
  pub window : 32 ≤ o.flight_flag_size
  pub buffer : 32 ≤ o.rcv_buf_size

unfoldable pub run : Options → List (Flags × Setting) → Options
unfolding set_opt
run o [] = o
run o ((f, s) ∷ calls) = run (after o (set_opt f o s)) calls

-- Once a socket is opened, no call changes the size of its packets or of a buffer, or whether it
-- shares its port; once it connects, none changes its window, its congestion control or its mode
-- of connecting; and once it is broken or closing, every call throws.
pub set_opt_frozen :
    (f : Flags) (o : Options) (s : Setting)
    → let o' = after o (set_opt f o s) in
      (f.opened ≡ true
        → (o'.mss ≡ o.mss)
          × (o'.snd_buf_size ≡ o.snd_buf_size)
          × (o'.rcv_buf_size ≡ o.rcv_buf_size)
          × (o'.udp_snd_buf_size ≡ o.udp_snd_buf_size)
          × (o'.udp_rcv_buf_size ≡ o.udp_rcv_buf_size)
          × (o'.reuse_addr ≡ o.reuse_addr))
      × ((f.connecting || f.connected) ≡ true
          → (o'.flight_flag_size ≡ o.flight_flag_size)
            × (o'.cc ≡ o.cc)
            × (o'.rendezvous ≡ o.rendezvous))
      × ((f.broken || f.closing) ≡ true → set_opt f o s ≡ err 2 1)
unfolding set_opt
set_opt_frozen f o s = (λ h. ground (arith, h), λ h. ground (arith, h), λ h. rw h refl)
