-- ===== src/United/Served.antt =====
-- udt-sys/udt/api.cpp and core.cpp: CUDTUnited::newConnection as the registry of CUDT::listen. A
-- listener is named by its identifier; the address of the peer is known from the packet.
use ninewire.Base.{ℕ}
use ninewire.Listen.{Registry}
use ninewire.Setup.Connect.{Factory}
use ninewire.United.{United}
use ninewire.United.Calls.{Env, new_connection}

abbrev pub registry : Factory → ℕ → ℕ → Env → Registry
registry f listener peer env = record {
  S = United f.k.C f.W;
  new_connection = new_connection f listener peer env;
  opened = λ g. g;
}
