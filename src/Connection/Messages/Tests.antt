-- ===== src/Connection/Messages/Tests.antt =====
-- udt-sys/udt/core.cpp: messages of a connection whose packets have 4 bytes.
use ninewire.Base.{◌≡◌, ◌≤◌, refl, true, pos, minus_one, length, []}
use ninewire.Base.Results.{err}
use ninewire.Connection.Messages.{sendmsg, recvmsg}
use ninewire.Connection.Room.{received, recvmsg_fits}
use ninewire.Connection.Tests.{fresh}
use ninewire.SndBuffer

recvmsg_fits_example : length (received (recvmsg true fresh (pos 20))) ≤ 20
recvmsg_fits_example = recvmsg_fits true fresh (pos 20)

too_long_a_message : sendmsg true 2 fresh [] (pos 9) minus_one true 7 8 ≡ err 5 12
unfolding sendmsg
too_long_a_message = refl
