-- ===== src/Lib.antt =====
-- Ninewire serves files over the 9P protocol, encrypted, over a UDP-based reliable transport. The
-- transport is the C++ code below udt-sys/udt, a fork of UDT that is kept and changed in this
-- repository (smart pointers, std::mutex, rsynch.h, polling through a bridge to Rust) and that
-- udt-sys/bridge extends by the LEDBAT congestion control. This library models that C++ code.
--
-- The parts and how they meet. A sender puts messages into CSndBuffer, which cuts them into
-- numbered blocks; CPacket is the header they travel under. The receiver keeps what
-- arrives in CRcvBuffer until a message is complete, notes the numbers that it
-- misses in CRcvLossList and reports them in NAK packets; ACKs go into CACKWindow, which gives the
-- round-trip time when the ACK-2 comes. The sender keeps what a NAK reports in CSndLossList and
-- sends it again; LedbatCC sets its window from the delays that the time stamps show. All of them
-- count on the circular numbers of CSeqNo. CUDT holds them together: processCtrl and processData
-- take what comes in, packData chooses what goes out and checkTimers acknowledges and gives up.
-- CSndUList says which connection sends next, CRcvUList whose timers are next, CHash finds the connection of a packet, and
-- CUDT::listen lets new peers in. CUnitQueue has the storage of the packets that come, CRcvQueue keeps
-- those for sockets that connect, and CUDTUnited knows all sockets and makes those of new peers.
--
-- Which file models which part:
--   Base          shared: Boolean tests, lists by native index, int, bits, circular arrays
--   SeqNo         CSeqNo, CAckNo, CMsgNo of udt-sys/udt/udtCommon.h (seqcmp, seqoff, incseq, ...)
--   AckWindow     CACKWindow of udt-sys/udt/window.cpp (store, acknowledge)
--   RcvLossList   CRcvLossList of udt-sys/udt/list.cpp (insert, remove, find, getLossArray, ...)
--   Packet        CPacket and CHandShake of udt-sys/udt/packet.cpp (pack, the getters, serialize)
--   SndBuffer     CSndBuffer of udt-sys/udt/buffer.cpp (addBuffer, readData, ackData, increase)
--   RcvBuffer     CRcvBuffer of udt-sys/udt/buffer.cpp (addData, ackData, scanMsg, readMsg, ...)
--   SndLossList   CSndLossList of udt-sys/udt/list.cpp (insert, remove, getLostSeq)
--   Ledbat        LedbatCC of udt-sys/bridge/ledbat.cpp (onACK, onLoss, onTimeout, ...)
--   SndUList      CSndUList of udt-sys/udt/queue.cpp (insert, update, pop, remove)
--   RcvUList      CRcvUList of udt-sys/udt/queue.cpp (insert, update, remove)
--   Hash          CHash of udt-sys/udt/queue.cpp (lookup, insert, remove)
--   PktTimeWindow CPktTimeWindow of udt-sys/udt/window.cpp (the arrivals, getPktRcvSpeed, ...)
--   Listen        CUDT::listen of udt-sys/udt/core.cpp, over an interface of CUDTUnited
--   Connection    CUDT of udt-sys/udt/core.cpp: sendCtrl (Send), processCtrl (Receive, Loss,
--                 Timers), packData and processData (Data), checkTimers (Timers), over the models
--                 of its buffers and lists and two interfaces: Congestion, the class CCC, and
--                 TimeWindow, which PktTimeWindow fills in Connection.Measured
--                 Its Messages are sendmsg and recvmsg
--   Options       setOpt, getOpt and the options of the constructors of CUDT (udt-sys/udt/core.cpp)
--   Setup         CUDT of udt-sys/udt/core.cpp before and after it is connected: open, listen(), both
--                 halves of connect (Connect), close (Close); it builds the record of Connection
--   UnitQueue     CUnitQueue of udt-sys/udt/queue.cpp (init, increase, getNextAvailUnit)
--   RcvQueue      CRcvQueue and CRendezvousQueue of udt-sys/udt/queue.cpp (storePkt, recvfrom, ...)
--   United        CUDTUnited of udt-sys/udt/api.cpp: the sockets and the calls (Calls); its
--                 newConnection fills the interface of Listen in United.Served
--   Cache         CCache of CInfoBlock, udt-sys/udt/cache.h and cache.cpp (lookup, update)
-- A class is a record of its fields; a method is a function from the record to the new record and
-- the result, with out parameters in the result and the readings of clocks as arguments. A packet
-- that CUDT sends and a thread that it wakes are entries of a list of effects. Names are those of
-- the source in snake case, without the prefixes of fields.
--
-- Numbers. A C int is an exact integer (Base.Int): a result out of range would be undefined in C,
-- and SeqNo.Circle bounds the offsets. Where the peer or the length of a run decides whether an int
-- leaves its range, it wraps: the sizes of the buffers (Setup.Connect), the counters of Ledbat, the
-- sums of PktTimeWindow. Unsigned words wrap by % 2 ^ 32 or % 2 ^ 64;
-- times in 64 bits and the counters of packets are natural numbers, which do not wrap, but where
-- an int that may be negative enters, or readings of two clocks meet (Connection.Receive). Bit operations
-- are written as divisions and remainders (Base.Bits). The type double and its operations are a
-- parameter (Base.Double), of which only two laws of the order are assumed.
--
-- Fuel. The walks of RcvLossList take the size of the array plus one, more than the nodes of a
-- chain; those of SndLossList and RcvBuffer take the size of the array (RcvBuffer.Gaps), clear_before one more;
-- increase_until of SndBuffer takes the blocks that are needed plus one, and each round adds
-- at least one block; skip_message takes the number of blocks in the circle. The sifts of SndUList
-- take the number of entries, more than the levels of the heap, the walk over a loss report in
-- Connection.Loss the number of its words, and the digits of a minute in Listen 20, as many as a
-- 64-bit number has.
--
-- The search of UnitQueue takes the number of queues, as it ends where it began.
--
-- Not modelled: system calls, threads and locks (udt-sys/udt/channel.cpp, the multiplexers and the
-- garbage collection of api.cpp, the workers of queue.cpp), destructors and failing allocations, the
-- loop of a synchronous connect in core.cpp, and so far CUDTCC of ccc.cpp, which computes
-- with doubles only, and the Rust crates. Of the statistics of CUDT only the totals are kept.
pub mod Base
pub mod SeqNo
pub mod AckWindow
pub mod RcvLossList
pub mod Packet
pub mod SndBuffer
pub mod RcvBuffer
pub mod Ledbat
pub mod SndLossList
pub mod SndUList
pub mod RcvUList
pub mod Hash
pub mod PktTimeWindow
pub mod Listen
pub mod Options
pub mod Connection
pub mod Setup
pub mod UnitQueue
pub mod RcvQueue
pub mod United
pub mod Cache
