-- ===== src/Lib.antt =====
-- dmrlib, a C library for Digital Mobile Radio: its error-correcting codes and the payloads of its
-- packets, as functions on numbers, lists and booleans.
--
-- A packet (`dmr_packet`, include/dmr/packet.h) is an array of 33 bytes. A transmitter fills in a
-- synchronisation pattern, a slot type or embedded signalling, and a payload that is protected by
-- several codes one inside the other; a receiver undoes this. What the parts do, and the module
-- that models each:
--   Bits         src/dmr/bits.c: the conversions between arrays of bytes and arrays of bits
--   Fec.Rs       src/dmr/fec/rs_12_9.c: Reed-Solomon parity over the nine bytes of a message
--   Fec.Golay    src/dmr/fec/golay_20_8.c: the Golay code of the slot type
--   Fec.Qr       src/dmr/fec/qr_16_7.c: the quadratic residue code of embedded signalling
--   Fec.Hamming  src/dmr/fec/hamming.c: five Hamming codes over arrays of bits
--   Fec.Bptc     src/dmr/fec/bptc_196_96.c: rows and columns of Hamming words, interleaved over a
--                packet; it uses Bits and Fec.Hamming
--   Fec.Vbptc    src/dmr/fec/vbptc_16_11.c: a matrix of Hamming words with a row of parities
--   Fec.Trellis  src/dmr/fec/trellis.c: the decoder of the rate 3/4 trellis code
--   Payload.Sync src/dmr/payload/sync.c: writing and finding the synchronisation pattern
--   Payload.Lc   src/dmr/payload/lc.c: full link control messages; it uses Fec.Rs for the parity,
--                masks it by the data type, and sends the twelve bytes through Fec.Bptc
--   Payload.Emb  src/dmr/payload/emb.c: the header of embedded signalling, protected by Fec.Qr, and
--                the fragments of a signalling message in a matrix of Fec.Vbptc
--   Packet       src/dmr/packet.c: the slot type, and the decoder that tells packets apart by their
--                pattern or else by their slot type; it uses Fec.Golay and Payload.Sync
--   Crc          src/dmr/crc.c: the shift registers of the three checksums
--   Error        src/dmr/error.c: the last error and its message; the type of the results -1 and 0
--   Raw          src/dmr/raw.c: growing byte buffers, over the record `Memory` of the functions
--                that they use of talloc and of common/byte.h, with the laws of those functions
--   Queue        the tail queue macros of include/dmr/queue.h as a record `TailQueue` of operations
--                and laws; Queue.Raw the bounded queues of src/dmr/raw.c, Queue.Packet the queue of
--                src/dmr/packetq.c
--   Ids          src/dmr/id.c: the map from identifiers to names, over a record `RbTree` of the
--                red-black tree macros of include/dmr/tree.h
--   Protocol.Homebrew  src/dmr/protocol/homebrew.c: logging in to a repeater, and packets as frames;
--                it uses Raw for its frames, and the record `Wire` for the texts that are printed,
--                for SHA-256 and for common/byte.h. The socket is the list of the answers of its
--                next calls, and a call that they do not end is `none`
--
-- The functions keep the names of the source without the prefix `dmr_`. A byte is a natural number,
-- and a cast to it is `u8`; an array is a list, a read outside of it gives 0 or false, and a write
-- outside of it changes nothing. A loop `for (i = a; i < a + n; i++) x[p(i)] = v(i)` and a `memcpy`
-- are `fill` (Common.Loops); the other loops are recursions on the rounds left. The two loops of
-- the Golay syndrome that a counter does not bound take fuel: 24 for each, since the words have
-- less than 23 bits and each round clears the highest one or moves one place down. The counter of
-- eight bits in the encoder of Fec.Vbptc takes 257 rounds of fuel, more than it has values, and the
-- counters of sixteen bits of the loops of Bits take 65537: none is the result when they do not
-- end. The callers of these loops have arrays of fewer bytes and use what is left then, the
-- functions that end in `_within`. Sizes of 64 bits wrap (`u64`); a theorem that needs a size not
-- to wrap has a bound for it. Whether an allocation is granted is a parameter or the answer of
-- `Memory`. A Boolean result of a decoder is the C `bool`, or stands for a return of 0 (true) or -1
-- (false); where more ways to fail are told apart there is a type of them. An array that the C code
-- reads before it writes it, and what follows a table that is read past its end, are parameters, so
-- that the theorems hold whatever is there. The modules `Tests` of these parts hold runs on
-- concrete data.
--
-- Not modelled: checks of pointers for NULL, logging and printing; the data headers; the event loop,
-- threads, allocation and time, which wrap the operating system; the protocol of the MMDVM modem and
-- the sockets and serial ports; the vendored and third-party code.
pub mod Common
pub mod Bits
pub mod Fec
pub mod Payload
pub mod Packet
pub mod Crc
pub mod Error
pub mod Raw
pub mod Queue
pub mod Ids
pub mod Protocol
