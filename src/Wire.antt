-- ===== src/Wire.antt =====
-- The bytes of the messages: what the senders write through the structs of libpaxos_priv.h, and
-- what the receivers read back through them. An `int` has four bytes, the lowest first, as on the
-- machines for which the program is built; the program sends the bytes of its memory as they are.
pub mod Ints
pub mod Write
pub mod Read
pub mod Writable
pub mod Sizes
pub mod RoundTrip
pub mod Receive
pub mod Senders
