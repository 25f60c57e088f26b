-- ===== src/Snapshot.antt =====
-- packages/emu86/src/emulator/snapshot.c: the machine state as bytes, and back.
--
-- A writer puts its bytes in front of what follows; a reader takes them off a list. The C pointer
-- `p` is the rest of the list. `none` is a read past the end of the buffer.
pub mod Crc
pub mod Bytes
pub mod Format
pub mod RoundTrip
pub mod Size
pub mod Restore
pub mod Reads
pub mod Bounds
pub mod Written
