-- ===== src/Lib.antt =====
-- Verification library of the emu86 emulator (packages/emu86): an 8086 in C, run in batches.
--
-- The parts of the program, with the files that model them. Paths are below
-- packages/emu86/src/emulator; a definition has the name of its C function, field or constant.
--
-- State (state.h): the machine state as a record. An array is a function of its index.
-- Context and Decode (decode.h, tables.h): the decode context, the tables that the BIOS image
--   holds, and `decode_instruction`, cut along the numbered steps of the source.
-- Access (decode.h): reading and writing memory, registers and operands.
-- Platform (platform.h): ring buffers and the host interface. The disk and clock callbacks are
--   the host's code and so parameters: functions of the host's context, or none for a null
--   pointer.
-- Opcodes (opcodes/*.h): one module per header. `Arithmetic` and `Adjust` share arithmetic.h,
--   `Strings` is string.h. A handler takes a state to a state; one that sets `d->ip_changed`
--   returns the decode context too, and DIV and IDIV return their error code.
-- Run (run.c, run.h): `Alu`, `Cases` and `Dispatch` are `execute_instruction`; `Loop` is
--   `emu86_run` and `emu86_step_single`. The run loop decodes at CS:IP, executes, advances IP,
--   services the trap flag, the timer and the keyboard, and yields to the host.
-- Snapshot (snapshot.c, snapshot.h): the state as bytes with a header and a CRC32, and back.
--
-- Host (packages/emu86/src/hosts/linux): `Arguments` is the command line, `Start` the disk images
--   and snapshot files over an interface of system calls, `Boot` the booted state, `MainLoop` the
--   platform, the main loop and the last flush, `Terminal` the terminal's settings; the console
--   between the rings and the terminal, the disk callbacks and the switch of the main loop stand
--   in Host itself. The terminal's bytes are two lists. What comes from outside in a turn of the
--   loop, the keys, the answer of `select` and the signals, is a `Turn`.
-- Harness (packages/emu86/harness): `Control` is the command dispatcher of control.c over `Text`,
--   the string functions; `Reference` has the globals of the reference emulator, `Compare` the
--   comparison of harness.c and its self-test copy, `Keyboard` its queue of keys, `Init` the start
--   from the reference, `Snapshots` the states kept for the report, `Step` the hooks before and
--   after an instruction of the reference, `Overrides` the calls that replace the C library. The
--   variables that the control plane can reach are cells of one memory, named by address.
--   `Trace` runs the hooks along the states that the reference reaches, which are given,
--   `Scratch` makes the copies of the disk images, and `Prepare` is `main` up to the reference.
--
-- Numbers are natural numbers. A store into a cell of a fixed width reduces the value to the width,
-- and arithmetic in `uint32_t` has its wrap-around written out; signed operands are integers read
-- off the bits. `IsWords` (State.Words) says that every field of a state fits its C type.
--
-- `run_loop` has fuel: a quarter of the budget and one turn more is enough, as every turn takes
-- 4 cycles. The REP loop of a string instruction is bounded by CX, from which every round takes 1.
--
-- A turn of the main loop has fuel 5001 for its run, a quarter of the budget of 20000 and one; a
-- flush has the ring's size and one round as fuel, as every round but the last takes a byte, at
-- least. A step of the harness has fuel 2 for its run with a budget of 1, and the size of the ring
-- and one round for reading the console.
--
-- A scratch copy has as fuel one round more than its source has bytes, and for the writes of a
-- buffer its size, the interruptions and one round more.
--
-- A drain of the keyboard pipe has the free cells of the queue and one round as fuel: a round that
-- goes on stores a byte.
--
-- Where C leaves the behaviour undefined the model computes on: shifts by a negative or too large
-- count, indices outside an array, and the quotient -2 ^ 31 / -1 in IDIV. A restore that reads
-- past the end of the buffer is a result of its own.
--
-- Not modelled: the texts on standard error; of the harness the report of a divergence, the
-- heartbeat log and the settings from the environment; the unit tests; the vendored reference
-- emulator (packages/emu86/reference); the network adapter, which the emulator never uses; the
-- editor package, which is a skeleton.
pub mod Base
pub mod State
pub mod Context
pub mod Access
pub mod Harness
pub mod Platform
pub mod Opcodes
pub mod Decode
pub mod Run
pub mod Host
pub mod Snapshot
pub mod Tests
