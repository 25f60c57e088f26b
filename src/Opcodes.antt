-- ===== src/Opcodes.antt =====
-- packages/emu86/src/emulator/opcodes/: one module for each header of instruction handlers. A
-- handler takes the machine state, and where it reads operands the decode context, and returns
-- what it changes.
pub mod Helpers
pub mod Arithmetic
pub mod Adjust
pub mod Logic
pub mod Shift
pub mod Transfer
pub mod Strings
pub mod Control
pub mod FlagsIo
