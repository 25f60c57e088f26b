-- ===== src/Run.antt =====
-- packages/emu86/src/emulator/run.c: the dispatch of one instruction. The loops that call it are in
-- `Run.Loop`.
--
-- The cases of the `switch` stand in four groups; those that are more than a call have a function
-- of their own. Case 48, the only one that touches the platform, is in `execute_instruction`.
pub mod Alu
pub mod Cases
pub mod Dispatch
pub mod Loop
pub mod Budget
pub mod Single
pub mod Address
