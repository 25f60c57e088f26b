-- ===== src/Harness.antt =====
-- packages/emu86/harness: the control plane of the lockstep harness.
pub mod Text
pub mod Control
pub mod Reference
pub mod Compare
pub mod Scan
pub mod Full
pub mod SelfTest
pub mod Keyboard
pub mod Agree
pub mod Printed
pub mod Replies
pub mod Decimal
pub mod Writes
pub mod Settings
pub mod Snapshots
pub mod Step
pub mod Overrides
pub mod Trace
pub mod Lockstep
pub mod Verdict
pub mod Runs
pub mod Init
pub mod Injected
pub mod Scratch
pub mod Prepare
mod Tests
mod StepTests
