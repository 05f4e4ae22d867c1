-- ===== src/Programs.antt =====
-- ble/cmd/smoke, ble/cmd/smoke-linux and ble/cmd/listen: what the programs compute around the library.
pub mod Pick
pub mod Best
pub mod Collect
pub mod Told
pub mod Smoke
pub mod Arrives
pub mod Bluez
pub mod Kept
pub mod OverBluez
pub mod Fixture
pub mod Restore
pub mod Listen
pub mod Session
pub mod Ready
pub mod Start
pub mod Runs
pub mod Answered
pub mod Intime
pub mod Counted
pub mod Unclosed
pub mod Reported
pub mod Report
pub mod Listed
