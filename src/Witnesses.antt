-- ===== src/Witnesses.antt =====
-- The theorems at concrete inputs, and tests of the definitions: a toy cipher, a toy transport and
-- the packets, records and addresses of the source's own tests.
mod Data
mod Packets
mod Sessions
mod Alarms
mod Frames
mod Reports
mod Values
mod Hosts
mod Stacks
mod Scans
mod Opened
mod Runs
mod Calls
mod Typed
mod Vectors
mod Onbus
mod Tools
mod Streams
