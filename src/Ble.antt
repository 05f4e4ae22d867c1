-- ===== src/Ble.antt =====
-- ble/: what the BLE module computes itself; the host stacks that it drives are not here.
pub mod Uuid
pub mod Link
pub mod Adapter
pub mod Scan
pub mod Dbus
pub mod Path
pub mod Discovery
pub mod Bluez
pub mod Tinygo
