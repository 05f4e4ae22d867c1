-- ===== src/Lib.antt =====
-- A model of pigsydust, a Go library that controls SAL Pixie devices over a Telink BLE mesh, and
-- the theorems about it.
--
-- The program's parts. A caller builds commands (command/, schedule/) and sends them through a
-- `Client` (client.go, session.go), which pairs with one mesh node (crypto/login.go), numbers and
-- encrypts each command (crypto/crypto.go) and decrypts the node's notifications (notification.go).
-- The client reaches the node through a `Transport` (transport.go), which ble/ implements over a
-- BLE connection; ble/ also scans for nodes, by their advertisements (advertisement.go).
--
-- Files and sources. Definitions carry the source's names in snake_case.
--   Byteutil.antt                internal/byteutil/byteutil.go
--   Crypto.antt                  crypto/crypto.go: ReversedAES, CommandNonce, NotificationNonce, cbcMAC
--                                (mac_loop, cbc_mac), ctrCrypt (ctr_loop, ctr_crypt), Encrypt, Decrypt
--   Crypto/Login.antt            crypto/login.go
--   Protocol.antt                protocol/const.go
--   Protocol/DeviceClass.antt    protocol/device_class.go
--   Command.antt, Command/Build.antt, Command/Schedule.antt   command/
--   Address.antt, Mac.antt       address.go, types.go
--   Schedule.antt, Schedule/Weekday.antt                      schedule/alarm.go
--   Schedule/Timezone.antt       schedule/timezone.go
--   Notification.antt, Notification/Payload.antt              notification.go
--   Advertisement.antt           advertisement.go
--   Client.antt, Client/Steps.antt, Client/Race.antt          client.go, session.go, transport.go
--   Client/Senders.antt          client.go, session.go: calls of Send at once
--   Client/Delivery.antt         client.go: the goroutine of Notifications
--   Client/Options.antt, Client/Heartbeat.antt                options.go, client.go: heartbeatLoop
--   Ble/Uuid.antt                ble/ids.go, and parseUUIDString of ble/adapter_linux.go
--   Ble/Link.antt, Ble/Adapter.antt                           ble/types.go, ble/transport.go
--   Ble/Scan.antt                the decision of maybeEmit of ble/scanner_linux.go, and the frame
--                                filter of ble/chario_linux.go
--   Ble/Dbus.antt, Ble/Path.antt, Ble/Discovery.antt          ble/bluez_linux.go, ble/scanner_linux.go
--   Ble/Bluez.antt, Ble/Bluez/Wait.antt, Ble/Bluez/Table.antt, Ble/Bluez/Connect.antt
--                                ble/adapter_linux.go
--   Ble/Bluez/Scanning.antt      ble/scanner_linux.go: the scan around its loop
--   Ble/Bluez/Char.antt, Ble/Bluez/Hci.antt                   ble/chario_linux.go
--   Ble/Tinygo.antt, Ble/Tinygo/Scanning.antt, Ble/Tinygo/Connect.antt, Ble/Tinygo/Notify.antt
--                                ble/scanner_tinygo.go, ble/adapter_tinygo.go, ble/chario_tinygo.go
--   Programs/Pick.antt, Programs/Session.antt, Programs/Start.antt, Programs/Collect.antt,
--   Programs/Smoke.antt, Programs/Report.antt, Programs/Listen.antt, Programs/Runs.antt
--                                ble/cmd/smoke, ble/cmd/smoke-linux, ble/cmd/listen
--   Programs/Fixture.antt        cmd/fixture/main.go
--   Protocol/Texts.antt          protocol/const.go: the UUID texts
-- The other files below these hold proofs and are named for what they prove; Prelude and Bits are
-- shared helpers, Witnesses has the theorems at concrete inputs.
--
-- How the code is modelled. Numbers are natural numbers; a byte that wraps is written `% 256`, and
-- the signed offsets of time zones are integers (Prelude/Int.antt). Slices, arrays and strings are
-- lists of bytes, an array's length being a property. A function that returns an error has a result
-- `Go A`: a value, an error or a panic (Prelude/Go.antt), where an index out of range panics. Loops
-- over slices are structural recursion on the list, so no fuel is needed anywhere.
-- The block cipher AES-128 is a parameter `aes`; nothing is assumed of it, but that it takes 16 bytes to
-- 16 bytes where the sizes of arrays are at stake. The transport of a client
-- and the characteristics of a BLE connection are records of functions on a state of their own. The
-- random bytes of a login are its arguments. A client is a record that each call takes and returns;
-- `Client.Steps.Step` has one step for each call, and `Reaches` the sequences of them.
--
-- The hosts' BLE stacks are outside code, and parameters: records of functions on a state of their
-- own for the system bus, the raw sockets and tinygo's stack, and the type assertions on dynamic
-- values (`Ble.Dbus.Dynamic`). A loop that waits takes the list of what its rounds meet, and is still
-- waiting (`none`, or not ended) at the end of that list; the theorems on its end say which rounds
-- suffice. A Go map is an association list, in the order in which a range over it goes
-- (Prelude/Maps.antt).
--
-- A run of one of the programs is a function of its settings, of the platform's adapter and of the
-- packets that arrive meanwhile (Programs/Runs.antt): an error is what it gives to log.Fatal, and then
-- the state is the one behind the failed call, without the deferred calls.
--
-- Not modelled. Delays, interrupts (but in the loop of listen), progress messages and logging. The
-- receiver of a scan on Linux takes every result. Calls of a client are atomic, but for Send, whose
-- locked sections Client/Race.antt and Client/Senders.antt take apart, and the goroutine of
-- Notifications, which Client/Delivery.antt does. That the smoke test reads its map of statuses while the collecting
-- goroutine writes to it is not represented: a look at the map is one instant. A command's negative
-- PlaintextLen is not represented, and neither is an address of another platform's type. The adapter
-- of the programs is a parameter: the operations of the two platforms are modelled each for itself and
-- are not gathered into the interface, since a connect that still waits has no answer yet.
pub mod Prelude
pub mod Bits
pub mod Byteutil
pub mod Crypto
pub mod Protocol
pub mod Command
pub mod Address
pub mod Schedule
pub mod Mac
pub mod Notification
pub mod Advertisement
pub mod Client
pub mod Ble
pub mod Programs
pub mod Witnesses
