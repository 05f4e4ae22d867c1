-- ===== src/Ble/Bluez/Char.antt =====
-- ble/chario_linux.go: a characteristic over BlueZ, with notifications from a raw socket of the host.
use Prim.Native.String.{String}
use pigsydust.Prelude.{ℕ, Bool, ◌+◌, ◌%◌, ◌^◌, List, ◌++◌, none, some}
use pigsydust.Prelude.Go.{Go, ok, err, panic, context, handle_type}
use pigsydust.Client.{Done}
use pigsydust.Byteutil.{put_le32, zeros}
use pigsydust.Ble.Link.{CharIo, Connection, in_context}
use pigsydust.Ble.Dbus.{Dynamic, bluez_gatt_char_iface}
use pigsydust.Ble.Bluez.{Bus}
use pigsydust.Ble.Bluez.Connect.{BluezConnection, close_conn}

-- The system calls on a raw socket of the host: opening one, setting its filter, binding it, closing
-- it; `spawn` starts the goroutine that reads from it.
pub record Sockets (S : Type 0) : Type 0 where
  pub socket : S → Go ℕ × S
  pub set_filter : ℕ → List ℕ → S → Go Done × S
  pub bind : ℕ → S → Go Done × S
  pub close : ℕ → S → S
  pub spawn : ℕ → ℕ → S → S

-- The bits of the packet types that pass, here of type 2 alone.
abbrev pub hci_filter : List ℕ
hci_filter = put_le32 4 ++ zeros 12

module _ {S : Type 0} (sockets : Sockets S) where
  unfoldable pub bound : ℕ → Go Done × S → Go ℕ × S
  bound fd (ok done, s) = (ok fd, s)
  bound fd (err e, s) = (err (context e), sockets.close fd s)
  bound fd (panic, s) = (panic, s)

  unfoldable pub filtered : ℕ → Go Done × S → Go ℕ × S
  filtered fd (ok done, s) = bound fd (sockets.bind fd s)
  filtered fd (err e, s) = (err (context e), sockets.close fd s)
  filtered fd (panic, s) = (panic, s)

  unfoldable pub on_socket : Go ℕ × S → Go ℕ × S
  on_socket (ok fd, s) = filtered fd (sockets.set_filter fd hci_filter s)
  on_socket (err e, s) = (err e, s)
  on_socket (panic, s) = (panic, s)

  unfoldable pub open_hci_raw : S → Go ℕ × S
  open_hci_raw s = on_socket (sockets.socket s)

  -- `subscribe` from the characteristic's handle on: the handle of the value is the next 16-bit one.
  unfoldable pub listening : ℕ → Go ℕ × S → Go Done × S
  listening value_handle (ok fd, s) = (ok tt, sockets.spawn fd value_handle s)
  listening value_handle (err e, s) = (err (context e), s)
  listening value_handle (panic, s) = (panic, s)

  unfoldable pub with_handle : Go ℕ → S → Go Done × S
  with_handle (ok decl_handle) s = listening ((decl_handle + 1) % 2 ^ 16) (open_hci_raw s)
  with_handle (err e) s = (err e, s)
  with_handle panic s = (panic, s)

module _ {V B : Type 0} (dyn : Dynamic V B) where
  unfoldable pub word : Go V → Go ℕ
  word (ok v) = elim (dyn.word_of v) [ none ↦ err handle_type | some h ↦ ok h ]
  word (err e) = err (context e)
  word panic = panic

module _ {V B S : Type 0} (dyn : Dynamic V B) (bus : Bus V S) where
  unfoldable pub read_handle : List ℕ → S → Go ℕ × S
  read_handle path s =
      let v = bus.get_prop path bluez_gatt_char_iface "Handle" s in (word dyn v.0, v.1)

  unfoldable pub write_value : List ℕ → String → List ℕ → S → Go Done × S
  write_value path kind bytes s = let r = bus.write_value path kind bytes s in (in_context r.0, r.1)

  unfoldable pub read_value : List ℕ → S → Go (List ℕ) × S
  read_value path s = let r = bus.read_value path s in (in_context r.0, r.1)

  unfoldable pub subscribe : Sockets S → List ℕ → S → Go Done × S
  subscribe sockets path s = let h = read_handle path s in with_handle sockets h.0 h.1

  unfoldable pub linux_char_io : Sockets S → List ℕ → CharIo S
  linux_char_io sockets path = record {
    write_request = write_value path "request";
    write_command = write_value path "command";
    read = read_value path;
    subscribe = subscribe sockets path;
  }

  -- The captured variable `closed` beside the bus.
  unfoldable pub beside : {A : Type 0} → (S → Go A × S) → Bool × S → Go A × (Bool × S)
  beside f (closed, s) = let r = f s in (r.0, (closed, r.1))

  unfoldable pub char_io_beside : CharIo S → CharIo (Bool × S)
  char_io_beside io = record {
    write_request = λ bytes. beside (io.write_request bytes);
    write_command = λ bytes. beside (io.write_command bytes);
    read = beside io.read;
    subscribe = beside io.subscribe;
  }

  unfoldable pub closer : BluezConnection → Bool × S → Go Done × (Bool × S)
  closer conn (closed, s) =
      let r = close_conn bus (record conn { closed = closed }) s in (r.0, (r.1.0.closed, r.1.1))

  -- A connection that was handed out, as the transport takes it.
  unfoldable pub link : Sockets S → BluezConnection → Connection (Bool × S)
  link sockets conn = record {
    char_notify = char_io_beside (linux_char_io sockets conn.chars.notify);
    char_cmd = char_io_beside (linux_char_io sockets conn.chars.cmd);
    char_pair = char_io_beside (linux_char_io sockets conn.chars.pair);
    gw_mac = conn.gw_mac;
    closer = some (closer conn);
  }
