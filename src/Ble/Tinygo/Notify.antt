-- ===== src/Ble/Tinygo/Notify.antt =====
-- ble/chario_tinygo.go: a characteristic over tinygo's stack.
use pigsydust.Prelude.{ℕ, Bool, true, false, List, [], ◌∷◌, Option, none, some}
use pigsydust.Prelude.Go.{Go, ok, panic, ◌>>=◌}
use pigsydust.Client.{Done}
use pigsydust.Ble.Link.{CharIo, Connection, in_context}
use pigsydust.Ble.Tinygo.Connect.{TinygoConnection}

-- The calls on a characteristic; `read` gives the bytes that it stored in the buffer of 64.
pub record Gatt (C S : Type 0) : Type 0 where
  pub write : C → List ℕ → S → Go Done × S
  pub write_without_response : C → List ℕ → S → Go Done × S
  pub read_64 : C → S → Go (List ℕ) × S
  pub enable_notifications : C → S → Go Done × S

module _ {C S : Type 0} (gatt : Gatt C S) where
  unfoldable pub write_request : C → List ℕ → S → Go Done × S
  write_request ch bytes s = let r = gatt.write ch bytes s in (in_context r.0, r.1)

  unfoldable pub write_command : C → List ℕ → S → Go Done × S
  write_command ch bytes s = let r = gatt.write_without_response ch bytes s in (in_context r.0, r.1)

  unfoldable pub subscribe : C → S → Go Done × S
  subscribe ch s = let r = gatt.enable_notifications ch s in (in_context r.0, r.1)

  -- The interface value of a connection's field: a call of a method of a nil interface panics.
  unfoldable pub tinygo_char_io : Option C → CharIo S
  tinygo_char_io (some ch) = record {
    write_request = write_request ch;
    write_command = write_command ch;
    read = gatt.read_64 ch;
    subscribe = subscribe ch;
  }
  tinygo_char_io none = record {
    write_request = λ bytes s. (panic, s);
    write_command = λ bytes s. (panic, s);
    read = λ s. (panic, s);
    subscribe = λ s. (panic, s);
  }

  -- A connection as the transport takes it; the closer disconnects the device.
  unfoldable pub link : {D : Type 0} → (D → S → Go Done × S) → TinygoConnection D C → Connection S
  link disconnect conn = record {
    char_notify = tinygo_char_io conn.char_notify;
    char_cmd = tinygo_char_io conn.char_cmd;
    char_pair = tinygo_char_io conn.char_pair;
    gw_mac = conn.gw_mac;
    closer = some (disconnect conn.device);
  }

-- What happens to the channel of a subscription: the callback runs on a packet, with room or without,
-- and the context's goroutine closes the channel.
pub data Happening : Type 0 where
  notified : List ℕ → Bool → Happening
  closes : Happening

-- What the receiver gets. On a channel that is closed the callback's `select` takes the send, which
-- panics, and so would a second close.
unfoldable pub received : Bool → List Happening → Go (List (List ℕ))
received closed [] = ok []
received true (event ∷ events) = panic
received false (closes ∷ events) = received true events
received false (notified packet true ∷ events) = do rest ← received false events; ok (packet ∷ rest)
received false (notified packet false ∷ events) = received false events
