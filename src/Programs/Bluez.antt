-- ===== src/Programs/Bluez.antt =====
-- client.go over ble/chario_linux.go: the commands of a client on the system bus.
use Prim.Native.String.{String}
use pigsydust.Prelude.{ℕ, Bool, true, List, [], ◌∷◌, ◌++◌, All, ◌≡◌, ap}
use pigsydust.Prelude.Go.{ok}
use pigsydust.Crypto.{Aes}
use pigsydust.Command.{Command}
use pigsydust.Client.{Client}
use pigsydust.Ble.Link.{ble_transport, write_command, in_context}
use pigsydust.Ble.Dbus.{Dynamic}
use pigsydust.Ble.Bluez.{Bus}
use pigsydust.Ble.Bluez.Connect.{BluezConnection}
use pigsydust.Ble.Bluez.Char.{Sockets, link, linux_char_io, char_io_beside, beside, write_value}
use pigsydust.Programs.Arrives.{Encodes, IsLogged, send_each-IsLogged}

-- A call of `WriteValue`: the characteristic's path, the kind of the write, and the bytes.
abbrev pub Write : Type 0
Write = List ℕ × (String × List ℕ)

module _ {V B S : Type 0} (aes : Aes) (dyn : Dynamic V B) (bus : Bus V S) (sockets : Sockets S)
    (conn : BluezConnection) where
  -- Over a bus that accepts every write and logs it, the commands of a logged-in client that have an
  -- encoding become writes without response on the path of the command characteristic, and no others,
  -- from whose bytes the node reads exactly the encodings, in order.
  pub send_each_over_bluez :
      (log : S → List Write)
      → ((path : List ℕ) (kind : String) (bytes : List ℕ) (s : S)
          → (bus.write_value path kind bytes s).0 ≡ ok tt)
      → ((path : List ℕ) (kind : String) (bytes : List ℕ) (s : S)
          → log (bus.write_value path kind bytes s).1 ≡ log s ++ ((path, (kind, bytes)) ∷ []))
      → (cmds : List Command) (c : Client) (closed : Bool) (s : S) → c.session.logged_in ≡ true
      → All Encodes cmds
      → IsLogged aes
          (ble_transport (link dyn bus sockets conn))
          (λ t. log t.1)
          (λ p. (conn.chars.cmd, ("command", p)))
          cmds
          c
          (closed, s)
  unfolding ble_transport write_command in_context link linux_char_io char_io_beside beside
      write_value
  send_each_over_bluez log accepts logs cmds c closed s logged encodes =
      send_each-IsLogged aes (ble_transport (link dyn bus sockets conn)) (λ t. log t.1)
        (λ p. (conn.chars.cmd, ("command", p)))
        (λ bytes t.
          ap (λ g. in_context (in_context g)) (accepts conn.chars.cmd "command" bytes t.1))
        (λ bytes t. logs conn.chars.cmd "command" bytes t.1) cmds c (closed, s) logged encodes
