-- ===== src/Programs/OverBluez.antt =====
-- ble/cmd/smoke-linux over ble/chario_linux.go and ble/adapter_linux.go: a run on the system bus.
use Prim.Native.String.{String}
use pigsydust.Prelude.{
  ℕ, ◌+◌, ◌%◌, ◌^◌, ◌≤◌, Bool, true, false, bytes_eq, List, [], ◌∷◌, ◌++◌, length, none, some, ◌≡◌,
  refl, sym, ap, ◌∙◌,
}
use pigsydust.Prelude.Go.{Go, ok}
use pigsydust.Crypto.{Aes}
use pigsydust.Crypto.Login.{login_response_tag_byte, derive_session_key}
use pigsydust.Client.Stream.{Report, Traffic}
use pigsydust.Ble.Link.{in_context, close}
use pigsydust.Ble.Adapter.{Adapter, scan}
use pigsydust.Ble.Discovery.{ScanResult}
use pigsydust.Ble.Dbus.{Dynamic, bluez_gatt_char_iface}
use pigsydust.Ble.Bluez.{Bus}
use pigsydust.Ble.Bluez.Connect.{BluezConnection, close_conn, disconnect_method}
use pigsydust.Ble.Bluez.Char.{
  Sockets, link, closer, linux_char_io, char_io_beside, beside, write_value, read_value, subscribe,
  read_handle, word, with_handle, listening, open_hci_raw,
}
use pigsydust.Programs.Pick.{pick}
use pigsydust.Programs.Start.{connect_stopped, mesh_filter}
use pigsydust.Programs.Answered.{settings_of}
use pigsydust.Programs.Runs.{smoke_linux}
use pigsydust.Programs.Counted.{begun, smoke_linux_ends}
use pigsydust.Programs.Kept.{start_keeps}
use pigsydust.Programs.Session.{Opened}
use pigsydust.Programs.Arrives.{node_reads}
use pigsydust.Command.{encode}
use pigsydust.Command.Build.{set_utc}

module _ {V S : Type 0} (bus : Bus V S) (conn : BluezConnection) where
  -- The state behind a write of the clock's packet and the call that disconnects.
  abbrev pub hung_up : List ℕ → S → Bool × S
  hung_up packet s = (
    true,
    (bus.call disconnect_method conn.device
        (bus.write_value conn.chars.cmd "command" packet s).1).1,
  )

module _ {V B S : Type 0} (aes : Aes) (dyn : Dynamic V B) (bus : Bus V S) (sockets : Sockets S)
    (conn : BluezConnection) where
  subscribes :
      (v : V) (h fd : ℕ)
      → dyn.word_of v ≡ some h
      → ((s : S) → (bus.get_prop conn.chars.notify bluez_gatt_char_iface "Handle" s).0 ≡ ok v)
      → ((s : S) → (open_hci_raw sockets s).0 ≡ ok fd)
      → (s : S) → (subscribe dyn bus sockets conn.chars.notify s).0 ≡ ok tt
  unfolding subscribe read_handle word with_handle listening
  subscribes v h fd is_word told opens s =
      ap (λ g. (with_handle sockets (word dyn g) after_handle).0) (told s)
      ∙ ap (λ g. (with_handle sockets g after_handle).0) is_handle
      ∙ ap
          (λ g. (listening sockets ((h + 1) % 2 ^ 16) (g, (open_hci_raw sockets after_handle).1)).0)
          (opens after_handle)
    where
      after_handle : S
      after_handle = (bus.get_prop conn.chars.notify bluez_gatt_char_iface "Handle" s).1

      is_handle : word dyn (ok v) ≡ ok h
      is_handle = rw (word, is_word) refl

  -- Over a bus that accepts every write, reads the node's answer to the login and tells the handle of
  -- the notifications, on a host that opens raw sockets, and with a scan in which a node is picked that
  -- can be connected to, smoke-linux comes to its end: it reports exactly as many notifications as nodes
  -- sealed for its session among the packets that arrive, and the state that it ends in is that of two
  -- calls on the bus: the write of a packet, from which the node reads the time, to the command
  -- characteristic, and last of all the call that disconnects the device, with the connection closed.
  pub smoke_linux_over_bluez :
      (rand_b rest : List ℕ) (v : V) (h fd : ℕ) (name password rand_a salt : List ℕ) (now : ℕ)
      (new_adapter : Bool × S → Go (Adapter (Bool × S)) × (Bool × S)) (a : Adapter (Bool × S))
      (results : List ScanResult) (r : ScanResult) (t t1 t2 : Bool × S) (s3 : S)
      {packets : List (List ℕ)} {reports : List Report}
      → length rand_b ≡ 8
      → 8 ≤ length rest
      → ((path : List ℕ) (kind : String) (bytes : List ℕ) (s : S)
          → (bus.write_value path kind bytes s).0 ≡ ok tt)
      → ((s : S)
          → (bus.read_value conn.chars.pair s).0 ≡ ok (login_response_tag_byte ∷ (rand_b ++ rest)))
      → dyn.word_of v ≡ some h
      → ((s : S) → (bus.get_prop conn.chars.notify bluez_gatt_char_iface "Handle" s).0 ≡ ok v)
      → ((s : S) → (open_hci_raw sockets s).0 ≡ ok fd)
      → bytes_eq password [] ≡ false
      → new_adapter t ≡ (ok a, t1)
      → scan a (mesh_filter name) t1 ≡ (ok results, t2)
      → pick none results ≡ some r
      → connect_stopped a r t2 ≡ (ok (link dyn bus sockets conn), (false, s3))
      → Traffic aes (derive_session_key aes name password rand_a rand_b) conn.gw_mac packets reports
      → (packet : List ℕ) × (s : S) × (node_reads aes
            (derive_session_key aes name password rand_a rand_b)
            conn.gw_mac
            packet
          ≡ encode (set_utc now))
        × (smoke_linux aes new_adapter (settings_of name password rand_a salt now) packets t
            ≡ (ok (length reports), hung_up bus conn packet s))
  unfolding link linux_char_io char_io_beside beside write_value read_value in_context close closer
      close_conn
  smoke_linux_over_bluez rand_b rest v h fd name password rand_a salt now new_adapter a results r t
        t1 t2 s3 eight long accepts answers is_word told opens given made scanned picked reached
        traffic =
      let over = link dyn bus sockets conn in
      let pairs : (b : List ℕ) (t : Bool × S) → (over.char_pair.write_request b t).0 ≡ ok tt =
        λ b t. ap in_context (accepts conn.chars.pair "request" b t.1) in
      let reads : (t : Bool × S)
          → (over.char_pair.read t).0 ≡ ok (login_response_tag_byte ∷ (rand_b ++ rest)) =
        λ t. ap in_context (answers t.1) in
      let arms : (t : Bool × S) → (over.char_notify.subscribe t).0 ≡ ok tt =
        λ t. subscribes v h fd is_word told opens t.1 in
      let kicks : (b : List ℕ) (t : Bool × S) → (over.char_notify.write_request b t).0 ≡ ok tt =
        λ b t. ap in_context (accepts conn.chars.notify "request" b t.1) in
      let commands : (b : List ℕ) (t : Bool × S) → (over.char_cmd.write_command b t).0 ≡ ok tt =
        λ b t. ap in_context (accepts conn.chars.cmd "command" b t.1) in
      let (packet, (u, (opened, (read, started)))) =
        begun aes over rand_b rest eight long pairs reads arms kicks commands name password rand_a
          salt now connect_stopped new_adapter a results r t t1 t2 (false, s3) given made scanned
          picked reached in
      let still_open : u.0 ≡ false =
        ap (λ (o : Opened (Bool × S)). o.1.0) (sym opened)
        ∙ start_keeps aes over (λ t. t.0 ≡ false) (λ b t e. e) (λ t e. e) (λ t e. e) (λ b t e. e)
            connect_stopped rand_a salt name password now new_adapter a results r t t1 t2
            (false, s3) given made scanned picked reached refl in
      (
        packet,
        u.1,
        read,
        smoke_linux_ends aes over rand_b rest eight long pairs reads arms kicks commands name
              password rand_a salt now new_adapter t _ started traffic
            ∙ rw still_open refl,
      )
