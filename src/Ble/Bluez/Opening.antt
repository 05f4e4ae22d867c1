-- ===== src/Ble/Bluez/Opening.antt =====
-- ble/chario_linux.go: the raw socket of a subscription, and the handle that it listens for.
use pigsydust.Prelude.{ℕ, ◌+◌, ◌%◌, ◌^◌, ◌<◌, ◌≡◌, refl, arith, some}
use pigsydust.Prelude.Go.{Go, ok, err, panic, Error, context}
use pigsydust.Client.{Done}
use pigsydust.Ble.Dbus.{Dynamic, bluez_gatt_char_iface}
use pigsydust.Ble.Bluez.{Bus}
use pigsydust.Ble.Bluez.Char.{
  Sockets, hci_filter, bound, filtered, on_socket, open_hci_raw, listening,
}
use pigsydust.Ble.Bluez.Char.{with_handle, word, read_handle, subscribe}
use pigsydust.Prelude.{List}

module _ {S : Type 0} (sockets : Sockets S) where
  -- How opening the socket can end: without a socket, with its socket closed last, or with a socket
  -- that is handed out; or in a call that panics.
  pub data Opening (s : S) : Go ℕ × S → Type 0 where
    unopened : {e : Error} {t : S} → sockets.socket s ≡ (err e, t) → Opening s (err e, t)
    closed_again :
        {e : Error} {fd : ℕ} {t : S} (u : S)
        → sockets.socket s ≡ (ok fd, t)
        → Opening s (err (context e), sockets.close fd u)
    handed_out : {fd : ℕ} {t u : S} → sockets.socket s ≡ (ok fd, t) → Opening s (ok fd, u)
    crashed : {t : S} → Opening s (panic, t)

  bound-Opening :
      (s t : S) (fd : ℕ) (b : Go Done × S)
      → sockets.socket s ≡ (ok fd, t)
      → Opening s (bound sockets fd b)
  unfolding bound
  bound-Opening s t fd (ok done, u) e = handed_out e
  bound-Opening s t fd (err x, u) e = closed_again u e
  bound-Opening s t fd (panic, u) e = crashed

  filtered-Opening :
      (s t : S) (fd : ℕ) (b : Go Done × S)
      → sockets.socket s ≡ (ok fd, t)
      → Opening s (filtered sockets fd b)
  unfolding filtered
  filtered-Opening s t fd (ok done, u) e = bound-Opening s t fd (sockets.bind fd u) e
  filtered-Opening s t fd (err x, u) e = closed_again u e
  filtered-Opening s t fd (panic, u) e = crashed

  on_socket-Opening :
      (s : S) (o : Go ℕ × S) → sockets.socket s ≡ o → Opening s (on_socket sockets o)
  unfolding on_socket
  on_socket-Opening s (ok fd, t) e = filtered-Opening s t fd (sockets.set_filter fd hci_filter t) e
  on_socket-Opening s (err x, t) e = unopened e
  on_socket-Opening s (panic, t) e = crashed

  -- A raw socket that was opened and could not be filtered or bound is closed, last of all calls.
  pub open_hci_raw-Opening : (s : S) → Opening s (open_hci_raw sockets s)
  unfolding open_hci_raw
  open_hci_raw-Opening s = on_socket-Opening s (sockets.socket s) refl

  module _ {V B : Type 0} (dyn : Dynamic V B) (bus : Bus V S) where
    -- When BlueZ tells the handle `h` of a characteristic's declaration, below the highest one, and a
    -- socket is opened, the reader listens on it for the handle `h + 1`.
    pub subscribe_listens :
        (path : List ℕ) (s s1 s2 : S) (v : V) (h fd : ℕ)
        → bus.get_prop path bluez_gatt_char_iface "Handle" s ≡ (ok v, s1)
        → dyn.word_of v ≡ some h
        → h + 1 < 2 ^ 16
        → open_hci_raw sockets s1 ≡ (ok fd, s2)
        → subscribe dyn bus sockets path s ≡ (ok tt, sockets.spawn fd (h + 1) s2)
    unfolding subscribe read_handle word with_handle listening
    subscribe_listens path s s1 s2 v h fd told is_word small opens =
        rw (told, subscribe, word, is_word, with_handle, same, opens) refl
      where
        same : (h + 1) % 2 ^ 16 ≡ h + 1
        same = omega arith
