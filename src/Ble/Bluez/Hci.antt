-- ===== src/Ble/Bluez/Hci.antt =====
-- ble/chario_linux.go, readHCINotifications: the loop that reads frames from the raw socket.
use pigsydust.Prelude.{ℕ, Bool, true, false, if◌then◌else◌, List, [], ◌∷◌, Option, none, some}
use pigsydust.Ble.Scan.{hci_notification}

-- What a round of the loop meets: the context is done; poll is interrupted, fails, or ends without
-- input; the read is to be tried again, fails, or gives a frame. A packet to forward then finds the
-- context done, no room in the channel, or room.
pub data Sending : Type 0 where
  room full done : Sending

pub data Round : Type 0 where
  context_done interrupted poll_failed no_input read_again read_failed : Round
  frame : List ℕ → Sending → Round

-- What the loop forwards, and whether it has ended.
pub record Forwarded : Type 0 where
  pub packets : List (List ℕ)
  pub ended : Bool

abbrev pub halted : Forwarded
halted = record { packets = []; ended = true }

unfoldable pub forward : Option (List ℕ) → Sending → Forwarded → Forwarded
forward none sending rest = rest
forward (some packet) room rest = record { packets = packet ∷ rest.packets; ended = rest.ended }
forward (some packet) full rest = rest
forward (some packet) done rest = halted

unfoldable pub hci_loop : ℕ → List Round → Forwarded
hci_loop value_handle [] = record { packets = []; ended = false }
hci_loop value_handle (context_done ∷ rounds) = halted
hci_loop value_handle (interrupted ∷ rounds) = hci_loop value_handle rounds
hci_loop value_handle (poll_failed ∷ rounds) = halted
hci_loop value_handle (no_input ∷ rounds) = hci_loop value_handle rounds
hci_loop value_handle (read_again ∷ rounds) = hci_loop value_handle rounds
hci_loop value_handle (read_failed ∷ rounds) = halted
hci_loop value_handle (frame buf sending ∷ rounds) =
    forward (hci_notification value_handle buf) sending (hci_loop value_handle rounds)

-- `readHCINotifications`: nothing is read when the socket cannot be made non-blocking.
unfoldable pub read_hci_notifications : Bool → ℕ → List Round → Forwarded
read_hci_notifications nonblocking value_handle rounds =
    if nonblocking then hci_loop value_handle rounds else halted
