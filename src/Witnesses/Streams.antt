-- ===== src/Witnesses/Streams.antt =====
-- The theorems about the streams of packets and notifications at concrete inputs.
use pigsydust.Prelude.{ℕ, ◌+◌, ◌≤◌, ◌⊎◌, true, List, [], ◌∷◌, map, none, ◌≡◌, refl, arith}
use pigsydust.Client.{pump}
use pigsydust.Client.Stream.{Report, packet_of, delivered, quiet, genuine}
use pigsydust.Client.Delivery.{Pipe, fresh_pipe, decoded, Reaches, here, there, delivers, takes}
use pigsydust.Client.Delivered.{IsFaithful, Reaches-IsFaithful}
use pigsydust.Client.Drain.{due, work, steps, CanGoOn, IsDone, closed_drains}
use pigsydust.Byteutil.{zeros}
use pigsydust.Ble.Scan.{hci_notification}
use pigsydust.Ble.Bluez.Hci.{no_input, frame, room, full, hci_loop}
use pigsydust.Ble.Bluez.Heard.{att_frame, silence, timed_out, other, sent, pump-hci_loop}
use pigsydust.Witnesses.Data.{toy, key_bytes, gateway}

abbrev report : Report
report = record {
  sno = 1 ∷ 2 ∷ 3 ∷ [];
  origin = 0x30;
  opcode = 0xDB;
  vendor_low = 0x11;
  vendor_high = 0x02;
  payload = zeros 10;
  sno_length = refl;
  payload_length = refl;
  origin_range = omega arith;
}

abbrev packet : List ℕ
packet = packet_of toy key_bytes gateway report

other_frame : hci_notification 0x0A (2 ∷ 0 ∷ []) ≡ none
unfolding hci_notification
other_frame = refl

pump-hci_loop_example :
    pump toy key_bytes gateway
      (hci_loop 0x0A (
        no_input
        ∷ frame (2 ∷ 0 ∷ []) full
        ∷ frame (att_frame (0x40, 0x20) ((27, 0), (23, 0)) 0x0A packet) room
        ∷ [])).packets
    ≡ map delivered (report ∷ [])
pump-hci_loop_example =
    pump-hci_loop toy key_bytes gateway 0x0A
      (timed_out
        (other (2 ∷ 0 ∷ []) full other_frame (sent (0x40, 0x20) ((27, 0), (23, 0)) packet silence)))
      (genuine report quiet)

-- A packet arrives and is taken.
abbrev arrived : Pipe
arrived = record fresh_pipe { raw = packet ∷ [] }

abbrev taken : Pipe
taken = record arrived {
  raw = [];
  pending = decoded toy key_bytes gateway packet;
  taken = packet ∷ [];
}

Reaches-IsFaithful_example : IsFaithful toy key_bytes gateway taken
Reaches-IsFaithful_example = Reaches-IsFaithful toy key_bytes gateway (
    there (delivers fresh_pipe packet refl)
      (there (takes arrived packet [] refl refl refl) (here taken)))

abbrev shut : Pipe
shut = record arrived { raw_closed = true }

-- After its one packet is taken, the run has at most two steps more, and can go on.
abbrev emptied : Pipe
emptied = record shut {
  raw = [];
  pending = decoded toy key_bytes gateway packet;
  taken = packet ∷ [];
}

abbrev one_step : Reaches toy key_bytes gateway shut emptied
one_step = there (takes shut packet [] refl refl refl) (here emptied)

closed_drains_example :
    (steps toy key_bytes gateway one_step + work toy key_bytes gateway emptied
      ≤ work toy key_bytes gateway shut)
    × ((due toy key_bytes gateway emptied ≡ due toy key_bytes gateway shut)
        × (CanGoOn toy key_bytes gateway emptied
            ⊎ IsDone toy key_bytes gateway emptied (due toy key_bytes gateway shut)))
closed_drains_example = closed_drains toy key_bytes gateway one_step refl refl refl
