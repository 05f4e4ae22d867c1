-- ===== src/Programs/Smoke.antt =====
-- ble/cmd/smoke: the commands that the program sends, in order, and what it sends them by.
use pigsydust.Prelude.{ℕ, true, false, not, List, [], ◌∷◌, ◌++◌, Option, none, some}
use pigsydust.Prelude.Go.{Go, ok, err, panic}
use pigsydust.Prelude.Maps.{ℕ_key, get}
use pigsydust.Client.{Client, Transport, Done, send}
use pigsydust.Crypto.{Aes}
use pigsydust.Command.{Command}
use pigsydust.Command.Build.{on_off, set_utc, status_query}
use pigsydust.Notification.Payload.{DeviceStatus}
use pigsydust.Programs.Collect.{Statuses}

abbrev pub mudroom_addr : ℕ
mudroom_addr = 9

-- Before the statuses are looked at.
unfoldable pub opening : ℕ → List Command
opening now = set_utc now ∷ status_query ∷ on_off mudroom_addr true ∷ on_off mudroom_addr false ∷ []

-- After that: a toggle and its reversal, if the lamp has reported.
unfoldable pub closing : Option DeviceStatus → List Command
closing none = []
closing (some mudroom) = on_off mudroom_addr (not mudroom.on) ∷ on_off mudroom_addr mudroom.on ∷ []

-- A program sends its commands one after another; a send that fails ends it (`log.Fatalf`), and the
-- result tells whether all were sent.
module _ {T : Type 0} (aes : Aes) (transport : Transport T) where
  unfoldable pub send_each : List Command → Client → T → Go Done × (Client × T)
  send_each [] c t = (ok tt, (c, t))
  send_each (cmd ∷ cmds) c t =
      let sent = send aes transport cmd c t in
      let rest = send_each cmds sent.1.0 sent.1.1 in
      elim sent.0 [ ok done ↦ rest | err e ↦ (err e, sent.1) | panic ↦ (panic, sent.1) ]

  -- `statuses` is the map when the program looks at it.
  unfoldable pub smoke : ℕ → Statuses → Client → T → Go Done × (Client × T)
  smoke now statuses c t = send_each (opening now ++ closing (get mudroom_addr statuses)) c t
