-- ===== src/Programs/Reported.antt =====
-- ble/cmd/smoke: what a run with a node that answers comes to.
use pigsydust.Prelude.Go.{Go}
use pigsydust.Prelude.Maps.{ℕ_key}
use pigsydust.Command.{Command}
use pigsydust.Client.{Client}
use pigsydust.Client.Stream.{Report}
use pigsydust.Notification.{Notification}
use pigsydust.Ble.Adapter.{Adapter}
