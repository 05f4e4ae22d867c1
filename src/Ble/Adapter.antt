-- ===== src/Ble/Adapter.antt =====
-- ble/types.go: the adapter as the programs use it. The interface is filled by a platform, and `T` is
-- the state of the host's stack; the address of a result is the Linux one.
use pigsydust.Prelude.{List}
use pigsydust.Prelude.Go.{Go}
use pigsydust.Client.{Done}
use pigsydust.Ble.Scan.{ScanFilter}
use pigsydust.Ble.Discovery.{ScanResult}
use pigsydust.Ble.Link.{Connection}

-- A scan answers with the results that its channel delivers until the caller leaves the loop over
-- them; `connect` takes the advertisement and the address of a result.
pub record AdapterImpl (T : Type 0) : Type 0 where
  pub scan : ScanFilter → T → Go (List ScanResult) × T
  pub stop_scan : T → Go Done × T
  pub connect : ScanResult → T → Go (Connection T) × T

pub record Adapter (T : Type 0) : Type 0 where
  pub impl : AdapterImpl T

module _ {T : Type 0} where
  unfoldable pub scan : Adapter T → ScanFilter → T → Go (List ScanResult) × T
  scan a filter t = a.impl.scan filter t

  unfoldable pub stop_scan : Adapter T → T → Go Done × T
  stop_scan a t = a.impl.stop_scan t

  unfoldable pub connect : Adapter T → ScanResult → T → Go (Connection T) × T
  connect a r t = a.impl.connect r t
