-- ===== src/Programs/Pick.antt =====
-- The loop over the scan's results that all three programs share.
use pigsydust.Prelude.{Bool, ◌==◌, if◌then◌else◌, List, [], ◌∷◌, Option, none, some}
use pigsydust.Prelude.Int.{ltb_ℤ}
use pigsydust.Advertisement.{device_type_gateway}
use pigsydust.Ble.Discovery.{ScanResult}

unfoldable pub is_gateway : ScanResult → Bool
is_gateway r = r.advertisement.device_type == device_type_gateway

unfoldable pub stronger : Option ScanResult → ScanResult → Option ScanResult
stronger none r = some r
stronger (some best) r = if ltb_ℤ best.rssi r.rssi then some r else some best

-- The loop, left at a gateway.
unfoldable pub pick : Option ScanResult → List ScanResult → Option ScanResult
pick best [] = best
pick best (r ∷ results) =
    let rest = pick (stronger best r) results in if is_gateway r then some r else rest
