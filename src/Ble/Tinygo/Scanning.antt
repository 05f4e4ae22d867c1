-- ===== src/Ble/Tinygo/Scanning.antt =====
-- ble/scanner_tinygo.go: a scan with its two goroutines, the callback's channel and the context, as a
-- step relation.
use pigsydust.Prelude.{
  ℕ, ◌<◌, Bool, true, false, List, [], ◌∷◌, ◌++◌, length, Option, none, some, ◌≡◌,
}
use pigsydust.Ble.Scan.{ScanFilter}
use pigsydust.Ble.Tinygo.{RawResult, TinygoResult, parse_tinygo_scan_result}

-- `make(chan ScanResult, 16)`
abbrev pub channel_size : ℕ
channel_size = 16

-- `pending` is the result that the callback waits to send, and `queue` what stands in the channel;
-- `scanning` tells that the stack's `Scan` has not returned, so that it may call the callback again,
-- `waiting` that the goroutine waits for one of its two ends. `reported` and `received` record what the
-- stack has reported, and what the scan's user has got.
pub record ScanRun (A : Type 0) : Type 0 where
  pub cancelled : Bool
  pub scanning : Bool
  pub waiting : Bool
  pub closed : Bool
  pub stop_called : Bool
  pub pending : Option (TinygoResult A)
  pub queue : List (TinygoResult A)
  pub reported : List (RawResult A)
  pub received : List (TinygoResult A)

module _ {A : Type 0} where
  -- A scan that has just been started.
  abbrev pub fresh_run : ScanRun A
  fresh_run = record {
    cancelled = false;
    scanning = true;
    waiting = true;
    closed = false;
    stop_called = false;
    pending = none;
    queue = [];
    reported = [];
    received = [];
  }

  pub data Step (filter : ScanFilter) : ScanRun A → ScanRun A → Type 0 where
    -- the context
    cancels : (s : ScanRun A) → Step filter s (record s { cancelled = true })
    -- the stack: it calls the callback with a result, or its `Scan` returns
    reports :
        (s : ScanRun A) (raw : RawResult A)
        → s.scanning ≡ true
        → s.pending ≡ none
        → Step filter s (record s {
          pending = parse_tinygo_scan_result filter raw;
          reported = s.reported ++ (raw ∷ []);
        })
    scan_returns :
        (s : ScanRun A)
        → s.scanning ≡ true
        → s.pending ≡ none
        → Step filter s (record s { scanning = false })
    -- the callback's `select`
    sends :
        (s : ScanRun A) (r : TinygoResult A)
        → s.pending ≡ some r
        → s.closed ≡ false
        → length s.queue < channel_size
        → Step filter s (record s { pending = none; queue = s.queue ++ (r ∷ []) })
    gives_up :
        (s : ScanRun A) (r : TinygoResult A)
        → s.pending ≡ some r
        → s.cancelled ≡ true
        → Step filter s (record s { pending = none })
    -- the goroutine's `select`, and its deferred close of the channel
    stops :
        (s : ScanRun A)
        → s.waiting ≡ true
        → s.cancelled ≡ true
        → Step filter s (record s { waiting = false; stop_called = true; closed = true })
    ends :
        (s : ScanRun A)
        → s.waiting ≡ true
        → s.scanning ≡ false
        → Step filter s (record s { waiting = false; closed = true })
    -- the scan's user
    receives :
        (s : ScanRun A) (r : TinygoResult A) (rest : List (TinygoResult A))
        → s.queue ≡ r ∷ rest
        → Step filter s (record s { queue = rest; received = s.received ++ (r ∷ []) })

  -- What follows by any number of steps.
  pub data Reaches (filter : ScanFilter) : ScanRun A → ScanRun A → Type 0 where
    here : (s : ScanRun A) → Reaches filter s s
    there : {s t u : ScanRun A} → Reaches filter s t → Step filter t u → Reaches filter s u

  -- The callback's `select` can take the send on a channel that is closed, which panics.
  pub data Panics : ScanRun A → Type 0 where
    sends_closed :
        (s : ScanRun A) (r : TinygoResult A) → s.pending ≡ some r → s.closed ≡ true → Panics s
