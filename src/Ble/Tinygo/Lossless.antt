-- ===== src/Ble/Tinygo/Lossless.antt =====
-- ble/scanner_tinygo.go: what a scan delivers, and when it can panic.
use pigsydust.Prelude.{
  ◌⊎◌, inl, inr, true, false, List, [], ◌∷◌, ◌++◌, append-nil, append_assoc, Option, none, some,
  as_list, ◌≡◌, refl, sym, ap, ◌∙◌, subst, arith,
}
use pigsydust.Ble.Scan.{ScanFilter}
use pigsydust.Ble.Tinygo.{RawResult, TinygoResult, parse_tinygo_scan_result, scan_results}
use pigsydust.Ble.Tinygo.Scanning.{
  ScanRun, fresh_run, Step, cancels, reports, scan_returns, sends, gives_up, stops, ends, receives,
  Reaches, here, there, Panics, sends_closed,
}

module _ {A : Type 0} (filter : ScanFilter) where
  scan_results-append :
      (raws : List (RawResult A)) (raw : RawResult A)
      → scan_results filter (raws ++ (raw ∷ []))
        ≡ scan_results filter raws ++ as_list (parse_tinygo_scan_result filter raw)
  unfolding scan_results
  scan_results-append [] raw = ground arith
  scan_results-append (x ∷ raws) raw = ground (arith, scan_results-append raws raw)

  grows :
      (xs queue : List (TinygoResult A)) (pending new : Option (TinygoResult A))
      → pending ≡ none
      → xs ++ (queue ++ as_list new) ≡ (xs ++ (queue ++ as_list pending)) ++ as_list new
  grows xs queue none new e =
      sym (append_assoc xs queue (as_list new))
      ∙ ap (λ l. (xs ++ l) ++ as_list new) (sym (append-nil queue))
  grows xs queue (some r) new e = absurd (ground arith)

  sent :
      (xs queue : List (TinygoResult A)) (pending : Option (TinygoResult A)) (r : TinygoResult A)
      → pending ≡ some r
      → xs ++ ((queue ++ (r ∷ [])) ++ []) ≡ xs ++ (queue ++ as_list pending)
  sent xs queue pending r e =
      ap (λ l. xs ++ l) (append-nil (queue ++ (r ∷ [])))
      ∙ ap (λ o. xs ++ (queue ++ as_list o)) (sym e)

  taken :
      (xs queue rest pending : List (TinygoResult A)) (r : TinygoResult A)
      → queue ≡ r ∷ rest
      → (xs ++ (r ∷ [])) ++ (rest ++ pending) ≡ xs ++ (queue ++ pending)
  taken xs queue rest pending r e =
      append_assoc xs (r ∷ []) (rest ++ pending) ∙ ap (λ l. xs ++ (l ++ pending)) (sym e)

  -- The results in flight, in order.
  abbrev in_flight : ScanRun A → List (TinygoResult A)
  in_flight s = s.received ++ (s.queue ++ as_list s.pending)

  -- The channel is closed by the goroutine only, behind the context's end or the return of the stack's
  -- `Scan`; and until the context is done nothing is lost.
  pub record IsOrderly (s : ScanRun A) : Type 0 where
    pub closed_behind :
        s.closed ≡ true → (s.cancelled ≡ true) ⊎ ((s.scanning ≡ false) × (s.pending ≡ none))
    pub lossless : s.cancelled ≡ false → in_flight s ≡ scan_results filter s.reported
    pub idle : s.scanning ≡ false → s.pending ≡ none

  Step-IsOrderly : {s t : ScanRun A} → Step filter s t → IsOrderly s → IsOrderly t
  Step-IsOrderly (cancels s) h = record {
    closed_behind = λ e. inl refl;
    lossless = λ e. absurd (ground arith);
    idle = h.idle;
  }
  Step-IsOrderly (reports s raw scans idle) h = record {
    closed_behind = λ e. still (h.closed_behind e);
    lossless = λ e.
        grows s.received s.queue s.pending _ idle
        ∙ ap (λ l. l ++ as_list (parse_tinygo_scan_result filter raw)) (h.lossless e)
        ∙ sym (scan_results-append s.reported raw);
    idle = λ e. absurd (ground arith);
  }
    where
      still :
          (s.cancelled ≡ true) ⊎ ((s.scanning ≡ false) × (s.pending ≡ none))
          → (s.cancelled ≡ true)
            ⊎ ((s.scanning ≡ false) × (parse_tinygo_scan_result filter raw ≡ none))
      still (inl done) = inl done
      still (inr (returned, none_waits)) = absurd (ground arith)
  Step-IsOrderly (scan_returns s scans idle) h = record {
    closed_behind = λ e. inr (refl, idle);
    lossless = h.lossless;
    idle = λ e. idle;
  }
  Step-IsOrderly (sends s r waits unclosed room) h = record {
    closed_behind = λ e. absurd (ground arith);
    lossless = λ e. sent s.received s.queue s.pending r waits ∙ h.lossless e;
    idle = λ e. refl;
  }
  Step-IsOrderly (gives_up s r waits done) h = record {
    closed_behind = λ e. inl done;
    lossless = λ e. absurd (ground arith);
    idle = λ e. refl;
  }
  Step-IsOrderly (stops s waits done) h = record {
    closed_behind = λ e. inl done;
    lossless = h.lossless;
    idle = h.idle;
  }
  Step-IsOrderly (ends s waits returned) h = record {
    closed_behind = λ e. inr (returned, h.idle returned);
    lossless = h.lossless;
    idle = h.idle;
  }
  Step-IsOrderly (receives s r rest queued) h = record {
    closed_behind = h.closed_behind;
    lossless = λ e. taken s.received s.queue rest (as_list s.pending) r queued ∙ h.lossless e;
    idle = h.idle;
  }

  Reaches-IsOrderly : {t : ScanRun A} → Reaches filter fresh_run t → IsOrderly t
  Reaches-IsOrderly run = from run refl
    where
      from : {s t : ScanRun A} → Reaches filter s t → s ≡ fresh_run → IsOrderly t
      from (here s) e = subst IsOrderly (sym e) (record {
        closed_behind = λ c. absurd (ground arith);
        lossless = λ c. unfold scan_results in refl;
        idle = λ c. refl;
      })
      from (there run step) e = Step-IsOrderly step (from run e)

  -- While the context of a scan is not done, whatever the stack, the goroutines and the user do: what
  -- the user has got, what stands in the channel and what the callback waits to send are together, in
  -- order, exactly the results that the stack's reports parse to; and the scan does not panic.
  pub Reaches-lossless :
      {t : ScanRun A}
      → Reaches filter fresh_run t
      → t.cancelled ≡ false
      → (t.received ++ (t.queue ++ as_list t.pending) ≡ scan_results filter t.reported)
        × (¬ Panics t)
  Reaches-lossless run going = let h = Reaches-IsOrderly run in (h.lossless going, calm h going)
    where
      clash :
          (s : ScanRun A) (r : TinygoResult A)
          → s.pending ≡ some r
          → s.cancelled ≡ false
          → ¬ ((s.cancelled ≡ true) ⊎ ((s.scanning ≡ false) × (s.pending ≡ none)))
      clash s r waits going (inl done) = absurd (ground arith)
      clash s r waits going (inr (returned, idle)) = absurd (ground arith)

      calm : {s : ScanRun A} → IsOrderly s → s.cancelled ≡ false → ¬ Panics s
      calm h going (sends_closed s r waits shut) = clash s r waits going (h.closed_behind shut)

  -- When the context of a scan ends while the stack scans, and a device that the filter lets through is
  -- reported before the goroutine has come to its end, the goroutine can close the channel before the
  -- callback sends on it: then the program can panic.
  pub scan_crashes :
      (s : ScanRun A) (raw : RawResult A) (r : TinygoResult A)
      → s.scanning ≡ true
      → s.waiting ≡ true
      → s.pending ≡ none
      → parse_tinygo_scan_result filter raw ≡ some r
      → (t : ScanRun A) × (Reaches filter s t × Panics t)
  scan_crashes s raw r scans waits idle matches = (
    _,
    (
      there (there (there (here s) (cancels s)) (reports _ raw scans idle)) (stops _ waits refl),
      sends_closed _ r matches refl,
    ),
  )
