-- ===== src/Witnesses/Scans.antt =====
-- A scan over a toy bus that counts the rules in force.
use pigsydust.Prelude.{ℕ, ◌+◌, ◌-◌, ◌≡◌, refl, sym, ap, arith, true, [], ◌∷◌, none}
use pigsydust.Prelude.Go.{Go, ok, err, Error}
use pigsydust.Client.{Done}
use pigsydust.Ble.Bluez.{Bus}
use pigsydust.Ble.Bluez.Scanning.{start_scan, after_filter, add_matches, when_added, run_scan}
use pigsydust.Ble.Bluez.Balance.{Counts, run_scan_restores}
use pigsydust.Witnesses.Values.{Value, flag, dyn, anything}

abbrev ruled : Bus Value ℕ
ruled = record {
  call = λ method path s. (ok tt, s);
  get_prop = λ path iface key s. (ok (flag true), s);
  set_powered = λ path s. (ok tt, s);
  managed_call = λ s. (ok [], s);
  add_match = λ rule s. (ok tt, s + 1);
  remove_match = λ rule s. s - 1;
  set_discovery_filter = λ path uuids s. (ok tt, s);
  write_value = λ path kind bytes s. (ok tt, s);
  read_value = λ path s. (ok [], s);
}

ruled-Counts : Counts ruled (λ rule. 1) (λ s. s)
ruled-Counts = record {
  added = λ r s t e. ap (λ a. a.1) (sym e);
  refused = λ r x s t e. absurd (never x (ap (λ a. a.0) e));
  removed = λ r s. refl;
  filtered = λ path uuids s. refl;
  called = λ method path s. refl;
  listed = λ s. refl;
}
  where
    never : (x : Error) → ¬ (◌≡◌ {A = Go Done} (ok tt) (err x))
    never x e = ground arith

-- Five rules of others are in force before the scan and after it.
run_scan_restores_example : (run_scan dyn ruled anything (b'/' ∷ []) (none ∷ []) 7).1 ≡ 5
unfolding start_scan after_filter add_matches when_added
run_scan_restores_example =
    run_scan_restores dyn ruled (λ rule. 1) (λ s. s) ruled-Counts anything (b'/' ∷ []) (none ∷ []) 5
      7 refl
