-- ===== src/Ble/Bluez/Balance.antt =====
-- ble/scanner_linux.go: the rules for signals that are in force after a scan.
use Prim.Native.String.{String}
use pigsydust.Prelude.{
  ℕ, ◌+◌, ◌-◌, ◌≡◌, refl, sym, subst, ap, arith, Bool, true, false, List, [], ◌∷◌,
}
use pigsydust.Prelude.{Option}
use pigsydust.Prelude.Go.{Go, ok, err, panic, Error, context}
use pigsydust.Client.{Done}
use pigsydust.Ble.Scan.{ScanFilter}
use pigsydust.Ble.Uuid.{service_uuid, uuid_string}
use pigsydust.Ble.Dbus.{Dynamic, Signal}
use pigsydust.Ble.Bluez.{Bus, Rule, new_objects, all_changes, get_managed_objects, stop_scan}
use pigsydust.Ble.Bluez.Scanning.{
  rules, when_added, add_matches, remove_matches, after_filter, start_scan, end_scan, run_scan,
  succeeded, start_discovery_method,
}

-- What the bus documents of its rules: `in_force` counts the rules, each by its `weight`, so that a
-- weight of 1 for one rule and 0 for the others counts that rule. A rule that is added counts, one that
-- could not be added does not, a removed one counts no more, and no other call changes the count.
pub record Counts {V S : Type 0} (bus : Bus V S) (weight : Rule → ℕ) (in_force : S → ℕ)
    : Type 0 where
  pub added :
      (r : Rule) (s t : S) → bus.add_match r s ≡ (ok tt, t) → in_force t ≡ in_force s + weight r
  pub refused :
      (r : Rule) (e : Error) (s t : S) → bus.add_match r s ≡ (err e, t) → in_force t ≡ in_force s
  pub removed : (r : Rule) (s : S) → in_force (bus.remove_match r s) ≡ in_force s - weight r
  pub filtered :
      (path : List ℕ) (uuids : List (List ℕ)) (s : S)
      → in_force (bus.set_discovery_filter path uuids s).1 ≡ in_force s
  pub called :
      (method : String) (path : List ℕ) (s : S) → in_force (bus.call method path s).1 ≡ in_force s
  pub listed : (s : S) → in_force (bus.managed_call s).1 ≡ in_force s

-- Only a value is a value.
abbrev IsOk : Go Done → Type 0
IsOk (ok done) = Unit
IsOk (err e) = ⊥
IsOk panic = ⊥

when_added_ok :
    {S : Type 0} (a : Go Done × S) (rest : S → Go Done × S) (t : S)
    → when_added a rest ≡ (ok tt, t)
    → (u : S) × (a ≡ (ok tt, u)) × (rest u ≡ (ok tt, t))
unfolding when_added
when_added_ok (ok done, u) rest t e = (u, refl, e)
when_added_ok (err x, u) rest t e = absurd (subst (λ o. IsOk o.0) (sym e) tt)
when_added_ok (panic, u) rest t e = absurd (subst (λ o. IsOk o.0) (sym e) tt)

module _ {V B S : Type 0} (dyn : Dynamic V B) (bus : Bus V S) (weight : Rule → ℕ) (in_force : S → ℕ)
    (counts : Counts bus weight in_force) where
  abbrev total : List Rule → ℕ
  total [] = 0
  total (r ∷ rest) = weight r + total rest

  added_counts :
      (more : List Rule) (s t : S)
      → add_matches bus more s ≡ (ok tt, t)
      → in_force t ≡ in_force s + total more
  unfolding add_matches
  added_counts [] s t e = omega (arith, ap (λ r. in_force r.1) e)
  added_counts (r ∷ more) s t e =
      let (u, first, rest) = when_added_ok (bus.add_match r s) (add_matches bus more) t e in
      omega (arith, counts.added r s u first, added_counts more u t rest)

  removed_counts :
      (more : List Rule) (s : S) → in_force (remove_matches bus more s) ≡ in_force s - total more
  unfolding remove_matches
  removed_counts [] s = omega arith
  removed_counts (r ∷ more) s =
      omega (arith, removed_counts more (bus.remove_match r s), counts.removed r s)

  end_scan_counts :
      (adapter_path : List ℕ) (started : Bool) (s : S)
      → in_force (end_scan bus adapter_path started s) ≡ in_force s - total rules
  unfolding end_scan stop_scan
  end_scan_counts adapter_path true s = omega (
    arith,
    removed_counts rules (stop_scan bus adapter_path s).1,
    counts.called "org.bluez.Adapter1.StopDiscovery" adapter_path s,
  )
  end_scan_counts adapter_path false s = removed_counts rules s

  after_filter_ok :
      (a : Go Done × S) (t : S)
      → after_filter bus a ≡ (ok tt, t)
      → (u : S) × (a ≡ (ok tt, u)) × (add_matches bus rules u ≡ (ok tt, t))
  unfolding after_filter
  after_filter_ok (ok done, u) t e = (u, refl, e)
  after_filter_ok (err x, u) t e = absurd (subst (λ o. IsOk o.0) (sym e) tt)
  after_filter_ok (panic, u) t e = absurd (subst (λ o. IsOk o.0) (sym e) tt)

  start_scan_counts :
      (adapter_path : List ℕ) (s t : S)
      → start_scan bus adapter_path s ≡ (ok tt, t)
      → in_force t ≡ in_force s + total rules
  unfolding start_scan
  start_scan_counts adapter_path s t e =
      let filter = bus.set_discovery_filter adapter_path (uuid_string service_uuid ∷ []) s in
      let (u, set, added) = after_filter_ok filter t e in
      omega (
        arith,
        counts.filtered adapter_path (uuid_string service_uuid ∷ []) s,
        ap (λ r. in_force r.1) set,
        added_counts rules u t added,
      )

  -- A scan that starts and ends leaves the rules in force as they were before it, whatever signals
  -- came and whether or not the discovery could be started.
  pub run_scan_restores :
      (filter : ScanFilter) (adapter_path : List ℕ) (signals : List (Option (Signal B))) (s t : S)
      → start_scan bus adapter_path s ≡ (ok tt, t)
      → in_force (run_scan dyn bus filter adapter_path signals t).1 ≡ in_force s
  unfolding run_scan get_managed_objects
  run_scan_restores filter adapter_path signals s t e =
      let objs = get_managed_objects bus t in
      let start = bus.call start_discovery_method adapter_path objs.1 in
      omega (
        arith,
        start_scan_counts adapter_path s t e,
        counts.listed t,
        counts.called start_discovery_method adapter_path objs.1,
        end_scan_counts adapter_path (succeeded start.0) start.1,
      )

  -- When the second of the two rules cannot be added, the scan fails and the first stays in force.
  pub start_scan_leaves_one :
      (adapter_path : List ℕ) (s s1 s2 s3 : S) (e : Error)
      → bus.set_discovery_filter adapter_path (uuid_string service_uuid ∷ []) s ≡ (ok tt, s1)
      → bus.add_match new_objects s1 ≡ (ok tt, s2)
      → bus.add_match all_changes s2 ≡ (err e, s3)
      → (start_scan bus adapter_path s ≡ (err (context e), s3))
        × (in_force s3 ≡ in_force s + weight new_objects)
  unfolding start_scan after_filter add_matches when_added
  start_scan_leaves_one adapter_path s s1 s2 s3 e set first second = (
    rw (set, start_scan, first, start_scan, second) refl,
    omega (
      arith,
      counts.refused all_changes e s2 s3 second,
      counts.added new_objects s1 s2 first,
      ap (λ r. in_force r.1) set,
      counts.filtered adapter_path (uuid_string service_uuid ∷ []) s,
    ),
  )
