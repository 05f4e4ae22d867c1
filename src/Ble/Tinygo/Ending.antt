-- ===== src/Ble/Tinygo/Ending.antt =====
-- ble/adapter_tinygo.go: how an attempt to connect ends.
use pigsydust.Prelude.{ℕ, List, [], ◌∷◌}
use pigsydust.Prelude.{◌≡◌, refl}
use pigsydust.Prelude.Go.{Go, ok, err, panic, Error, context}
use pigsydust.Ble.Tinygo.Connect.{
  Stack, TinygoConnection, enriched, enrich_mac_from_dis, give_up, with_chars, with_services,
  with_device, connect,
}

module _ {A D V C U S : Type 0} (stack : Stack A D V C U S) where
  -- How connecting can end: the device was not reached, or it was and is disconnected last of all, or
  -- a connection is handed out; or a call panics.
  pub data Ending (address : A) (s : S) : Go (TinygoConnection D C) × S → Type 0 where
    unreached :
        {e : Error} {t : S}
        → stack.connect address s ≡ (err e, t)
        → Ending address s (err (context e), t)
    released :
        {e : Error} {device : D} {u : S} (t : S)
        → stack.connect address s ≡ (ok device, u)
        → Ending address s (err e, (stack.disconnect device t).1)
    handed_out : {conn : TinygoConnection D C} {t : S} → Ending address s (ok conn, t)
    crashed : {t : S} → Ending address s (panic, t)

  enriched-Ending :
      (address : A) (s : S) (conn : TinygoConnection D C) (r : Go (List ℕ) × S)
      → Ending address s (enriched stack conn r)
  unfolding enriched
  enriched-Ending address s conn (ok text, t) = handed_out
  enriched-Ending address s conn (err e, t) = handed_out
  enriched-Ending address s conn (panic, t) = crashed

  with_chars-Ending :
      (mac : List ℕ) (address : A) (device : D) (s u : S) (r : Go (List C) × S)
      → stack.connect address s ≡ (ok device, u)
      → Ending address s (with_chars stack mac device r)
  unfolding with_chars give_up enrich_mac_from_dis
  with_chars-Ending mac address device s u (ok chars, t) e = enriched-Ending address s _ _
  with_chars-Ending mac address device s u (err x, t) e = released t e
  with_chars-Ending mac address device s u (panic, t) e = crashed

  with_services-Ending :
      (mac : List ℕ) (address : A) (device : D) (s u : S) (r : Go (List V) × S)
      → stack.connect address s ≡ (ok device, u)
      → Ending address s (with_services stack mac device r)
  unfolding with_services give_up
  with_services-Ending mac address device s u (ok (svc ∷ svcs), t) e =
      with_chars-Ending mac address device s u _ e
  with_services-Ending mac address device s u (ok [], t) e = released t e
  with_services-Ending mac address device s u (err x, t) e = released t e
  with_services-Ending mac address device s u (panic, t) e = crashed

  with_device-Ending :
      (mac : List ℕ) (address : A) (s : S) (r : Go D × S)
      → stack.connect address s ≡ r
      → Ending address s (with_device stack mac r)
  unfolding with_device
  with_device-Ending mac address s (ok device, t) e =
      with_services-Ending mac address device s t _ e
  with_device-Ending mac address s (err x, t) e = unreached e
  with_device-Ending mac address s (panic, t) e = crashed

  -- An attempt to connect over tinygo hands out a connection, or fails: then the device was not
  -- reached, and the error is wrapped, or the last call disconnects it. (It panics only with a call.)
  pub connect-Ending :
      (mac : List ℕ) (address : A) (s : S) → Ending address s (connect stack mac address s)
  unfolding connect
  connect-Ending mac address s = with_device-Ending mac address s (stack.connect address s) refl
