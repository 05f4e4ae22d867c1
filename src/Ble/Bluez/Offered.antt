-- ===== src/Ble/Bluez/Offered.antt =====
-- ble/adapter_linux.go: the characteristics that connecting finds.
use Prim.Native.String.{String}
use pigsydust.Prelude.{
  ℕ, true, false, List, [], ◌∷◌, ◌++◌, Option, none, some, ◌≡◌, ◌≢◌, refl, ap, ◌∙◌, ◌⊎◌, inl, inr,
}
use pigsydust.Prelude.{◌↔◌, Option-cases, arith}
use pigsydust.Prelude.Go.{Go, ok, err, bind_ok, char_not_found}
use pigsydust.Prelude.Maps.{bytes_key, get, get-put}
use pigsydust.Ble.Dbus.{Dynamic, Interfaces, bluez_device_iface}
use pigsydust.Ble.Uuid.{char_notify_uuid, char_cmd_uuid, char_pair_uuid}
use pigsydust.Ble.Bluez.Table.{char_uuid, put_char, char_by_uuid}
use pigsydust.Ble.Bluez.{Bus, get_managed_objects}
use pigsydust.Ble.Link.{in_context}
use pigsydust.Ble.Bluez.Wait.{Event, is_set, answered, wait_services_resolved}
use pigsydust.Ble.Bluez.Connect.{
  Chars, require, required, connect_method, hand_out, enumerate, when_resolved, when_connected,
  connect,
}

module _ {V B : Type 0} (dyn : Dynamic V B) (prefix : List ℕ) where
  -- An object with the path is a characteristic with the UUID, below the prefix.
  abbrev pub Offers : List ℕ → List ℕ → List (List ℕ × Interfaces V) → Type 0
  Offers u p [] = ⊥
  Offers u p ((path, ifs) ∷ objs) =
      ((path ≡ p) × (char_uuid dyn prefix (path, ifs) ≡ some u)) ⊎ Offers u p objs

  abbrev Table : Type 0
  Table = List (List ℕ × List ℕ)

  put_char_sound :
      (u p path : List ℕ) (c : Option (List ℕ)) (table : Table)
      → get u (put_char c path table) ≡ some p
      → ((path ≡ p) × (c ≡ some u)) ⊎ (get u table ≡ some p)
  unfolding put_char
  put_char_sound u p path none table e = inr e
  put_char_sound u p path (some v) table e =
      ground (arith, get-put u v path table, bytes_key.same_iff v u)

  put_char_keeps :
      (u path : List ℕ) (c : Option (List ℕ)) (table : Table)
      → get u (put_char c path table) ≡ none
      → (c ≢ some u) × (get u table ≡ none)
  unfolding put_char
  put_char_keeps u path none table e = ground arith
  put_char_keeps u path (some v) table e =
      ground (arith, get-put u v path table, bytes_key.same_iff v u)

  char_by_uuid_sound :
      (u p : List ℕ) (table : Table) (objs : List (List ℕ × Interfaces V))
      → get u (char_by_uuid dyn prefix table objs) ≡ some p
      → Offers u p objs ⊎ (get u table ≡ some p)
  unfolding char_by_uuid
  char_by_uuid_sound u p table [] e = inr e
  char_by_uuid_sound u p table ((path, ifs) ∷ objs) e =
      elim (char_by_uuid_sound u p (put_char (char_uuid dyn prefix (path, ifs)) path table) objs
        e) [
          | inl later ↦ inl (inr later)
          | inr earlier ↦ elim (put_char_sound u p path _ table earlier) [
            | inl here ↦ inl (inl here)
            | inr before ↦ inr before
          ]
        ]

  -- What no object offers is not in the table, and the other way round.
  char_by_uuid-none :
      (u p : List ℕ) (table : Table) (objs : List (List ℕ × Interfaces V))
      → get u (char_by_uuid dyn prefix table objs) ≡ none
      → ¬ Offers u p objs × (get u table ≡ none)
  unfolding char_by_uuid
  char_by_uuid-none u p table [] e = ((λ impossible. impossible), e)
  char_by_uuid-none u p table ((path, ifs) ∷ objs) e =
      let rest =
        char_by_uuid-none u p (put_char (char_uuid dyn prefix (path, ifs)) path table) objs e in
      let here = put_char_keeps u path _ table rest.1 in (not_offered rest.0 here.0, here.1)
    where
      not_offered :
          ¬ Offers u p objs
          → char_uuid dyn prefix (path, ifs) ≢ some u
          → ¬ Offers u p ((path, ifs) ∷ objs)
      not_offered no_rest other (inl found) = other found.1
      not_offered no_rest other (inr later) = no_rest later

  found_among :
      (u p : List ℕ) (objs : List (List ℕ × Interfaces V))
      → get u (char_by_uuid dyn prefix [] objs) ≡ some p
      → Offers u p objs
  unfolding get
  found_among u p objs e = elim (char_by_uuid_sound u p [] objs e) [
    | inl found ↦ found
    | inr nowhere ↦ absurd (ground arith)
  ]

  found_one :
      (u p : List ℕ) (objs : List (List ℕ × Interfaces V))
      → Offers u p objs
      → (q : List ℕ) × (get u (char_by_uuid dyn prefix [] objs) ≡ some q)
  found_one u p objs offered = elim (Option-cases (get u (char_by_uuid dyn prefix [] objs))) [
    | inl e ↦ absurd ((char_by_uuid-none u p [] objs e).0 offered)
    | inr found ↦ found
  ]

  require-ok :
      (table : Table) (u p : List ℕ) (name : String)
      → (require table u name ≡ ok p) ↔ (get u table ≡ some p)
  unfolding require
  require-ok table u p name = cases (get u table)
    where
      cases :
          (o : Option (List ℕ))
          → (elim o as (λ o. Go (List ℕ)) [ none ↦ err (char_not_found name) | some path ↦ ok path ]
              ≡ ok p)
            ↔ (o ≡ some p)
      cases o = ground arith

  required-ok :
      (table : Table) (chars : Chars)
      → required table ≡ ok chars
      → (get char_notify_uuid table ≡ some chars.notify)
        × ((get char_cmd_uuid table ≡ some chars.cmd)
            × (get char_pair_uuid table ≡ some chars.pair))
  unfolding required
  required-ok table chars e =
      let (n, (hn, en)) = bind_ok (require table char_notify_uuid "CHAR_NOTIFY") _ chars e in
      let (c, (hc, ec)) = bind_ok (require table char_cmd_uuid "CHAR_CMD") _ chars en in
      let (p, (hp, ep)) = bind_ok (require table char_pair_uuid "CHAR_PAIR") _ chars ec in
      let same = ok_injective (record { notify = n; cmd = c; pair = p }) chars ep in
      (
        (require-ok table char_notify_uuid chars.notify "CHAR_NOTIFY").0
            (hn ∙ ap (λ r. ok (Chars.notify r)) same),
        (
          (require-ok table char_cmd_uuid chars.cmd "CHAR_CMD").0
              (hc ∙ ap (λ r. ok (Chars.cmd r)) same),
          (require-ok table char_pair_uuid chars.pair "CHAR_PAIR").0
              (hp ∙ ap (λ r. ok (Chars.pair r)) same),
        ),
      )
    where
      ok_injective : (a b : Chars) → ok a ≡ ok b → a ≡ b
      ok_injective a b e = ground arith

  required_found :
      (objs : List (List ℕ × Interfaces V)) (n c p : List ℕ)
      → Offers char_notify_uuid n objs
      → Offers char_cmd_uuid c objs
      → Offers char_pair_uuid p objs
      → (chars : Chars) × (required (char_by_uuid dyn prefix [] objs) ≡ ok chars)
  unfolding required
  required_found objs n c p hn hc hp =
      let fn = found_one char_notify_uuid n objs hn in
      let fc = found_one char_cmd_uuid c objs hc in
      let fp = found_one char_pair_uuid p objs hp in
      (
        record { notify = fn.0; cmd = fc.0; pair = fp.0 },
        rw
            (
              required,
              (require-ok table char_notify_uuid fn.0 "CHAR_NOTIFY").1 fn.1,
              (require-ok table char_cmd_uuid fc.0 "CHAR_CMD").1 fc.1,
              (require-ok table char_pair_uuid fp.0 "CHAR_PAIR").1 fp.1,
            )
            refl,
      )
    where
      table : Table
      table = char_by_uuid dyn prefix [] objs

  -- The three characteristics are among the objects.
  pub record AreOffered (chars : Chars) (objs : List (List ℕ × Interfaces V)) : Type 0 where
    pub notify_offered : Offers char_notify_uuid chars.notify objs
    pub cmd_offered : Offers char_cmd_uuid chars.cmd objs
    pub pair_offered : Offers char_pair_uuid chars.pair objs

  required-AreOffered :
      (objs : List (List ℕ × Interfaces V)) (chars : Chars)
      → required (char_by_uuid dyn prefix [] objs) ≡ ok chars
      → AreOffered chars objs
  required-AreOffered objs chars e =
      let found = required-ok (char_by_uuid dyn prefix [] objs) chars e in
      record {
        notify_offered = found_among char_notify_uuid chars.notify objs found.0;
        cmd_offered = found_among char_cmd_uuid chars.cmd objs found.1.0;
        pair_offered = found_among char_pair_uuid chars.pair objs found.1.1;
      }

module _ {V B S : Type 0} (dyn : Dynamic V B) (bus : Bus V S) where
  -- When the device connects, its services are resolved already and BlueZ lists its objects, with a
  -- characteristic below the device for each of the three UUIDs, then connecting hands out an open
  -- connection to three characteristics of that kind, in the state that the listing left.
  pub connect_found :
      (mac path : List ℕ) (events : List (Event B)) (s s1 s2 s3 : S) (v : V)
      (objs : List (List ℕ × Interfaces V)) (n c p : List ℕ)
      → bus.call connect_method path s ≡ (ok tt, s1)
      → bus.get_prop path bluez_device_iface "ServicesResolved" s1 ≡ (ok v, s2)
      → dyn.flag_of v ≡ some true
      → bus.managed_call s2 ≡ (ok objs, s3)
      → Offers dyn (path ++ (b'/' ∷ [])) char_notify_uuid n objs
      → Offers dyn (path ++ (b'/' ∷ [])) char_cmd_uuid c objs
      → Offers dyn (path ++ (b'/' ∷ [])) char_pair_uuid p objs
      → (chars : Chars) × (AreOffered dyn (path ++ (b'/' ∷ [])) chars objs
          × (connect dyn bus mac path events s
              ≡ some
                  (ok (record { chars = chars; gw_mac = mac; device = path; closed = false }), s3)))
  unfolding connect when_connected wait_services_resolved is_set answered when_resolved
      get_managed_objects in_context enumerate hand_out
  connect_found mac path events s s1 s2 s3 v objs n c p connected asked set listed hn hc hp =
      let found = required_found dyn (path ++ (b'/' ∷ [])) objs n c p hn hc hp in
      (
        found.0,
        (
          required-AreOffered dyn (path ++ (b'/' ∷ [])) objs found.0 found.1,
          rw (connected, connect, asked, wait_services_resolved, set, connect, listed, found.1)
              refl,
        ),
      )
