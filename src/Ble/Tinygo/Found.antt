-- ===== src/Ble/Tinygo/Found.antt =====
-- ble/adapter_tinygo.go and ble/chario_tinygo.go: what connecting and subscribing give.
use pigsydust.Prelude.{ℕ, Bool, true, false, List, [], ◌∷◌, ◌++◌, All, map, none, some}
use pigsydust.Prelude.{◌≡◌, ◌≢◌, refl, ◌∙◌, arith, bytes_eq, bytes_eq_iff}
use pigsydust.Prelude.Go.{Go, ok, err, panic, Error}
use pigsydust.Client.{Client, Done, login, pair, opened}
use pigsydust.Crypto.{Aes}
use pigsydust.Byteutil.{IsArray}
use pigsydust.Mac.{mac_string}
use pigsydust.Mac.Laws.{parse_mac-mac_string}
use pigsydust.Ble.Link.{ble_transport, write_pair, in_context}
use pigsydust.Ble.Uuid.{
  telink_uuid, char_notify_uuid, char_cmd_uuid, char_pair_uuid, mesh_service_uuid, dis_service_uuid,
}
use pigsydust.Ble.Tinygo.Connect.{
  Stack, from_tinygo_uuid, to_tinygo_uuid, mesh_chars, TinygoConnection, assign, assign_all,
  device_information, with_mac, enriched, enrich_mac_from_dis, with_chars, with_services,
  with_device, connect,
}
use pigsydust.Ble.Tinygo.Notify.{Gatt, tinygo_char_io, link, Happening, notified, closes, received}

module _ {A D V C U S : Type 0} (stack : Stack A D V C U S) where
  assign_other :
      (ch : C) (conn : TinygoConnection D C)
      → from_tinygo_uuid stack (stack.uuid ch) ≢ char_pair_uuid
      → (assign stack ch conn).char_pair ≡ conn.char_pair
  unfolding assign
  assign_other ch conn other =
      ground (arith, bytes_eq_iff (from_tinygo_uuid stack (stack.uuid ch)) char_pair_uuid)

  assign_all_other :
      (chars : List C) (conn : TinygoConnection D C)
      → All (λ ch. from_tinygo_uuid stack (stack.uuid ch) ≢ char_pair_uuid) chars
      → (assign_all stack chars conn).char_pair ≡ conn.char_pair
  unfolding assign_all
  assign_all_other [] conn others = refl
  assign_all_other (ch ∷ chars) conn (other, others) =
      assign_all_other chars (assign stack ch conn) others ∙ assign_other ch conn other

  assign_pair :
      (ch : C) (conn : TinygoConnection D C)
      → from_tinygo_uuid stack (stack.uuid ch) ≡ char_pair_uuid
      → (assign stack ch conn).char_pair ≡ some ch
  unfolding assign telink_uuid
  assign_pair ch conn e =
      rw (e, assign, not_notify, not_cmd, (bytes_eq_iff char_pair_uuid char_pair_uuid).1 refl) refl
    where
      not_notify : bytes_eq char_pair_uuid char_notify_uuid ≡ false
      not_notify = ground (arith, bytes_eq_iff char_pair_uuid char_notify_uuid)

      not_cmd : bytes_eq char_pair_uuid char_cmd_uuid ≡ false
      not_cmd = ground (arith, bytes_eq_iff char_pair_uuid char_cmd_uuid)

  -- Among characteristics that the device lists, the last with the UUID for pairing is the one that a
  -- login writes to.
  pub assign_all_found :
      (before after : List C) (ch : C) (conn : TinygoConnection D C)
      → from_tinygo_uuid stack (stack.uuid ch) ≡ char_pair_uuid
      → All (λ x. from_tinygo_uuid stack (stack.uuid x) ≢ char_pair_uuid) after
      → (assign_all stack (before ++ (ch ∷ after)) conn).char_pair ≡ some ch
  unfolding assign_all
  assign_all_found [] after ch conn e others =
      assign_all_other after (assign stack ch conn) others ∙ assign_pair ch conn e
  assign_all_found (x ∷ before) after ch conn e others =
      assign_all_found before after ch (assign stack x conn) e others

  assign_device :
      (ch : C) (conn : TinygoConnection D C) → (assign stack ch conn).device ≡ conn.device
  unfolding assign
  assign_device ch conn = ground arith

  assign_all_device :
      (chars : List C) (conn : TinygoConnection D C)
      → (assign_all stack chars conn).device ≡ conn.device
  unfolding assign_all
  assign_all_device [] conn = refl
  assign_all_device (ch ∷ chars) conn =
      assign_all_device chars (assign stack ch conn) ∙ assign_device ch conn

  -- Connecting hands out a connection without the characteristic that a login writes to, when the
  -- device has the mesh's service and lists characteristics of other UUIDs only. (The device has no
  -- device information.)
  pub connect_unchecked :
      (mac : List ℕ) (address : A) (device : D) (svc : V) (svcs : List V) (chars : List C)
      (e : Error) (s s1 s2 s3 s4 : S)
      → stack.connect address s ≡ (ok device, s1)
      → stack.discover_services device (to_tinygo_uuid stack mesh_service_uuid ∷ []) s1
        ≡ (ok (svc ∷ svcs), s2)
      → stack.discover_characteristics svc (mesh_chars stack) s2 ≡ (ok chars, s3)
      → All (λ ch. from_tinygo_uuid stack (stack.uuid ch) ≢ char_pair_uuid) chars
      → stack.discover_services device (to_tinygo_uuid stack dis_service_uuid ∷ []) s3 ≡ (err e, s4)
      → (conn : TinygoConnection D C) × ((connect stack mac address s ≡ (ok conn, s4))
          × (conn.char_pair ≡ none))
  unfolding connect with_device with_services with_chars enrich_mac_from_dis enriched
      device_information
  connect_unchecked mac address device svc svcs chars e s s1 s2 s3 s4 reached serves lists others
        no_dis =
      (
        conn,
        (
          rw
              (
                reached,
                connect,
                serves,
                connect,
                lists,
                connect,
                assign_all_device chars start,
                no_dis,
              )
              refl,
          assign_all_other chars start others,
        ),
      )
    where
      start : TinygoConnection D C
      start = record {
        char_notify = none;
        char_cmd = none;
        char_pair = none;
        gw_mac = mac;
        device = device;
      }

      conn : TinygoConnection D C
      conn = assign_all stack chars start

  -- When the device information's model number is an address as the library prints it, the
  -- connection has this address.
  pub enrich_mac_from_dis-mac_string :
      (conn : TinygoConnection D C) (m : List ℕ) (s t : S)
      → IsArray 6 m
      → device_information stack
          (stack.discover_services conn.device (to_tinygo_uuid stack dis_service_uuid ∷ []) s)
        ≡ (ok (mac_string m), t)
      → enrich_mac_from_dis stack conn s ≡ (ok (record conn { gw_mac = m }), t)
  unfolding enrich_mac_from_dis enriched with_mac
  enrich_mac_from_dis-mac_string conn m s t array told =
      rw (told, enriched, parse_mac-mac_string m array) refl

module _ {C S : Type 0} (aes : Aes) (gatt : Gatt C S) where
  -- Over a connection without the characteristic of the pairing exchange a login panics, when the
  -- random bytes are there.
  pub login_unpaired :
      {D : Type 0} (disconnect : D → S → Go Done × S) (conn : TinygoConnection D C)
      (rand_a salt name password : List ℕ) (c : Client) (s : S)
      → conn.char_pair ≡ none
      → (login aes
          (ble_transport (link gatt disconnect conn))
          (ok rand_a)
          (ok salt)
          name
          password
          c
          s).0
        ≡ panic
  unfolding login pair opened ble_transport write_pair in_context link tinygo_char_io
  login_unpaired disconnect conn rand_a salt name password c s missing = rw (missing, login) refl

-- A packet that the stack delivers after the context is done makes the program panic, whatever came
-- before, when the channel had room for that.
pub received_late :
    (packets : List (List ℕ)) (late : List ℕ) (has_room : Bool) (events : List Happening)
    → received false
        (map (λ p. notified p true) packets ++ (closes ∷ notified late has_room ∷ events))
      ≡ panic
unfolding received
received_late [] late has_room events = refl
received_late (p ∷ packets) late has_room events =
    rw (received_late packets late has_room events) refl
