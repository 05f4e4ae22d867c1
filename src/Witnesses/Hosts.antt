-- ===== src/Witnesses/Hosts.antt =====
-- A toy bus, and the theorems about the adapter over BlueZ on it.
use pigsydust.Prelude.{ℕ, ◌+◌, true, false, List, [], ◌∷◌, ◌++◌, map, some, ◌≡◌, refl, inl, inr}
use pigsydust.Prelude.{as_list}
use pigsydust.Prelude.Go.{Go, ok, err, context, foreign}
use pigsydust.Prelude.Int.{negsuc}
use pigsydust.Prelude.Maps.{string_key, get}
use pigsydust.Ble.Path.{has_prefix}
use pigsydust.Ble.Uuid.{
  parse_uuid_string, without_dashes, digit_pairs, hex_byte, uuid_loop, lower_digit, dash_before,
}
use pigsydust.Ble.Uuid.{telink_uuid, uuid_string, char_notify_uuid, char_cmd_uuid, char_pair_uuid}
use pigsydust.Ble.Dbus.{Signal, Props, Interfaces}
use pigsydust.Ble.Dbus.{
  bluez_device_iface, bluez_gatt_char_iface, prop_properties_chang, prop_interfaces_added,
}
use pigsydust.Ble.Discovery.{emit, news, added, changed, scan_loop}
use pigsydust.Ble.Discovery.Laws.{latest, news_of, view, scan_loop-latest}
use pigsydust.Ble.Bluez.{Bus, get_managed_objects}
use pigsydust.Ble.Bluez.Wait.{deadline, arrived, wait_services_resolved, is_set, answered}
use pigsydust.Ble.Bluez.Table.{char_uuid}
use pigsydust.Ble.Bluez.Connect.{
  Chars, BluezConnection, give_up, enumerate, when_resolved, when_connected, connect,
}
use pigsydust.Ble.Bluez.Answers.{connect_answers}
use pigsydust.Ble.Bluez.Release.{Outcome, connect-Outcome}
use pigsydust.Ble.Bluez.Offered.{AreOffered, connect_found}
use pigsydust.Ble.Link.{in_context}
use pigsydust.Witnesses.Data.{gateway}
use pigsydust.Witnesses.Values.{
  Value, text, strength, flag, Argument, object, name, interfaces, props, dyn, lamp, home, anything,
}

-- The device appears with its name, and later its strength changes.
abbrev appears : Signal Argument
appears = record {
  name = prop_interfaces_added;
  path = [];
  body = object lamp ∷ interfaces ((bluez_device_iface, (("Name", text home) ∷ [])) ∷ []) ∷ [];
}

abbrev fades : Signal Argument
fades = record {
  name = prop_properties_chang;
  path = lamp;
  body = name bluez_device_iface ∷ props (("RSSI", strength (negsuc 70)) ∷ []) ∷ [];
}

scan_loop-latest_example :
    (judged : Props Value) × (view judged
      ≡ latest lamp
          (news_of dyn (some appears ∷ []) ++ ((lamp, (("RSSI", strength (negsuc 70)) ∷ [])) ∷ [])))
    × (scan_loop dyn anything [] (some appears ∷ some fades ∷ [])
        ≡ scan_loop dyn anything [] (some appears ∷ []) ++ as_list (emit dyn anything lamp judged))
unfolding news_of news added changed get
scan_loop-latest_example =
    scan_loop-latest dyn anything (some appears ∷ []) (some fades) lamp
      (("RSSI", strength (negsuc 70)) ∷ []) ((refl, tt), tt) (refl, tt) refl

-- The state counts the calls. Everything succeeds on this bus, and it lists a device with the three
-- characteristics behind another device's.
abbrev char_object : ℕ → List ℕ → List ℕ × Interfaces Value
char_object last uuid = (
  lamp ++ (b'/' ∷ last ∷ []),
  ((bluez_gatt_char_iface, (("UUID", text (uuid_string uuid)) ∷ [])) ∷ []),
)

abbrev objects : List (List ℕ × Interfaces Value)
objects =
    char_object b'1' char_notify_uuid
    ∷ char_object b'2' char_cmd_uuid
    ∷ char_object b'3' char_pair_uuid
    ∷ []

abbrev counting : Go (List (List ℕ × Interfaces Value)) → Bus Value ℕ
counting listed = record {
  call = λ method path s. (ok tt, s + 1);
  get_prop = λ path iface key s. (ok (flag true), s + 1);
  set_powered = λ path s. (ok tt, s + 1);
  managed_call = λ s. (listed, s + 1);
  add_match = λ rule s. (ok tt, s + 1);
  remove_match = λ rule s. s + 1;
  set_discovery_filter = λ path uuids s. (ok tt, s + 1);
  write_value = λ path kind bytes s. (ok tt, s + 1);
  read_value = λ path s. (ok [], s + 1);
}

connect_answers_example :
    (r : Go BluezConnection × ℕ) × (connect dyn
        (counting (ok objects))
        gateway
        lamp
        (map arrived (some fades ∷ []) ++ (deadline ∷ []))
        0
      ≡ some r)
connect_answers_example =
    connect_answers dyn (counting (ok objects)) gateway lamp (some fades ∷ []) [] 0

-- The listing fails after the device is connected: the fourth call is the one that disconnects it.
connect-Outcome_example :
    Outcome (counting (err (foreign 5))) gateway lamp 0 (err (context (foreign 5)), 4)
unfolding connect when_connected wait_services_resolved is_set answered when_resolved
    get_managed_objects in_context enumerate give_up
connect-Outcome_example =
    connect-Outcome (counting (err (foreign 5))) dyn gateway lamp [] 0
      (err (context (foreign 5)), 4) refl

connect_found_example :
    (chars : Chars) × (AreOffered dyn (lamp ++ (b'/' ∷ [])) chars objects
      × (connect dyn (counting (ok objects)) gateway lamp [] 0
          ≡ some
              (ok (record { chars = chars; gw_mac = gateway; device = lamp; closed = false }), 3)))
unfolding char_uuid get has_prefix parse_uuid_string without_dashes digit_pairs hex_byte uuid_string
    uuid_loop lower_digit dash_before telink_uuid
connect_found_example =
    connect_found dyn (counting (ok objects)) gateway lamp [] 0 1 2 3 (flag true) objects
      (lamp ++ (b'/' ∷ b'1' ∷ [])) (lamp ++ (b'/' ∷ b'2' ∷ [])) (lamp ++ (b'/' ∷ b'3' ∷ [])) refl
      refl refl refl (inl (refl, refl)) (inr (inl (refl, refl))) (inr (inr (inl (refl, refl))))
