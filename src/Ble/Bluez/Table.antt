-- ===== src/Ble/Bluez/Table.antt =====
-- ble/adapter_linux.go: the characteristics of a device by their UUIDs.
use pigsydust.Prelude.{ℕ, not, if◌then◌else◌, List, [], ◌∷◌, Option, none, some}
use pigsydust.Prelude.Go.{Go, ok, err, panic}
use pigsydust.Prelude.Maps.{string_key, bytes_key, get, put}
use pigsydust.Ble.Dbus.{Dynamic, Interfaces, ◌>>=◌, or_empty, bluez_gatt_char_iface}
use pigsydust.Ble.Path.{has_prefix}
use pigsydust.Ble.Uuid.{parse_uuid_string}

-- What a parse gives, without its error.
abbrev pub value {ℓ} : {A : Type ℓ} → Go A → Option A
value (ok a) = some a
value (err e) = none
value panic = none

-- One round's assignment.
unfoldable pub put_char : Option (List ℕ) → List ℕ → List (List ℕ × List ℕ) → List (List ℕ × List ℕ)
put_char none path table = table
put_char (some u) path table = put u path table

module _ {V B : Type 0} (dyn : Dynamic V B) where
  -- The UUID of an object, if it is a characteristic whose path begins with the prefix.
  unfoldable pub char_uuid : List ℕ → List ℕ × Interfaces V → Option (List ℕ)
  char_uuid prefix (path, ifs) = if not (has_prefix path prefix) then none else (do
    char_props ← get bluez_gatt_char_iface ifs
    uuid_v ← get "UUID" char_props
    value (parse_uuid_string (or_empty (dyn.text_of uuid_v))))

  -- The loop over the objects, in the order in which the map gives them.
  unfoldable pub char_by_uuid :
      List ℕ → List (List ℕ × List ℕ) → List (List ℕ × Interfaces V) → List (List ℕ × List ℕ)
  char_by_uuid prefix table [] = table
  char_by_uuid prefix table ((path, ifs) ∷ objs) =
      char_by_uuid prefix (put_char (char_uuid prefix (path, ifs)) path table) objs
