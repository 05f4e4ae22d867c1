-- ===== src/Ble/Dbus.antt =====
-- ble/bluez_linux.go, and what the Linux code uses of the D-Bus library: values of a dynamic type,
-- read by type assertions, and signals. The types of the library are parameters.
use Prim.Native.String.{String}
use pigsydust.Prelude.{ℕ, Bool, List, [], Option, none, some}
use pigsydust.Prelude.Int.{ℤ}

-- The names of the interfaces and signals.
abbrev pub bluez_adapter_iface : String
bluez_adapter_iface = "org.bluez.Adapter1"

abbrev pub bluez_device_iface : String
bluez_device_iface = "org.bluez.Device1"

abbrev pub bluez_gatt_char_iface : String
bluez_gatt_char_iface = "org.bluez.GattCharacteristic1"

abbrev pub prop_properties_chang : String
prop_properties_chang = "org.freedesktop.DBus.Properties.PropertiesChanged"

abbrev pub prop_interfaces_added : String
prop_interfaces_added = "org.freedesktop.DBus.ObjectManager.InterfacesAdded"

-- `map[string]dbus.Variant`, and one such map for each interface of an object.
abbrev pub Props : Type 0 → Type 0
Props V = List (String × V)

abbrev pub Interfaces : Type 0 → Type 0
Interfaces V = List (String × Props V)

-- The type assertions of the code: on the content of a variant `V`, and on an element `B` of a
-- signal's body; `none` where the dynamic type is another.
pub record Dynamic (V B : Type 0) : Type 0 where
  pub bytes_of : V → Option (List ℕ)
  pub table_of : V → Option (List (ℕ × V))
  pub text_of : V → Option (List ℕ)
  pub int16_of : V → Option ℤ
  pub word_of : V → Option ℕ
  pub flag_of : V → Option Bool
  pub path_arg : B → Option (List ℕ)
  pub text_arg : B → Option String
  pub interfaces_arg : B → Option (Interfaces V)
  pub props_arg : B → Option (Props V)

pub record Signal (B : Type 0) : Type 0 where
  pub name : String
  pub path : List ℕ
  pub body : List B

infixl 5 ◌>>=◌
abbrev pub ◌>>=◌ {ℓ κ} : {A : Type ℓ} {B : Type κ} → Option A → (A → Option B) → Option B
none >>= f = none
some a >>= f = f a

-- `x, _ := v.(T)` for a type whose zero value is empty.
abbrev pub or_empty {ℓ} : {A : Type ℓ} → Option (List A) → List A
or_empty none = []
or_empty (some xs) = xs
