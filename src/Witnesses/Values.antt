-- ===== src/Witnesses/Values.antt =====
-- A toy type of D-Bus values, a device and a filter.
use Prim.Native.String.{String}
use pigsydust.Prelude.{ℕ, Bool, false, List, [], ◌∷◌, Option, none, some}
use pigsydust.Prelude.Int.{ℤ}
use pigsydust.Prelude.Maps.{string_key}
use pigsydust.Ble.Scan.{ScanFilter}
use pigsydust.Ble.Dbus.{Dynamic, Props, Interfaces}

pub data Value : Type 0 where
  bytes text : List ℕ → Value
  -- one company's data
  company : ℕ → List ℕ → Value
  strength : ℤ → Value
  word : ℕ → Value
  flag : Bool → Value

pub data Argument : Type 0 where
  object : List ℕ → Argument
  name : String → Argument
  interfaces : Interfaces Value → Argument
  props : Props Value → Argument

abbrev pub dyn : Dynamic Value Argument
dyn = record {
  bytes_of = bytes_in;
  table_of = table_in;
  text_of = text_in;
  int16_of = int16_in;
  word_of = word_in;
  flag_of = flag_in;
  path_arg = path_in;
  text_arg = name_in;
  interfaces_arg = interfaces_in;
  props_arg = props_in;
}
  where
    bytes_in : Value → Option (List ℕ)
    bytes_in (bytes b) = some b
    bytes_in _ = none

    table_in : Value → Option (List (ℕ × Value))
    table_in (company id b) = some ((id, bytes b) ∷ [])
    table_in _ = none

    text_in : Value → Option (List ℕ)
    text_in (text b) = some b
    text_in _ = none

    int16_in : Value → Option ℤ
    int16_in (strength z) = some z
    int16_in _ = none

    word_in : Value → Option ℕ
    word_in (word w) = some w
    word_in _ = none

    flag_in : Value → Option Bool
    flag_in (flag b) = some b
    flag_in _ = none

    path_in : Argument → Option (List ℕ)
    path_in (object p) = some p
    path_in _ = none

    name_in : Argument → Option String
    name_in (name s) = some s
    name_in _ = none

    interfaces_in : Argument → Option (Interfaces Value)
    interfaces_in (interfaces i) = some i
    interfaces_in _ = none

    props_in : Argument → Option (Props Value)
    props_in (props p) = some p
    props_in _ = none

-- A device, and its name.
abbrev pub lamp : List ℕ
lamp = b'/' ∷ b'd' ∷ []

abbrev pub home : List ℕ
home = b'h' ∷ []

abbrev pub anything : ScanFilter
anything = record { mesh_name = []; network_id = 0; gateway_only = false }
