-- ===== src/Ble/Tinygo/Connect.antt =====
-- ble/adapter_tinygo.go: connecting to a device and reading its address.
use pigsydust.Prelude.{ℕ, if◌then◌else◌, bytes_eq, List, [], ◌∷◌, Option, none, some}
use pigsydust.Prelude.Go.{
  Go, ok, err, panic, Error, context, no_mesh_service, no_dis_service, no_model_number,
}
use pigsydust.Client.{Done}
use pigsydust.Byteutil.{copy, zeros}
use pigsydust.Mac.{parse_mac}
use pigsydust.Ble.Link.{in_context}
use pigsydust.Ble.Uuid.{mesh_service_uuid, dis_service_uuid, dis_model_number_uuid}
use pigsydust.Ble.Uuid.{char_notify_uuid, char_cmd_uuid, char_pair_uuid}

-- The calls on the stack: `D` are devices, `V` services, `C` characteristics, `U` its UUIDs. `read`
-- gives the bytes that it stored in the buffer of 32.
pub record Stack (A D V C U S : Type 0) : Type 0 where
  pub enable : S → Go Done × S
  pub stop_scan : S → Go Done × S
  pub connect : A → S → Go D × S
  pub disconnect : D → S → Go Done × S
  pub discover_services : D → List U → S → Go (List V) × S
  pub discover_characteristics : V → List U → S → Go (List C) × S
  pub uuid : C → U
  pub new_uuid : List ℕ → U
  pub uuid_bytes : U → List ℕ
  pub read : C → S → Go (List ℕ) × S

-- A connection: a characteristic that was not found stays nil.
pub record TinygoConnection (D C : Type 0) : Type 0 where
  pub char_notify : Option C
  pub char_cmd : Option C
  pub char_pair : Option C
  pub gw_mac : List ℕ
  pub device : D

module _ {A D V C U S : Type 0} (stack : Stack A D V C U S) where
  -- `NewAdapter`, whose adapter has nothing beside the stack, and `stopScan`.
  unfoldable pub new_adapter : S → Go Done × S
  new_adapter s = let r = stack.enable s in (in_context r.0, r.1)

  unfoldable pub stop_scan : S → Go Done × S
  stop_scan s = stack.stop_scan s

  unfoldable pub to_tinygo_uuid : List ℕ → U
  to_tinygo_uuid u = stack.new_uuid u

  unfoldable pub from_tinygo_uuid : U → List ℕ
  from_tinygo_uuid u = copy (zeros 16) (stack.uuid_bytes u)

  -- The switch on a characteristic's UUID.
  unfoldable pub assign : C → TinygoConnection D C → TinygoConnection D C
  assign ch conn =
      if bytes_eq (from_tinygo_uuid (stack.uuid ch)) char_notify_uuid
      then record conn { char_notify = some ch }
      else if bytes_eq (from_tinygo_uuid (stack.uuid ch)) char_cmd_uuid
      then record conn { char_cmd = some ch }
      else if bytes_eq (from_tinygo_uuid (stack.uuid ch)) char_pair_uuid
      then record conn { char_pair = some ch }
      else conn

  unfoldable pub assign_all : List C → TinygoConnection D C → TinygoConnection D C
  assign_all [] conn = conn
  assign_all (ch ∷ chars) conn = assign_all chars (assign ch conn)

  unfoldable pub model_number : Go (List C) × S → Go (List ℕ) × S
  model_number (ok (ch ∷ chars), s) = stack.read ch s
  model_number (ok [], s) = (err no_model_number, s)
  model_number (err e, s) = (err no_model_number, s)
  model_number (panic, s) = (panic, s)

  unfoldable pub device_information : Go (List V) × S → Go (List ℕ) × S
  device_information (ok (svc ∷ svcs), s) =
      model_number
        (stack.discover_characteristics svc (to_tinygo_uuid dis_model_number_uuid ∷ []) s)
  device_information (ok [], s) = (err no_dis_service, s)
  device_information (err e, s) = (err no_dis_service, s)
  device_information (panic, s) = (panic, s)

  -- `enrichMACFromDIS`: the connection keeps the address it has when something fails, and `connect`
  -- drops the error.
  unfoldable pub with_mac : TinygoConnection D C → Go (List ℕ) → TinygoConnection D C
  with_mac conn (ok mac) = record conn { gw_mac = mac }
  with_mac conn (err e) = conn
  with_mac conn panic = conn

  unfoldable pub enriched : TinygoConnection D C → Go (List ℕ) × S → Go (TinygoConnection D C) × S
  enriched conn (ok text, s) = (ok (with_mac conn (parse_mac text)), s)
  enriched conn (err e, s) = (ok conn, s)
  enriched conn (panic, s) = (panic, s)

  unfoldable pub enrich_mac_from_dis : TinygoConnection D C → S → Go (TinygoConnection D C) × S
  enrich_mac_from_dis conn s = enriched conn (
      device_information
        (stack.discover_services conn.device (to_tinygo_uuid dis_service_uuid ∷ []) s))

  unfoldable pub give_up : Error → D → S → Go (TinygoConnection D C) × S
  give_up e device s = (err e, (stack.disconnect device s).1)

  unfoldable pub with_chars : List ℕ → D → Go (List C) × S → Go (TinygoConnection D C) × S
  with_chars mac device (ok chars, s) =
      enrich_mac_from_dis
        (assign_all chars (record {
          char_notify = none;
          char_cmd = none;
          char_pair = none;
          gw_mac = mac;
          device = device;
        }))
        s
  with_chars mac device (err e, s) = give_up (context e) device s
  with_chars mac device (panic, s) = (panic, s)

  abbrev pub mesh_chars : List U
  mesh_chars =
      to_tinygo_uuid char_notify_uuid
      ∷ to_tinygo_uuid char_cmd_uuid
      ∷ to_tinygo_uuid char_pair_uuid
      ∷ []

  unfoldable pub with_services : List ℕ → D → Go (List V) × S → Go (TinygoConnection D C) × S
  with_services mac device (ok (svc ∷ svcs), s) =
      with_chars mac device (stack.discover_characteristics svc mesh_chars s)
  with_services mac device (ok [], s) = give_up no_mesh_service device s
  with_services mac device (err e, s) = give_up (context e) device s
  with_services mac device (panic, s) = (panic, s)

  unfoldable pub with_device : List ℕ → Go D × S → Go (TinygoConnection D C) × S
  with_device mac (ok device, s) =
      with_services mac device
        (stack.discover_services device (to_tinygo_uuid mesh_service_uuid ∷ []) s)
  with_device mac (err e, s) = (err (context e), s)
  with_device mac (panic, s) = (panic, s)

  unfoldable pub connect : List ℕ → A → S → Go (TinygoConnection D C) × S
  connect mac address s = with_device mac (stack.connect address s)
