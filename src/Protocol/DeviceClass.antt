-- ===== src/Protocol/DeviceClass.antt =====
-- protocol/device_class.go. A device class is its number; the tables are the two Go maps.
pub mod Laws
use Prim.Native.String.{String}
use pigsydust.Prelude.{ℕ, ◌+◌, ◌*◌, ◌==◌, if◌then◌else◌, List, [], ◌∷◌, Option, none, some}
use pigsydust.Prelude.Maps.{lookup}

abbrev pub device_class_unknown : ℕ
device_class_unknown = 0

-- Wire subtype 0x39, for any type.
abbrev pub acf_rs8 : ℕ
acf_rs8 = 10000114

abbrev pub switch : ℕ
switch = 44002

-- `deviceClassNames`, each class constant written as its value.
unfoldable pub device_class_names : List (ℕ × String)
device_class_names =
    (106, "SGBX0")
    ∷ (2004, "BRIDGE_G2")
    ∷ (2014, "POL")
    ∷ (2022, "BRIDGE")
    ∷ (2028, "SGB")
    ∷ (2102, "ACF_DUCTED")
    ∷ (4016, "SPO3")
    ∷ (4102, "ACF_VRV")
    ∷ (4104, "SGBX")
    ∷ (4106, "SGBX2")
    ∷ (10030, "VFAN_ONLY")
    ∷ (12030, "FAN_ONLY")
    ∷ (14096, "BFAN_ONLY")
    ∷ (16108, "ZCL")
    ∷ (18030, "FAN_ONLY9")
    ∷ (20004, "DRC")
    ∷ (22004, "BSC")
    ∷ (24002, "GDC1")
    ∷ (24004, "GDC1_SW")
    ∷ (24006, "GDC1_SL")
    ∷ (24016, "GDC1_W")
    ∷ (24034, "GDC2")
    ∷ (26002, "GDC1_M2")
    ∷ (26004, "GDC1_M2W")
    ∷ (26006, "GDC1_M2L")
    ∷ (34048, "DV02")
    ∷ (40026, "RFD")
    ∷ (40104, "RFD2_SCAN")
    ∷ (42024, "TSWITCH")
    ∷ (42026, "TSWITCHG2")
    ∷ (42096, "ECL_AC")
    ∷ (44002, "SWITCH")
    ∷ (44024, "SWITCH_G2")
    ∷ (44026, "SWITCH_G3")
    ∷ (46022, "DIMMER")
    ∷ (46024, "DIMMER_G2")
    ∷ (46026, "DIMMER_G3")
    ∷ (48004, "STRIP_W")
    ∷ (48006, "FCS")
    ∷ (48064, "SFI_8266")
    ∷ (48066, "SFI_825X")
    ∷ (48096, "DM10")
    ∷ (48098, "DALI_DT6")
    ∷ (48100, "RCT_W")
    ∷ (48104, "RFD2")
    ∷ (50008, "STRIP2_CCT")
    ∷ (50026, "RFD_CT")
    ∷ (50100, "RCT_CCT")
    ∷ (50104, "RFD2_CT")
    ∷ (52008, "STRIP2_RGBCCT")
    ∷ (52100, "RCT_RGBW")
    ∷ (54004, "STRIP_RGB")
    ∷ (54006, "FCR")
    ∷ (54008, "STRIP2_RGB")
    ∷ (54100, "RCT_RGB")
    ∷ (54198, "RGB_X")
    ∷ (56100, "RCT_RGBCCT")
    ∷ (60002, "IR36")
    ∷ (60004, "IR12")
    ∷ (60006, "SMR")
    ∷ (60020, "DRS")
    ∷ (60022, "DRSM2")
    ∷ (60024, "DRSM3")
    ∷ (102002, "CAP")
    ∷ (102004, "MTW")
    ∷ (102006, "STC")
    ∷ (102008, "MTW2_AL")
    ∷ (102010, "MTW2_AN")
    ∷ (102012, "MRC")
    ∷ (102014, "CAP3")
    ∷ (102016, "SGB3")
    ∷ (102020, "SIC")
    ∷ (102040, "DIAL")
    ∷ (106030, "VFAN_CT")
    ∷ (108030, "FAN_CT")
    ∷ (114030, "FAN_CT9")
    ∷ (180002, "SONOS")
    ∷ (10000114, "ACF_RS8")
    ∷ []

-- `deviceClassAliases`.
unfoldable pub device_class_aliases : List (ℕ × ℕ)
device_class_aliases = (44022, switch) ∷ []

-- The end of `DeviceClassLookup`: the key, read in the names and then in the aliases.
unfoldable pub resolve : ℕ → Option ℕ
resolve key = elim (lookup key device_class_names) [
  | some name ↦ some key
  | none ↦ lookup key device_class_aliases
]

unfoldable pub device_class_lookup : ℕ → ℕ → ℕ
device_class_lookup wire_type wire_stype =
    if wire_stype == 0x39 then acf_rs8 else elim (resolve (wire_type * 2 * 1000 + wire_stype * 2)) [
      | some class ↦ class
      | none ↦ elim (resolve (wire_type * 1000 + wire_stype)) [
        | some class ↦ class
        | none ↦ device_class_unknown
      ]
    ]

-- `DeviceClass.Name`: the empty string for a class that the map lacks.
unfoldable pub name_of : ℕ → String
name_of class = elim (lookup class device_class_names) [ some name ↦ name | none ↦ "" ]

unfoldable pub device_class_name : ℕ → ℕ → String
device_class_name wire_type wire_stype = name_of (device_class_lookup wire_type wire_stype)
