-- ===== src/Protocol/DeviceClass/Laws.antt =====
-- What the lookup of device classes can answer.
use Prim.Native.String.{String}
use native.Mathlib.Decide.{ℕ_discrete}
use pigsydust.Prelude.{==_true, ==_false, subst, sym}
use pigsydust.Prelude.{ℕ, ◌+◌, ◌*◌, ◌<◌, ◌≡◌, ◌≢◌, ◌↔◌, ◌⊎◌, inl, inr, refl, arith}
use pigsydust.Prelude.{none, some, Option-cases}
use pigsydust.Prelude.Maps.{lookup}
use pigsydust.Protocol.DeviceClass.{device_class_names, device_class_aliases, resolve}
use pigsydust.Protocol.DeviceClass.{device_class_lookup, acf_rs8, switch}
use pigsydust.Protocol.DeviceClass.{device_class_unknown}

-- A class of the table: one that has a name.
abbrev pub IsNamed : ℕ → Type 0
IsNamed class = (name : String) × (lookup class device_class_names ≡ some name)

switch-IsNamed : IsNamed switch
unfolding lookup device_class_names
switch-IsNamed = ("SWITCH", refl)

acf_rs8-IsNamed : IsNamed acf_rs8
unfolding lookup device_class_names
acf_rs8-IsNamed = ("ACF_RS8", refl)

alias_target : (key class : ℕ) → lookup key device_class_aliases ≡ some class → class ≡ switch
unfolding lookup device_class_aliases
alias_target key class e = ground arith

-- What `resolve` finds is the key itself, with a name, or the one alias target.
resolve-IsNamed :
    (key class : ℕ) (name : String)
    → lookup key device_class_names ≡ some name
    → resolve key ≡ some class
    → IsNamed class × ((class ≡ key) ⊎ (class ≡ switch))
unfolding resolve
resolve-IsNamed key class name p e =
    let e' : some key ≡ some class = rw (p, resolve) at e in
    let same : key ≡ class = cc in (subst IsNamed same (name, p), inl (sym same))

resolve_alias :
    (key class : ℕ)
    → lookup key device_class_names ≡ none
    → resolve key ≡ some class
    → IsNamed class × ((class ≡ key) ⊎ (class ≡ switch))
unfolding resolve
resolve_alias key class p e =
    let target : class ≡ switch = alias_target key class (rw (p, resolve) at e) in
    (subst IsNamed (sym target) switch-IsNamed, inr target)

resolve_cases :
    (key class : ℕ) → resolve key ≡ some class → IsNamed class × ((class ≡ key) ⊎ (class ≡ switch))
resolve_cases key class e = elim (Option-cases (lookup key device_class_names)) [
  | inl p ↦ resolve_alias key class p e
  | inr (name, p) ↦ resolve-IsNamed key class name p e
]

-- The answer of the lookup, and where it comes from.
data Answer (wire_type wire_stype class : ℕ) : Type 0 where
  shortcut : wire_stype ≡ 0x39 → class ≡ acf_rs8 → Answer wire_type wire_stype class
  found :
      (key : ℕ)
      → wire_stype ≢ 0x39
      → key < 10000000
      → resolve key ≡ some class
      → Answer wire_type wire_stype class
  unknown : wire_stype ≢ 0x39 → class ≡ device_class_unknown → Answer wire_type wire_stype class

lookup-Answer :
    (wire_type wire_stype : ℕ)
    → wire_type < 256
    → wire_stype < 256
    → Answer wire_type wire_stype (device_class_lookup wire_type wire_stype)
unfolding device_class_lookup
lookup-Answer wire_type wire_stype ht hs = elim (ℕ_discrete wire_stype 0x39) [
  | yes e ↦ shortcut e (rw (==_true _ _ e) refl)
  | no ne ↦ rw (==_false _ _ ne) (keyed ne)
]
  where
    canonical : ℕ
    canonical = wire_type * 2 * 1000 + wire_stype * 2

    raw : ℕ
    raw = wire_type * 1000 + wire_stype

    keyed :
        wire_stype ≢ 0x39
        → Answer wire_type wire_stype (elim (resolve canonical) [
          | some class ↦ class
          | none ↦ elim (resolve raw) [ some class ↦ class | none ↦ device_class_unknown ]
        ])
    keyed ne = elim (Option-cases (resolve canonical)) [
      | inr (class, p) ↦ rw p (found canonical ne (omega arith) p)
      | inl p ↦ elim (Option-cases (resolve raw)) [
        | inr (class, q) ↦ rw (p, q) (found raw ne (omega arith) q)
        | inl q ↦ rw (p, q) (unknown ne refl)
      ]
    ]

-- Whatever the two wire bytes are, the answer is a class of the table or the unknown class.
pub device_class_lookup-IsNamed :
    (wire_type wire_stype : ℕ)
    → wire_type < 256
    → wire_stype < 256
    → IsNamed (device_class_lookup wire_type wire_stype)
      ⊎ (device_class_lookup wire_type wire_stype ≡ device_class_unknown)
device_class_lookup-IsNamed wire_type wire_stype ht hs =
    named (lookup-Answer wire_type wire_stype ht hs)
  where
    named :
        {class : ℕ}
        → Answer wire_type wire_stype class
        → IsNamed class ⊎ (class ≡ device_class_unknown)
    named (shortcut e c) = inl (subst IsNamed (sym c) acf_rs8-IsNamed)
    named {class} (found key ne lt e) = inl (resolve_cases key class e).0
    named (unknown ne c) = inr c

-- The synthetic class ACF_RS8 is the answer exactly for wire subtype 0x39: no key made of two bytes
-- collides with it.
pub device_class_lookup-acf_rs8_iff :
    (wire_type wire_stype : ℕ)
    → wire_type < 256
    → wire_stype < 256
    → (device_class_lookup wire_type wire_stype ≡ acf_rs8) ↔ (wire_stype ≡ 0x39)
device_class_lookup-acf_rs8_iff wire_type wire_stype ht hs = (
  λ e. only (lookup-Answer wire_type wire_stype ht hs) e,
  λ e. unfold device_class_lookup in rw (==_true _ _ e) refl,
)
  where
    only : {class : ℕ} → Answer wire_type wire_stype class → class ≡ acf_rs8 → wire_stype ≡ 0x39
    only (shortcut e c) h = e
    only {class} (found key ne lt e) h = absurd (no_key (resolve_cases key class e).1)
      where
        no_key : (class ≡ key) ⊎ (class ≡ switch) → ⊥
        no_key d = omega arith
    only (unknown ne c) h = absurd (omega arith)
