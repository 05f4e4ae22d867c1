-- ===== src/Prelude/Maps.antt =====
-- Go maps as association lists: a missing key is `none`. Keys are compared by an instance.
use Prim.Native.Nat.{ℕ}
use Prim.Native.String.{String}
use mathlib.Core.Path.{◌≡◌, refl, ◌∙◌}
use mathlib.Core.Logic.{◌↔◌, inl, inr}
use mathlib.Core.Bool.{Bool, true, false}
use mathlib.Core.List.{List, [], ◌∷◌}
unfoldable pub use mathlib.Core.Option.{or_else}
use mathlib.Core.Option.{Option, none, some}
use native.Mathlib.Omega.{arith}
use text.Mathlib.Text.{◌==◌ as string_same}
use text.Mathlib.TextEquality.{eq_iff}
use pigsydust.Prelude.Tests.{◌==◌, ==_iff, if◌then◌else◌, Bool-cases}
use pigsydust.Prelude.Lists.{bytes_eq, bytes_eq_iff}

pub or_else-none {ℓ} : {A : Type ℓ} (o : Option A) → or_else o none ≡ o
unfolding or_else
or_else-none none = refl
or_else-none (some v) = refl

pub or_else_assoc {ℓ} :
    {A : Type ℓ} (a b c : Option A) → or_else a (or_else b c) ≡ or_else (or_else a b) c
unfolding or_else
or_else_assoc none b c = refl
or_else_assoc (some v) b c = refl

unfoldable pub lookup {ℓ} : {A : Type ℓ} → ℕ → List (ℕ × A) → Option A
lookup k [] = none
lookup k ((j, v) ∷ m) = if j == k then some v else lookup k m

-- What a type of keys brings: the test that Go's `==` makes.
pub record Key {κ} (K : Type κ) : Type κ where
  pub same : K → K → Bool
  pub same_iff : (j k : K) → (same j k ≡ true) ↔ (j ≡ k)

instance abbrev pub ℕ_key : Key ℕ
ℕ_key = record { same = λ a b. a == b; same_iff = ==_iff }

-- Paths, UUIDs and the texts that the program takes apart are lists of bytes.
instance abbrev pub bytes_key : Key (List ℕ)
bytes_key = record { same = bytes_eq; same_iff = bytes_eq_iff }

-- Names that the program only compares are strings.
instance abbrev pub string_key : Key String
string_key = record { same = string_same; same_iff = eq_iff }

module _ {ℓ κ} {K : Type κ} {V : Type ℓ} ⦃key : Key K⦄ where
  -- `m[k]`.
  unfoldable pub get : K → List (K × V) → Option V
  get k [] = none
  get k ((j, v) ∷ m) = if key.same j k then some v else get k m

  -- `m[k] = v`.
  unfoldable pub put : K → V → List (K × V) → List (K × V)
  put k v [] = (k, v) ∷ []
  put k v ((j, w) ∷ m) = if key.same j k then (k, v) ∷ m else (j, w) ∷ put k v m

  -- `for k, v := range m { out[k] = v }`.
  unfoldable pub put_all : List (K × V) → List (K × V) → List (K × V)
  put_all out [] = out
  put_all out ((k, v) ∷ m) = put_all (put k v out) m

  -- No key stands twice.
  abbrev pub IsMap : List (K × V) → Type ℓ
  IsMap [] = Unit
  IsMap ((k, v) ∷ m) = (get k m ≡ none) × IsMap m

  pub get-put :
      (j k : K) (v : V) (m : List (K × V))
      → get j (put k v m) ≡ (if key.same k j then some v else get j m)
  unfolding get put
  get-put j k v [] = refl
  get-put j k v ((i, w) ∷ m) =
      ground (arith, key.same_iff k j, key.same_iff i k, key.same_iff i j, get-put j k v m)

  -- Copying a map into another: its entries win.
  pub get-put_all :
      (j : K) (out m : List (K × V))
      → IsMap m
      → get j (put_all out m) ≡ or_else (get j m) (get j out)
  unfolding put_all get or_else
  get-put_all j out [] h = refl
  get-put_all j out ((k, v) ∷ m) (fresh, h) = elim (Bool-cases (key.same k j)) [
    | inl here ↦
        let e : k ≡ j = (key.same_iff k j).0 here in
        get-put_all j (put k v out) m h ∙ (rw (get-put j k v out, here, ← e, fresh) refl)
    | inr there ↦ get-put_all j (put k v out) m h ∙ (rw (get-put j k v out, there) refl)
  ]

  -- Copying keeps every key unique.
  pub put-IsMap : (k : K) (v : V) (m : List (K × V)) → IsMap m → IsMap (put k v m)
  unfolding put get
  put-IsMap k v [] h = (refl, tt)
  put-IsMap k v ((j, w) ∷ m) (fresh, h) = elim (Bool-cases (key.same j k)) [
    | inl here ↦ rw (put, here) (rw (← (key.same_iff j k).0 here) fresh, h)
    | inr there ↦ rw (put, there) (get-put j k v m ∙ (rw (other there) fresh), put-IsMap k v m h)
  ]
    where
      other : {a b : K} → key.same a b ≡ false → key.same b a ≡ false
      other {a} {b} e = ground (arith, key.same_iff a b, key.same_iff b a)

  pub put_all-IsMap : (out m : List (K × V)) → IsMap out → IsMap (put_all out m)
  unfolding put_all
  put_all-IsMap out [] h = h
  put_all-IsMap out ((k, v) ∷ m) h = put_all-IsMap (put k v out) m (put-IsMap k v out h)
