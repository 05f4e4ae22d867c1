-- ===== src/Prelude/Go.antt =====
-- What a Go function that returns an error can do: return a value, return an error (the errors of
-- errors.go and the `fmt.Errorf` errors of the packages), or panic.
use Prim.Native.Nat.{ℕ}
use Prim.Native.String.{String}
use mathlib.Core.Path.{◌≡◌, refl}
use mathlib.Core.List.{List, [], ◌∷◌}
use mathlib.Core.Logic.{◌≢◌, ◌⊎◌, inl, inr}
use pigsydust.Prelude.Lists.{length, get_or}
use Prim.Native.Nat.{zero, suc, ◌<◌}
use native.Mathlib.Omega.{arith}

-- The package-level error values of errors.go.
pub data Sentinel : Type 0 where
  err_not_logged_in err_login_failed err_tag_mismatch err_short_packet err_unexpected_opcode :
      Sentinel

pub data Error : Type 0 where
  -- a sentinel returned as it is
  bare : Sentinel → Error
  -- `fmt.Errorf("%w: …", sentinel, …)` with the number that the message shows
  wrapped : Sentinel → ℕ → Error
  -- `fmt.Errorf("%w: …: %w", sentinel, err)`
  wrapped_both : Sentinel → Error → Error
  -- `fmt.Errorf("…: %w", err)`
  context : Error → Error
  -- an error of code outside the repository
  foreign : ℕ → Error
  -- errors that wrap nothing
  notification_length manufacturer_id manufacturer_short : ℕ → Error
  cbc_mac_mismatch : Error
  login_response_short login_response_tag : ℕ → Error
  already_subscribed : Error
  zero_duration no_weekday : Error
  transition_kind hour_range minute_range : ℕ → Error
  mac_octets : ℕ → Error
  mac_bad_octet bad_uuid : List ℕ → Error
  bad_hex : ℕ → Error
  no_adapter resolve_timeout no_mesh_service no_dis_service no_model_number : Error
  char_not_found : String → Error
  handle_type no_node no_password : Error

pub Sentinel-discrete : Discrete Sentinel
Sentinel-discrete = hlevel

pub data Go {ℓ} (A : Type ℓ) : Type ℓ where
  ok : A → Go A
  err : Error → Go A
  panic : Go A

infixl 5 ◌>>=◌
abbrev pub ◌>>=◌ {ℓ κ} : {A : Type ℓ} {B : Type κ} → Go A → (A → Go B) → Go B
ok a >>= f = f a
err e >>= f = err e
panic >>= f = panic

-- A chain that returns a value does so at each of its steps.
pub bind_ok {ℓ κ} :
    {A : Type ℓ} {B : Type κ} (a : Go A) (f : A → Go B) (b : B)
    → a >>= f ≡ ok b
    → (x : A) × ((a ≡ ok x) × (f x ≡ ok b))
bind_ok (ok x) f b e = (x, (refl, e))
bind_ok (err x) f b e = absurd (ground arith)
bind_ok panic f b e = absurd (ground arith)

pub Go-cases {ℓ} :
    {A : Type ℓ} (g : Go A) → ((a : A) × (g ≡ ok a)) ⊎ (((e : Error) × (g ≡ err e)) ⊎ (g ≡ panic))
Go-cases (ok a) = inl (a, refl)
Go-cases (err e) = inr (inl (e, refl))
Go-cases panic = inr (inr refl)

-- A chain whose steps do not panic does not panic.
pub bind_total {ℓ κ} :
    {A : Type ℓ} {B : Type κ} (a : Go A) (f : A → Go B)
    → a ≢ panic
    → ((x : A) → f x ≢ panic)
    → a >>= f ≢ panic
bind_total (ok x) f whole next e = next x e
bind_total (err x) f whole next e = absurd (ground arith)
bind_total panic f whole next e = whole refl

-- `b[i]` on a slice: out of range it panics.
unfoldable pub index {ℓ} : {A : Type ℓ} → List A → ℕ → Go A
index [] i = panic
index (x ∷ xs) zero = ok x
index (x ∷ xs) (suc i) = index xs i

-- An index in range reads the element and does not panic.
pub index_ok {ℓ} :
    {A : Type ℓ} (xs : List A) (i : ℕ) (d : A) → i < length xs → index xs i ≡ ok (get_or xs i d)
unfolding index
index_ok [] i d h = absurd (omega arith)
index_ok (x ∷ xs) zero d h = refl
index_ok (x ∷ xs) (suc i) d h = index_ok xs i d (omega arith)
