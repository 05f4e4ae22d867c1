-- ===== src/Client/Options.antt =====
-- options.go, and how `NewClient` applies the options. The loggers `L` are the library's.
use pigsydust.Prelude.{ℕ, ◌*◌, ◌^◌, List, [], ◌∷◌, ◌++◌, Option, none, some, ◌≡◌, refl, ap}
use pigsydust.Prelude.Int.{ℤ, pos}

-- A duration is in nanoseconds; a nil logger is `none`.
pub record ClientOptions (L : Type 0) : Type 0 where
  pub heartbeat_interval : ℤ
  pub logger : Option L

abbrev pub second : ℕ
second = 10 ^ 9

module _ {L : Type 0} where
  unfoldable pub default_options : L → ClientOptions L
  default_options default = record { heartbeat_interval = pos (25 * second); logger = some default }

  unfoldable pub with_heartbeat_interval : ℤ → ClientOptions L → ClientOptions L
  with_heartbeat_interval d o = record o { heartbeat_interval = d }

  unfoldable pub with_logger : Option L → ClientOptions L → ClientOptions L
  with_logger l o = record o { logger = l }

  unfoldable pub or_default : L → Option L → Option L
  or_default default none = some default
  or_default default (some l) = some l

  -- The options in the order in which they are passed.
  unfoldable pub apply_options :
      List (ClientOptions L → ClientOptions L) → ClientOptions L → ClientOptions L
  apply_options [] o = o
  apply_options (opt ∷ opts) o = apply_options opts (opt o)

  -- A missing logger is replaced before the options are applied.
  unfoldable pub client_options : L → List (ClientOptions L → ClientOptions L) → ClientOptions L
  client_options default opts =
      let o = default_options default in
      apply_options opts (record o { logger = or_default default o.logger })

  apply_options-append :
      (xs ys : List (ClientOptions L → ClientOptions L)) (o : ClientOptions L)
      → apply_options (xs ++ ys) o ≡ apply_options ys (apply_options xs o)
  unfolding apply_options
  apply_options-append [] ys o = refl
  apply_options-append (x ∷ xs) ys o = apply_options-append xs ys (x o)

  -- The last option wins: a nil logger that is passed last stays, whatever options come before.
  pub client_options_nil_logger :
      (default : L) (opts : List (ClientOptions L → ClientOptions L))
      → (client_options default (opts ++ (with_logger none ∷ []))).logger ≡ none
  unfolding client_options apply_options with_logger
  client_options_nil_logger default opts =
      ap ClientOptions.logger (apply_options-append opts (with_logger none ∷ []) _)
