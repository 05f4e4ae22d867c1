-- ===== src/Ble/Discovery/Laws.antt =====
-- ble/scanner_linux.go: the properties that the scan loop judges a device by.
use Prim.Native.String.{String}
use pigsydust.Prelude.{
  ℕ, Bool, true, false, if◌then◌else◌, Bool-cases, inl, inr, ◌≡◌, refl, sym, ap, ◌∙◌,
}
use pigsydust.Prelude.{List, [], ◌∷◌, ◌++◌, append-nil, append_assoc, Option, none, some, as_list}
use pigsydust.Prelude.Maps.{string_key, bytes_key, get, put, put_all, get-put, get-put_all}
use pigsydust.Prelude.Maps.{IsMap, put_all-IsMap, or_else, or_else-none, or_else_assoc}
use pigsydust.Ble.Scan.{ScanFilter}
use pigsydust.Ble.Dbus.{Props, Dynamic, Signal, ◌>>=◌, or_empty}
use pigsydust.Ble.Discovery.{
  ScanResult, merge_props, known, emit, news, on_news, emit, on_signal, scan_loop,
}

module _ {V : Type 0} where
  get-merge_props :
      (key : String) (a b : Props V)
      → IsMap a
      → IsMap b
      → get key (merge_props a b) ≡ or_else (get key b) (get key a)
  unfolding merge_props get
  get-merge_props key a b ha hb =
      get-put_all key (put_all [] a) b hb
      ∙ ap (or_else (get key b)) (get-put_all key [] a ha ∙ or_else-none (get key a))

  merge_props-IsMap : (a b : Props V) → IsMap (merge_props a b)
  unfolding merge_props
  merge_props-IsMap a b = put_all-IsMap (put_all [] a) b (put_all-IsMap [] a tt)

  -- The value that the last update of an object with the key brought, the updates in their order.
  unfoldable pub latest : List ℕ → List (List ℕ × Props V) → String → Option V
  latest path [] key = none
  latest path ((p, update) ∷ history) key =
      or_else (latest path history key) (if bytes_key.same p path then get key update else none)

  -- A map as a function of its key.
  abbrev pub view : Props V → String → Option V
  view props key = get key props

  -- Every update is a map.
  abbrev pub Maps : List (List ℕ × Props V) → Type 0
  Maps [] = Unit
  Maps ((path, update) ∷ history) = IsMap update × Maps history

  -- The properties that are known once some updates were taken in.
  unfoldable pub learn : List (List ℕ × Props V) → List (List ℕ × Props V) → List (List ℕ × Props V)
  learn props [] = props
  learn props ((path, update) ∷ history) =
      learn (put path (merge_props (known props path) update) props) history

  abbrev Known : List (List ℕ × Props V) → Type 0
  Known props = (path : List ℕ) → IsMap (known props path)

  known-put :
      (p path : List ℕ) (m : Props V) (props : List (List ℕ × Props V))
      → known (put p m props) path ≡ (if bytes_key.same p path then m else known props path)
  known-put p path m props = rw (get-put path p m props) (commute (bytes_key.same p path))
    where
      commute :
          (b : Bool)
          → or_empty (if b then some m else get path props)
            ≡ (if b then m else or_empty (get path props))
      commute true = refl
      commute false = refl

  put-Known :
      (p : List ℕ) (m : Props V) (props : List (List ℕ × Props V))
      → IsMap m
      → Known props
      → Known (put p m props)
  put-Known p m props hm h path = rw (known-put p path m props) (choose (bytes_key.same p path))
    where
      choose : (b : Bool) → IsMap (if b then m else known props path)
      choose true = hm
      choose false = h path

  get-learn :
      (key : String) (path : List ℕ) (props history : List (List ℕ × Props V))
      → Known props
      → Maps history
      → get key (known (learn props history) path)
        ≡ or_else (latest path history key) (get key (known props path))
  unfolding learn latest or_else
  get-learn key path props [] h maps = refl
  get-learn key path props ((p, update) ∷ history) h (hu, maps) =
      get-learn key path (put p merged props) history
        (put-Known p merged props (merge_props-IsMap (known props p) update) h) maps
      ∙ ap (or_else (latest path history key)) here
      ∙ or_else_assoc (latest path history key) _ (get key (known props path))
    where
      merged : Props V
      merged = merge_props (known props p) update

      here :
          get key (known (put p merged props) path)
          ≡ or_else
              (if bytes_key.same p path then get key update else none)
              (get key (known props path))
      here = elim (Bool-cases (bytes_key.same p path)) [
        | inl e ↦
            rw (known-put p path merged props, e)
              (get-merge_props key (known props p) update (h p) hu
                ∙ (rw ((bytes_key.same_iff p path).0 e) refl))
        | inr e ↦ rw (known-put p path merged props, e) refl
      ]

module _ {V B : Type 0} (dyn : Dynamic V B) where
  -- The updates that signals bring, in order.
  unfoldable pub news_of : List (Option (Signal B)) → List (List ℕ × Props V)
  news_of [] = []
  news_of (sig ∷ signals) = as_list (sig >>= news dyn) ++ news_of signals

  on_signal_learns :
      (filter : ScanFilter) (props : List (List ℕ × Props V)) (sig : Option (Signal B))
      → (on_signal dyn filter props sig).0 ≡ learn props (as_list (sig >>= news dyn))
  unfolding on_signal on_news learn
  on_signal_learns filter props sig = cases (sig >>= news dyn)
    where
      cases :
          (n : Option (List ℕ × Props V)) → (on_news dyn filter props n).0 ≡ learn props (as_list n)
      cases none = refl
      cases (some (path, update)) = refl

  learn-append :
      (props xs ys : List (List ℕ × Props V)) → learn props (xs ++ ys) ≡ learn (learn props xs) ys
  unfolding learn
  learn-append props [] ys = refl
  learn-append props ((path, update) ∷ xs) ys =
      learn-append (put path (merge_props (known props path) update) props) xs ys

  -- The loop goes on from what it has learned.
  scan_loop-append :
      (filter : ScanFilter) (props : List (List ℕ × Props V)) (xs ys : List (Option (Signal B)))
      → scan_loop dyn filter props (xs ++ ys)
        ≡ scan_loop dyn filter props xs ++ scan_loop dyn filter (learn props (news_of xs)) ys
  unfolding scan_loop news_of learn
  scan_loop-append filter props [] ys = refl
  scan_loop-append filter props (x ∷ xs) ys =
      rw
        (
          scan_loop-append filter (on_signal dyn filter props x).0 xs ys,
          on_signal_learns filter props x,
          learn-append props (as_list (x >>= news dyn)) (news_of xs),
        )
        (sym (append_assoc (as_list (on_signal dyn filter props x).1) _ _))

  Maps-append :
      (h : List (List ℕ × Props V)) (path : List ℕ) (update : Props V)
      → Maps h
      → IsMap update
      → Maps (h ++ ((path, update) ∷ []))
  Maps-append [] path update maps hu = (hu, tt)
  Maps-append ((p, u) ∷ h) path update maps hu = (maps.0, Maps-append h path update maps.1 hu)

  known-learn :
      (props h : List (List ℕ × Props V)) (path : List ℕ) (update : Props V)
      → known (learn props (h ++ ((path, update) ∷ []))) path
        ≡ merge_props (known (learn props h) path) update
  unfolding learn
  known-learn props h path update =
      rw
        (
          learn-append props h ((path, update) ∷ []),
          known-put path path (merge_props (known (learn props h) path) update) (learn props h),
          (bytes_key.same_iff path path).1 refl,
        )
        refl

  -- When every update that the signals bring is a map, the round for a signal with news of an object
  -- judges the object by properties of which each is the latest that the signals up to this one
  -- brought of that object; what the round sends comes behind what was sent before.
  pub scan_loop-latest :
      (filter : ScanFilter) (before : List (Option (Signal B))) (sig : Option (Signal B))
      (path : List ℕ) (update : Props V)
      → Maps (news_of before)
      → IsMap update
      → sig >>= news dyn ≡ some (path, update)
      → (judged : Props V) × (view judged ≡ latest path (news_of before ++ ((path, update) ∷ [])))
        × (scan_loop dyn filter [] (before ++ (sig ∷ []))
            ≡ scan_loop dyn filter [] before ++ as_list (emit dyn filter path judged))
  unfolding scan_loop on_signal on_news get
  scan_loop-latest filter before sig path update maps hu brings = (
    judged,
    (λ i key. latest_known key i),
    scan_loop-append filter [] before (sig ∷ [])
        ∙ ap (λ (t : List ScanResult). scan_loop dyn filter [] before ++ t) sent,
  )
    where
      past : List (List ℕ × Props V)
      past = news_of before

      judged : Props V
      judged = known (learn [] (past ++ ((path, update) ∷ []))) path

      latest_known :
          (key : String) → get key judged ≡ latest path (past ++ ((path, update) ∷ [])) key
      latest_known key =
          get-learn key path [] (past ++ ((path, update) ∷ [])) (λ p. tt)
            (Maps-append past path update maps hu)
          ∙ or_else-none _

      sent : scan_loop dyn filter (learn [] past) (sig ∷ []) ≡ as_list (emit dyn filter path judged)
      sent =
          rw (brings, known-learn [] past path update)
            (append-nil (as_list (emit dyn filter path _)))
