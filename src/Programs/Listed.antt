-- ===== src/Programs/Listed.antt =====
-- ble/cmd/smoke: the list of devices that the program prints.
use pigsydust.Prelude.{
  ℕ, ◌<◌, ltb, ◌==◌, if◌then◌else◌, Bool-cases, inl, inr, List, [], ◌∷◌, All, none, some, ==_iff,
}
use pigsydust.Prelude.{◌≡◌, refl, ap, ◌∙◌, arith}
use pigsydust.Prelude.Maps.{ℕ_key, get, put, IsMap, put-IsMap}
use pigsydust.Notification.{Notification}
use pigsydust.Notification.Payload.{DeviceStatus}
use pigsydust.Programs.Collect.{Statuses, collect, put_statuses}
use pigsydust.Programs.Told.{all_told, last_of, collect-told, get-collect}
use pigsydust.Programs.Report.{insert_entry, sort_entries}

-- Each address is below all that follow it.
abbrev pub IsAscending : Statuses → Type 0
IsAscending [] = Unit
IsAscending ((a, ds) ∷ rest) = All (λ e. a < e.0) rest × IsAscending rest

get-insert_entry :
    (k a : ℕ) (ds : DeviceStatus) (m : Statuses)
    → get a m ≡ none
    → get k (insert_entry (a, ds) m) ≡ (if a == k then some ds else get k m)
unfolding get insert_entry
get-insert_entry k a ds [] fresh = refl
get-insert_entry k a ds ((b, other) ∷ rest) fresh =
    ground (arith, ==_iff a k, ==_iff b k, ==_iff b a, get-insert_entry k a ds rest)

below_trans : (a b : ℕ) (m : Statuses) → a < b → All (λ e. b < e.0) m → All (λ e. a < e.0) m
below_trans a b [] h all = tt
below_trans a b ((c, ds) ∷ rest) h (first, all) = (omega arith, below_trans a b rest h all)

below-insert_entry :
    (c a : ℕ) (ds : DeviceStatus) (m : Statuses)
    → c < a
    → All (λ e. c < e.0) m
    → All (λ e. c < e.0) (insert_entry (a, ds) m)
unfolding insert_entry
below-insert_entry c a ds [] h all = (h, tt)
below-insert_entry c a ds ((b, other) ∷ rest) h (first, all) = elim (Bool-cases (ltb a b)) [
  | inl e ↦ rw (insert_entry, e) (h, (first, all))
  | inr e ↦ rw (insert_entry, e) (first, below-insert_entry c a ds rest h all)
]

insert_entry-IsAscending :
    (a : ℕ) (ds : DeviceStatus) (m : Statuses)
    → get a m ≡ none
    → IsAscending m
    → IsAscending (insert_entry (a, ds) m)
unfolding insert_entry get
insert_entry-IsAscending a ds [] fresh h = (tt, tt)
insert_entry-IsAscending a ds ((b, other) ∷ rest) fresh (below, h) = elim (Bool-cases (ltb a b)) [
  | inl e ↦
      let less : a < b = ground arith in
      rw (insert_entry, e) ((less, below_trans a b rest less below), (below, h))
  | inr e ↦ elim (Bool-cases (b == a)) [
    | inl same ↦ absurd (ground (arith, fresh, same))
    | inr differ ↦
        let more : b < a = ground (arith, ==_iff b a) in
        rw (insert_entry, e)
          (
            below-insert_entry b a ds rest more below,
            insert_entry-IsAscending a ds rest (ground (arith, fresh, differ)) h,
          )
  ]
]

get-sort_entries : (k : ℕ) (m : Statuses) → IsMap m → get k (sort_entries m) ≡ get k m
unfolding get sort_entries
get-sort_entries k [] h = refl
get-sort_entries k ((a, ds) ∷ rest) (fresh, h) =
    get-insert_entry k a ds (sort_entries rest) (get-sort_entries a rest h ∙ fresh)
    ∙ ap (λ o. if a == k then some ds else o) (get-sort_entries k rest h)

sort_entries-IsAscending : (m : Statuses) → IsMap m → IsAscending (sort_entries m)
unfolding sort_entries
sort_entries-IsAscending [] h = tt
sort_entries-IsAscending ((a, ds) ∷ rest) (fresh, h) =
    insert_entry-IsAscending a ds (sort_entries rest) (get-sort_entries a rest h ∙ fresh)
      (sort_entries-IsAscending rest h)

put_statuses-IsMap :
    (list : List DeviceStatus) (m : Statuses) → IsMap m → IsMap (put_statuses list m)
unfolding put_statuses
put_statuses-IsMap [] m h = h
put_statuses-IsMap (ds ∷ rest) m h =
    put_statuses-IsMap rest (put ds.address ds m) (put-IsMap ds.address ds m h)

collect-IsMap : (notifications : List Notification) → IsMap (collect [] notifications)
collect-IsMap notifications =
    rw (collect-told [] notifications) (put_statuses-IsMap (all_told notifications) [] tt)

-- The devices are printed by ascending addresses, each address once, and with every address stands the
-- last status that a notification told of it; an address that no notification told is not printed.
pub sort_entries-collect :
    (notifications : List Notification)
    → let printed = sort_entries (collect [] notifications) in
      IsAscending printed × ((a : ℕ) → get a printed ≡ last_of a (all_told notifications))
sort_entries-collect notifications =
    let h = collect-IsMap notifications in
    (
      sort_entries-IsAscending (collect [] notifications) h,
      λ a. get-sort_entries a (collect [] notifications) h ∙ get-collect a notifications,
    )
