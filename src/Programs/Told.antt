-- ===== src/Programs/Told.antt =====
-- ble/cmd/smoke: the statuses that the program has, by what the notifications told.
use pigsydust.Prelude.{
  ℕ, Bool, true, false, ◌==◌, if◌then◌else◌, List, [], ◌∷◌, ◌++◌, Option, none, some,
}
use pigsydust.Prelude.{◌≡◌, refl, sym, ap, ◌∙◌}
use pigsydust.Prelude.Go.{Go, ok, err, panic}
use pigsydust.Prelude.Maps.{ℕ_key, get, put, get-put, or_else, or_else-none, or_else_assoc}
use pigsydust.Protocol.{op_notify_status_poll, op_notify_status_broadcast}
use pigsydust.Notification.{Notification}
use pigsydust.Notification.Payload.{
  DeviceStatus, parse_device_status, parse_device_status_broadcast,
}
use pigsydust.Programs.Collect.{Statuses, put_statuses, note_one, note_all, note, collect}

-- What a notification tells: the statuses in it, in order.
unfoldable pub told_one : Go DeviceStatus → List DeviceStatus
told_one (ok ds) = ds ∷ []
told_one (err e) = []
told_one panic = []

unfoldable pub told_all : Go (List DeviceStatus) → List DeviceStatus
told_all (ok list) = list
told_all (err e) = []
told_all panic = []

unfoldable pub told : Notification → List DeviceStatus
told n =
    if n.opcode == op_notify_status_poll
    then told_one (parse_device_status n)
    else if n.opcode == op_notify_status_broadcast
    then told_all (parse_device_status_broadcast n)
    else []

unfoldable pub all_told : List Notification → List DeviceStatus
all_told [] = []
all_told (n ∷ notifications) = told n ++ all_told notifications

-- The last of the statuses with the address.
unfoldable pub last_of : ℕ → List DeviceStatus → Option DeviceStatus
last_of a [] = none
last_of a (ds ∷ rest) = or_else (last_of a rest) (if ds.address == a then some ds else none)

put_statuses-append :
    (xs ys : List DeviceStatus) (statuses : Statuses)
    → put_statuses (xs ++ ys) statuses ≡ put_statuses ys (put_statuses xs statuses)
unfolding put_statuses
put_statuses-append [] ys statuses = refl
put_statuses-append (x ∷ xs) ys statuses = put_statuses-append xs ys (put x.address x statuses)

note-told :
    (n : Notification) (statuses : Statuses) → note n statuses ≡ put_statuses (told n) statuses
unfolding note told note_one note_all told_one told_all put_statuses
note-told n statuses =
    choose (n.opcode == op_notify_status_poll) (n.opcode == op_notify_status_broadcast)
  where
    one : (g : Go DeviceStatus) → note_one g statuses ≡ put_statuses (told_one g) statuses
    one (ok ds) = refl
    one (err e) = refl
    one panic = refl

    all : (g : Go (List DeviceStatus)) → note_all g statuses ≡ put_statuses (told_all g) statuses
    all (ok list) = refl
    all (err e) = refl
    all panic = refl

    choose :
        (p b : Bool)
        → (if p
            then note_one (parse_device_status n) statuses
            else if b
            then note_all (parse_device_status_broadcast n) statuses
            else statuses)
          ≡ put_statuses
              (if p
                then told_one (parse_device_status n)
                else if b
                then told_all (parse_device_status_broadcast n)
                else [])
              statuses
    choose true b = one (parse_device_status n)
    choose false true = all (parse_device_status_broadcast n)
    choose false false = refl

pub collect-told :
    (statuses : Statuses) (notifications : List Notification)
    → collect statuses notifications ≡ put_statuses (all_told notifications) statuses
unfolding collect all_told put_statuses
collect-told statuses [] = refl
collect-told statuses (n ∷ notifications) =
    collect-told (note n statuses) notifications
    ∙ ap (put_statuses (all_told notifications)) (note-told n statuses)
    ∙ sym (put_statuses-append (told n) (all_told notifications) statuses)

get-put_statuses :
    (a : ℕ) (list : List DeviceStatus) (statuses : Statuses)
    → get a (put_statuses list statuses) ≡ or_else (last_of a list) (get a statuses)
unfolding put_statuses last_of or_else
get-put_statuses a [] statuses = refl
get-put_statuses a (ds ∷ rest) statuses =
    get-put_statuses a rest (put ds.address ds statuses)
    ∙ ap (or_else (last_of a rest)) (get-put a ds.address ds statuses ∙ inside (ds.address == a))
    ∙ or_else_assoc (last_of a rest) _ (get a statuses)
  where
    inside :
        (b : Bool)
        → (if b then some ds else get a statuses)
          ≡ or_else (if b then some ds else none) (get a statuses)
    inside true = refl
    inside false = refl

-- For every address the program has the last status that a status notification told of it, whichever
-- of the two kinds brought it, and none if no notification did.
pub get-collect :
    (a : ℕ) (notifications : List Notification)
    → get a (collect [] notifications) ≡ last_of a (all_told notifications)
unfolding get or_else
get-collect a notifications =
    ap (get a) (collect-told [] notifications)
    ∙ get-put_statuses a (all_told notifications) []
    ∙ or_else-none (last_of a (all_told notifications))
