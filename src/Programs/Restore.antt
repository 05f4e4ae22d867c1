-- ===== src/Programs/Restore.antt =====
-- ble/cmd/smoke: what the program leaves the lamp in.
use pigsydust.Prelude.{ℕ, Bool, false, List, [], ◌∷◌, ◌++◌, Option, none, some, ◌≡◌, refl, ◌∙◌}
use pigsydust.Command.{Command}
use pigsydust.Command.Build.{on_off, set_utc, status_query}
use pigsydust.Notification.Payload.{DeviceStatus}
use pigsydust.Programs.Smoke.{mudroom_addr, opening, closing}

-- What the lamp does with a command, as the protocol documents it: the on/off commands to its address
-- set it, and the clock and the status query leave it alone.
module _ (lamp : Command → Bool → Bool)
    (set : (on before : Bool) → lamp (on_off mudroom_addr on) before ≡ on)
    (clock : (now : ℕ) (before : Bool) → lamp (set_utc now) before ≡ before)
    (asked : (before : Bool) → lamp status_query before ≡ before) where
  -- The lamp after some commands.
  abbrev pub after : List Command → Bool → Bool
  after [] on = on
  after (cmd ∷ cmds) on = after cmds (lamp cmd on)

  after-append : (xs ys : List Command) (on : Bool) → after (xs ++ ys) on ≡ after ys (after xs on)
  after-append [] ys on = refl
  after-append (cmd ∷ cmds) ys on = after-append cmds ys (lamp cmd on)

  after-opening : (now : ℕ) (on : Bool) → after (opening now) on ≡ false
  unfolding opening
  after-opening now on = set false _

  after-closing :
      (mudroom : DeviceStatus) (on : Bool) → after (closing (some mudroom)) on ≡ mudroom.on
  unfolding closing
  after-closing mudroom on = set mudroom.on _

  -- If the lamp's status, when the program looks at it, is the state that the lamp is in by then, the
  -- lamp is off at the end, whether it was on or off before the program ran: its state is not
  -- restored. The same holds when the lamp has not reported.
  pub smoke_leaves_off :
      (now : ℕ) (original : Bool) (report : Option DeviceStatus)
      → ((mudroom : DeviceStatus)
          → report ≡ some mudroom
          → mudroom.on ≡ after (opening now) original)
      → after (opening now ++ closing report) original ≡ false
  unfolding closing
  smoke_leaves_off now original none faithful =
      after-append (opening now) [] original ∙ after-opening now original
  smoke_leaves_off now original (some mudroom) faithful =
      after-append (opening now) (closing (some mudroom)) original
      ∙ after-closing mudroom _
      ∙ faithful mudroom refl
      ∙ after-opening now original
