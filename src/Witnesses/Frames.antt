-- ===== src/Witnesses/Frames.antt =====
-- Commands and their frames.
use pigsydust.Prelude.{ℕ, ◌≡◌, refl, arith, List, [], ◌∷◌, length, take, drop, true}
use pigsydust.Prelude.Go.{ok}
use pigsydust.Byteutil.{byte_at}
use pigsydust.Command.{encode}
use pigsydust.Command.Encode.{Carries}
use pigsydust.Command.Build.{on_off, set_group_membership}
use pigsydust.Command.Laws.{by_on_off, Built-Carries}
use pigsydust.Command.Group.{set_group_membership_cut}

Built-Carries_example : (bytes : List ℕ) × Carries (on_off 0x30 true) bytes
Built-Carries_example = Built-Carries (on_off 0x30 true) (by_on_off 0x30 true (omega arith) refl)

abbrev nine_groups : List ℕ
nine_groups = 1 ∷ 2 ∷ 3 ∷ 4 ∷ 5 ∷ 6 ∷ 7 ∷ 8 ∷ 9 ∷ []

set_group_membership_cut_example :
    (bytes : List ℕ) × (encode (set_group_membership 0x30 nine_groups 0x44) ≡ ok bytes)
    × (byte_at bytes 5 ≡ length nine_groups)
    × (drop 7 bytes ≡ take 8 nine_groups)
set_group_membership_cut_example =
    set_group_membership_cut 0x30 0x44 nine_groups (omega arith) (omega arith)
