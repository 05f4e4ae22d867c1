-- ===== src/Command/Group.antt =====
-- `SetGroupMembership` with more groups than a frame holds.
use pigsydust.Prelude.{ℕ, ◌<◌, ◌≡◌, arith, List, length}
use pigsydust.Prelude.{take, drop}
use pigsydust.Prelude.Go.{ok}
use pigsydust.Byteutil.{byte_at, copy, put_le16}
use pigsydust.Byteutil.Laws.{copy-zeros_cut}
use pigsydust.Command.{encode}
use pigsydust.Command.Encode.{encode_frame}
use pigsydust.Command.Build.{set_group_membership}

-- With more than eight groups (and fewer than 256) the frame still announces all of them, but it
-- carries the first eight alone.
pub set_group_membership_cut :
    (dst mac5 : ℕ) (groups : List ℕ)
    → 8 < length groups
    → length groups < 256
    → (bytes : List ℕ) × (encode (set_group_membership dst groups mac5) ≡ ok bytes)
      × (byte_at bytes 5 ≡ length groups)
      × (drop 7 bytes ≡ take 8 groups)
unfolding set_group_membership put_le16 copy
set_group_membership_cut dst mac5 groups h k =
    (_, encode_frame _ (omega arith), omega arith, copy-zeros_cut 8 groups (omega arith))
