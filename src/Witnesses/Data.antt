-- ===== src/Witnesses/Data.antt =====
-- A toy cipher, a toy node and the clients that talk to it.
use pigsydust.Prelude.{ℕ, List, [], ◌∷◌, ◌++◌, tabulate, true, false}
use pigsydust.Prelude.Go.{ok}
use pigsydust.Byteutil.{zeros, xor_bytes}
use pigsydust.Crypto.{Aes}
use pigsydust.Crypto.Login.{login_response_tag_byte}
use pigsydust.Client.{Session, Client, Transport}

abbrev pub toy : Aes
toy key block = xor_bytes key block

abbrev pub key_bytes : List ℕ
key_bytes = tabulate 16 (λ i. i)

abbrev pub gateway : List ℕ
gateway = 0x00 ∷ 0x21 ∷ 0x4D ∷ 0x10 ∷ 0x20 ∷ 0x30 ∷ []

abbrev pub rand_b : List ℕ
rand_b = 1 ∷ 2 ∷ 3 ∷ 4 ∷ 5 ∷ 6 ∷ 7 ∷ 8 ∷ []

-- The state of the toy node is the list of the packets written to it.
abbrev pub node : Transport (List (List ℕ))
node = record {
  write_pair = λ b t. (ok tt, b ∷ t);
  read_pair = λ t. (ok (login_response_tag_byte ∷ (rand_b ++ zeros 8)), t);
  write_command = λ b t. (ok tt, b ∷ t);
  subscribe_notify = λ t. (ok tt, t);
  gateway_mac = λ t. gateway;
}

abbrev pub session_of : ℕ → Session
session_of n = record {
  key = key_bytes;
  salt = 0xA5 ∷ 0x5A ∷ [];
  seq = n;
  gw_mac = gateway;
  logged_in = true;
}

abbrev pub open_client : Client
open_client = record {
  session = session_of 255;
  hb_once = true;
  hb_running = true;
  notify_active = false;
}
