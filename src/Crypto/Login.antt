-- ===== src/Crypto/Login.antt =====
-- crypto/login.go: the pairing request, the pairing response and the session key.
pub mod Laws
use pigsydust.Prelude.{ℕ, ◌+◌, ◌≡◌, ltb, not, ◌==◌, if◌then◌else◌, List, [], ◌∷◌, ◌++◌, length}
use pigsydust.Prelude.{take, drop, set}
use pigsydust.Prelude.Go.{
  Go, ok, err, panic, ◌>>=◌, index, login_response_short, login_response_tag,
}
use pigsydust.Byteutil.{byte_at, zeros, copy_slice, pad16, xor16}
use pigsydust.Crypto.{Aes, reversed_aes}

abbrev pub login_request_tag : ℕ
login_request_tag = 0x0C

abbrev pub login_response_tag_byte : ℕ
login_response_tag_byte = 0x0D

-- `make` of a zero array and the copies of `randA` and `randB` into its halves.
unfoldable pub key_of_rand_a : List ℕ → List ℕ
unfolding copy_slice
key_of_rand_a rand_a = copy_slice 0 8 (zeros 16) rand_a

unfoldable pub session_plaintext : List ℕ → List ℕ → List ℕ
unfolding copy_slice
session_plaintext rand_a rand_b = copy_slice 8 16 (copy_slice 0 8 (zeros 16) rand_a) rand_b

unfoldable pub credentials : List ℕ → List ℕ → List ℕ
credentials name password = xor16 (pad16 name) (pad16 password)

unfoldable pub build_login_request : Aes → List ℕ → List ℕ → List ℕ → List ℕ
build_login_request aes name password rand_a =
    let ct = reversed_aes aes (key_of_rand_a rand_a) (credentials name password) in
    let req = set (zeros 17) 0 login_request_tag in
    copy_slice 9 17 (copy_slice 1 9 req rand_a) (take 8 ct)

-- Bytes 1 to 8 of a response of at least 17 bytes that starts with the response tag.
unfoldable pub parse_login_response : List ℕ → Go (List ℕ)
parse_login_response resp =
    if ltb (length resp) 17 then err (login_response_short (length resp)) else do
      tag ← index resp 0
      if not (tag == login_response_tag_byte)
          then err (login_response_tag tag)
          else ok (take 8 (drop 1 resp))

unfoldable pub derive_session_key : Aes → List ℕ → List ℕ → List ℕ → List ℕ → List ℕ
derive_session_key aes name password rand_a rand_b =
    reversed_aes aes (credentials name password) (session_plaintext rand_a rand_b)
