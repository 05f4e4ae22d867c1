-- ===== src/Crypto/Login/Laws.antt =====
-- The pairing handshake: layouts, the parser's branches and the two derivations.
use pigsydust.Prelude.{ℕ, ◌≤◌, ◌<◌, ◌≡◌, ◌≢◌, refl, sym, ap, ◌∙◌, arith, List, [], ◌∷◌, ◌++◌}
use pigsydust.Prelude.{
  length, take, drop, length-append, take-length-append, eq-tabulate, tabulate, subst, All,
}
use pigsydust.Prelude.Go.{ok, err, index, login_response_short, login_response_tag}
use pigsydust.Byteutil.{IsByte, IsArray, byte_at, zeros, pad16, xor16}
use pigsydust.Byteutil.Laws.{
  All-append-IsByte, xor16_comm, length-pad16, pad16-IsArray, xor16-IsArray, reverse16-IsArray,
}
use pigsydust.Crypto.{Aes, IsCipher, reversed_aes}
use pigsydust.Crypto.Login.{build_login_request, parse_login_response, derive_session_key}
use pigsydust.Crypto.Login.{key_of_rand_a, session_plaintext, credentials}

-- A response is accepted exactly when it has 17 bytes at least and starts with 0x0D, and then its
-- bytes 1 to 8 are returned; a short one and a wrong tag are the two errors, and nothing panics.
pub parse_login_response_cases :
    (resp : List ℕ)
    → (length resp < 17 → parse_login_response resp ≡ err (login_response_short (length resp)))
      × (17 ≤ length resp
          → byte_at resp 0 ≢ 0x0D
          → parse_login_response resp ≡ err (login_response_tag (byte_at resp 0)))
      × (17 ≤ length resp
          → byte_at resp 0 ≡ 0x0D
          → parse_login_response resp ≡ ok (take 8 (drop 1 resp)))
unfolding parse_login_response index
parse_login_response_cases [] = (λ h. ground arith, λ h ne. ground arith, λ h e. ground arith)
parse_login_response_cases (b ∷ resp) =
    (λ h. ground arith, λ h ne. ground arith, λ h e. ground arith)

-- The response that a node with `rand_b` sends, with anything behind it, is read back.
pub parse_login_response_read :
    (rand_b rest : List ℕ)
    → length rand_b ≡ 8
    → 8 ≤ length rest
    → parse_login_response (0x0D ∷ (rand_b ++ rest)) ≡ ok rand_b
parse_login_response_read rand_b rest h k =
    (parse_login_response_cases (0x0D ∷ (rand_b ++ rest))).2
      (omega (arith, length-append rand_b rest)) refl
    ∙ ap (λ (n : ℕ). ok (take n (rand_b ++ rest))) (sym h)
    ∙ ap ok (take-length-append rand_b rest)

-- The request is the tag, `rand_a`, and the first half of the padded name and password, masked with
-- each other and encrypted under `rand_a` and eight zeros: 17 bytes.
pub build_login_request_layout :
    (aes : Aes) (name password rand_a : List ℕ)
    → length rand_a ≡ 8
    → (build_login_request aes name password rand_a
        ≡ 0x0C
          ∷ (rand_a
              ++ take 8
                  (reversed_aes aes (rand_a ++ zeros 8) (xor16 (pad16 name) (pad16 password)))))
      × (length (build_login_request aes name password rand_a) ≡ 17)
unfolding build_login_request credentials key_of_rand_a reversed_aes
build_login_request_layout aes name password rand_a h =
    subst
      (λ r.
        (build_login_request aes name password r
          ≡ 0x0C
            ∷ (r ++ take 8 (reversed_aes aes (r ++ zeros 8) (xor16 (pad16 name) (pad16 password)))))
        × (length (build_login_request aes name password r) ≡ 17))
      (sym (eq-tabulate 0 8 rand_a h)) (refl, refl)

-- The session key encrypts `rand_a` and `rand_b` under the masked credentials, the opposite
-- assignment of the request.
pub derive_session_key_layout :
    (aes : Aes) (name password rand_a rand_b : List ℕ)
    → length rand_a ≡ 8
    → length rand_b ≡ 8
    → derive_session_key aes name password rand_a rand_b
      ≡ reversed_aes aes (xor16 (pad16 name) (pad16 password)) (rand_a ++ rand_b)
unfolding derive_session_key credentials session_plaintext
derive_session_key_layout aes name password rand_a rand_b h k =
    subst
      (λ a.
        (b : List ℕ)
        → length b ≡ 8
        → derive_session_key aes name password a b
          ≡ reversed_aes aes (xor16 (pad16 name) (pad16 password)) (a ++ b))
      (sym (eq-tabulate 0 8 rand_a h))
      (λ b e.
        subst
          (λ r.
            derive_session_key aes name password (tabulate 8 (byte_at rand_a)) r
            ≡ reversed_aes aes (xor16 (pad16 name) (pad16 password))
                (tabulate 8 (byte_at rand_a) ++ r))
          (sym (eq-tabulate 0 8 b e)) refl)
      rand_b k

-- The key is 16 bytes, whatever the credentials and the two random parts.
pub derive_session_key-IsArray :
    (aes : Aes) (name password rand_a rand_b : List ℕ)
    → IsCipher aes
    → All IsByte name
    → All IsByte password
    → IsArray 8 rand_a
    → IsArray 8 rand_b
    → IsArray 16 (derive_session_key aes name password rand_a rand_b)
unfolding reversed_aes
derive_session_key-IsArray aes name password rand_a rand_b cipher hn hp ha hb =
    rw (derive_session_key_layout aes name password rand_a rand_b ha.0 hb.0) (
      reverse16-IsArray _
        (cipher _ _
          (reverse16-IsArray _
            (xor16-IsArray _ _ (pad16-IsArray name hn) (pad16-IsArray password hp)).1)
          (reverse16-IsArray _ (All-append-IsByte rand_a rand_b ha.1 hb.1))).1)

-- The name and the password are interchangeable: the request and the key depend on their masked
-- padding alone.
pub credentials_swapped :
    (aes : Aes) (name password rand_a rand_b : List ℕ)
    → (build_login_request aes name password rand_a ≡ build_login_request aes password name rand_a)
      × (derive_session_key aes name password rand_a rand_b
          ≡ derive_session_key aes password name rand_a rand_b)
unfolding build_login_request derive_session_key
credentials_swapped aes name password rand_a rand_b =
    (rw (swapped name password) refl, rw (swapped name password) refl)
  where
    swapped : (a b : List ℕ) → credentials a b ≡ credentials b a
    swapped a b =
        unfold credentials in xor16_comm (pad16 a) (pad16 b) (length-pad16 a ∙ sym (length-pad16 b))
