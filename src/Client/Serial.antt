-- ===== src/Client/Serial.antt =====
-- session.go: the serial numbers of a session's commands, and the nonces made from them.
use pigsydust.Prelude.{
  ℕ, zero, suc, ◌+◌, ◌%◌, ◌<◌, ◌≡◌, ◌↔◌, refl, arith, ap, sym, ◌∙◌, List, [], ◌∷◌,
}
use pigsydust.Byteutil.{byte_at}
use pigsydust.Client.{Session, next_sno}

-- The session after `n` commands.
abbrev pub after : ℕ → Session → Session
after zero s = s
after (suc n) s = after n (next_sno s).1

-- The serial number of the command that follows `n` others.
abbrev pub serial : ℕ → Session → List ℕ
serial n s = (next_sno (after n s)).0

low_byte : (n : ℕ) (s : Session) → s.seq < 256 → (after n s).seq ≡ (s.seq + n) % 256
unfolding next_sno
low_byte zero s h = omega arith
low_byte (suc n) s h = low_byte n (next_sno s).1 (omega arith) ∙ omega arith

after_salt : (n : ℕ) (s : Session) → (after n s).salt ≡ s.salt
unfolding next_sno
after_salt zero s = refl
after_salt (suc n) s = after_salt n (next_sno s).1

-- Counting keeps the key, the salt, the gateway and the login, and the counter stays a byte.
pub after_keeps :
    (n : ℕ) (s : Session)
    → ((after n s).key ≡ s.key)
      × ((after n s).gw_mac ≡ s.gw_mac)
      × ((after n s).logged_in ≡ s.logged_in)
unfolding next_sno
after_keeps zero s = (refl, refl, refl)
after_keeps (suc n) s = after_keeps n (next_sno s).1

-- The serial number of the command that follows `n` others: the counter modulo 256, then the salt.
pub serial_bytes :
    (n : ℕ) (s : Session)
    → s.seq < 256
    → serial n s ≡ (s.seq + n) % 256 ∷ byte_at s.salt 0 ∷ byte_at s.salt 1 ∷ []
serial_bytes n s h = unfold next_sno in rw (low_byte n s h, after_salt n s) refl

-- Two commands of one session have the same serial number exactly when the numbers of commands
-- before them agree modulo 256: so none repeats within 256 commands, and the 257th reuses the first.
pub serial-eq_iff :
    (i j : ℕ) (s : Session) → s.seq < 256 → (serial i s ≡ serial j s) ↔ (i % 256 ≡ j % 256)
serial-eq_iff i j s h = (
  λ e.
      let low : (s.seq + i) % 256 ≡ (s.seq + j) % 256 =
        ap (λ (xs : List ℕ). byte_at xs 0) (sym (serial_bytes i s h) ∙ e ∙ serial_bytes j s h) in
      omega arith,
  λ same.
      serial_bytes i s h
      ∙ ap (λ (b : ℕ). b ∷ byte_at s.salt 0 ∷ byte_at s.salt 1 ∷ []) (omega arith)
      ∙ sym (serial_bytes j s h),
)
