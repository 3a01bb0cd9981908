-- ===== src/Hkdf/Tests.antt =====
-- Runs of `hkdf` over a small HMAC, and the witness.
use reticulum_js.Common.{ℕ, ◌+◌, ◌%◌, ◌≡◌, refl, arith, List, [], ◌∷◌, length, get_or}
use reticulum_js.Hkdf.{expand, extract_key, hkdf}
use reticulum_js.Hkdf.Length.{IsHmac}

-- A tag of two octets.
abbrev pub toy_hmac : List ℕ → List ℕ → List ℕ
toy_hmac key message =
    ((get_or key 0 0 + length message) % 256) ∷ ((get_or message 0 0 + 7) % 256) ∷ []

pub toy_hmac-IsHmac : IsHmac toy_hmac
toy_hmac-IsHmac = record {
  tag_filled = λ key message. omega arith;
  tag_bytes = λ key message. omega arith;
}

three_bytes : hkdf toy_hmac (1 ∷ []) (9 ∷ []) [] 3 ≡ 11 ∷ 8 ∷ 13 ∷ []
unfolding hkdf expand extract_key
three_bytes = refl
