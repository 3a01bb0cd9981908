-- ===== src/Hkdf.antt =====
-- `hkdf` of packages/core/src/crypto/ciphers.js: HKDF (RFC 5869) over an HMAC. The HMAC itself is a
-- call of WebCrypto, and a parameter: `hmac key message`.
pub mod Length
pub mod Tests
use reticulum_js.Common.{
  ℕ, zero, suc, ◌+◌, ◌-◌, ◌%◌, min, Bool, true, false, List, [], ◌∷◌, ◌++◌, ◌==◌, if◌then◌else◌,
  length, take, replicate,
}

-- The key of `hmac` in HKDF-Extract.
unfoldable pub extract_key : List ℕ → List ℕ
extract_key salt = if length salt == 0 then replicate 32 0 else salt

module _ (hmac : List ℕ → List ℕ → List ℕ) where
  -- The loop of HKDF-Expand: `need` bytes are still to come. `counter` is stored in one byte.
  unfoldable pub expand : ℕ → List ℕ → List ℕ → ℕ → List ℕ → ℕ → List ℕ
  expand zero prk info need last_t counter = []
  expand (suc fuel) prk info need last_t counter = elim (need == 0) [
    | true ↦ []
    | false ↦
        let t = hmac prk (last_t ++ (info ++ (counter % 256) ∷ [])) in
        let to_copy : ℕ = min (length t) need in
        take to_copy t ++ expand fuel prk info (need - to_copy) t (counter + 1)
  ]

  unfoldable pub hkdf : List ℕ → List ℕ → List ℕ → ℕ → List ℕ
  hkdf master_key salt info length_in_bytes =
      expand length_in_bytes (hmac (extract_key salt) master_key) info length_in_bytes [] 1
