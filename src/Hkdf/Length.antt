-- ===== src/Hkdf/Length.antt =====
-- `hkdf` returns what was asked for, where the HMAC returns something.
use reticulum_js.Common.{
  ℕ, zero, suc, ◌+◌, ◌-◌, ◌%◌, ◌≤◌, ◌<◌, min, ◌≡◌, refl, arith, List, [], ◌∷◌, ◌++◌, length, take,
  All, IsByte, length-append, length-take, All-append, All-take,
}
use reticulum_js.Hkdf.{expand, extract_key, hkdf}

-- What is known of an HMAC: its tag is not empty, and consists of octets.
pub record IsHmac (hmac : List ℕ → List ℕ → List ℕ) : Type 0 where
  pub tag_filled : (key message : List ℕ) → 0 < length (hmac key message)
  pub tag_bytes : (key message : List ℕ) → All IsByte (hmac key message)

module _ (hmac : List ℕ → List ℕ → List ℕ) (h : IsHmac hmac) where
  expand_step :
      (fuel : ℕ) (prk info : List ℕ) (need : ℕ) (last_t : List ℕ) (counter : ℕ) (t : List ℕ) (c : ℕ)
      → 0 < need
      → hmac prk (last_t ++ (info ++ (counter % 256) ∷ [])) ≡ t
      → min (length t) need ≡ c
      → expand hmac (suc fuel) prk info need last_t counter
        ≡ take c t ++ expand hmac fuel prk info (need - c) t (counter + 1)
  unfolding expand
  expand_step fuel prk info need last_t counter t c pos et ec = ground arith

  expand_done :
      (fuel : ℕ) (prk info last_t : List ℕ) (counter : ℕ)
      → expand hmac fuel prk info 0 last_t counter ≡ []
  unfolding expand
  expand_done zero prk info last_t counter = refl
  expand_done (suc fuel) prk info last_t counter = refl

  expand_lem :
      (fuel : ℕ) (prk info : List ℕ) (need : ℕ) (last_t : List ℕ) (counter : ℕ)
      → need ≤ fuel
      → (length (expand hmac fuel prk info need last_t counter) ≡ need)
        × All IsByte (expand hmac fuel prk info need last_t counter)
  expand_lem fuel prk info zero last_t counter le =
      rw (expand_done fuel prk info last_t counter) (refl, tt)
  expand_lem zero prk info (suc need) last_t counter le = absurd (omega arith)
  expand_lem (suc fuel) prk info (suc need) last_t counter le =
      let message : List ℕ = last_t ++ (info ++ (counter % 256) ∷ []) in
      let t : List ℕ = hmac prk message in
      let c : ℕ = min (length t) (suc need) in
      let filled = h.tag_filled prk message in
      let more : List ℕ = expand hmac fuel prk info (suc need - c) t (counter + 1) in
      let (whole, bytes) = expand_lem fuel prk info (suc need - c) t (counter + 1) (omega arith) in
      rw (expand_step fuel prk info (suc need) last_t counter t c (omega arith) refl refl) (
        omega (arith, length-append (take c t) more, length-take c t, whole),
        All-append IsByte (take c t) more (All-take IsByte c t (h.tag_bytes prk message)) bytes,
      )

-- Over an HMAC whose tags are not empty and consist of octets, `hkdf` returns exactly as many octets
-- as it was asked for: the loop ends, and leaves nothing unfilled.
pub hkdf_lem :
    (hmac : List ℕ → List ℕ → List ℕ)
    → IsHmac hmac
    → (master_key salt info : List ℕ) (n : ℕ)
    → (length (hkdf hmac master_key salt info n) ≡ n)
      × All IsByte (hkdf hmac master_key salt info n)
unfolding hkdf
hkdf_lem hmac h master_key salt info n =
    expand_lem hmac h n (hmac (extract_key salt) master_key) info n [] 1 (omega arith)
