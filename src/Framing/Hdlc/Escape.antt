-- ===== src/Framing/Hdlc/Escape.antt =====
-- `hdlcEscape` and `hdlcUnescape` of packages/core/src/transport/hdlc-framer.js.
use reticulum_js.Common.{
  ℕ, ◌*◌, ◌≤◌, ◌≡◌, ◌≢◌, ◌⊎◌, refl, ap, arith, not, ◌&&◌, List, [], ◌∷◌, bit_xor, ◌==◌,
  if◌then◌else◌, length, ok, err, ◌>>=◌, All, IsByte, Bool-cases, ==_iff, Result-cases, inl, inr,
}
use reticulum_js.Common.Bits.{bit_xor_20}
use reticulum_js.Framing.Hdlc.{invalid_escape, flag, esc, esc_mask, hdlc_escape, hdlc_unescape}

-- One round of the decoder on a byte that is not ESC.
unescape_byte :
    (b : ℕ) (bytes : List ℕ)
    → b ≢ esc
    → hdlc_unescape (b ∷ bytes) ≡ (hdlc_unescape bytes >>= λ out. ok (b ∷ out))
unfolding hdlc_unescape
unescape_byte b [] h = ground arith
unescape_byte b (c ∷ bytes) h = ground arith

unescape_pair :
    (b : ℕ) (bytes : List ℕ)
    → (b ≡ flag) ⊎ (b ≡ esc)
    → hdlc_unescape (esc ∷ bit_xor b esc_mask ∷ bytes)
      ≡ (hdlc_unescape bytes >>= λ out. ok (b ∷ out))
unfolding hdlc_unescape
unescape_pair b bytes (inl e) = rw e refl
unescape_pair b bytes (inr e) = rw e refl

-- Unescaping gives back what was escaped, whatever the data.
pub hdlc_unescape-escape : (bytes : List ℕ) → hdlc_unescape (hdlc_escape bytes) ≡ ok bytes
unfolding hdlc_escape
hdlc_unescape-escape [] = unfold hdlc_unescape in refl
hdlc_unescape-escape (b ∷ bytes) = ground (
  arith,
  hdlc_unescape-escape bytes,
  unescape_pair b (hdlc_escape bytes),
  unescape_byte b (hdlc_escape bytes),
)

-- Escaped data holds no FLAG, so a FLAG on the wire always bounds a frame.
pub escape_no_flag : (bytes : List ℕ) → All (λ b. b ≢ flag) (hdlc_escape bytes)
unfolding hdlc_escape
escape_no_flag [] = tt
escape_no_flag (b ∷ bytes) = ground (arith, escape_no_flag bytes)

-- The length at least stays and at most doubles.
pub length-escape :
    (bytes : List ℕ)
    → (length bytes ≤ length (hdlc_escape bytes)) × (length (hdlc_escape bytes) ≤ 2 * length bytes)
unfolding hdlc_escape
length-escape [] = omega arith
length-escape (b ∷ bytes) = ground (arith, length-escape bytes)

escape_pair :
    (b : ℕ) (bytes : List ℕ)
    → (b ≡ flag) ⊎ (b ≡ esc)
    → hdlc_escape (b ∷ bytes) ≡ esc ∷ bit_xor b esc_mask ∷ hdlc_escape bytes
unfolding hdlc_escape
escape_pair b bytes (inl e) = rw e refl
escape_pair b bytes (inr e) = rw e refl

escape_byte :
    (b : ℕ) (bytes : List ℕ) → b ≢ flag → b ≢ esc → hdlc_escape (b ∷ bytes) ≡ b ∷ hdlc_escape bytes
unfolding hdlc_escape
escape_byte b bytes hf he = ground arith

unescape_pair_step :
    (c : ℕ) (bytes : List ℕ)
    → hdlc_unescape (esc ∷ c ∷ bytes) ≡ (
        if not (bit_xor c esc_mask == flag) && not (bit_xor c esc_mask == esc)
        then err (invalid_escape c)
        else (hdlc_unescape bytes >>= λ out. ok (bit_xor c esc_mask ∷ out)))
unfolding hdlc_unescape
unescape_pair_step c bytes = refl

-- What a successful decoding started with.
unescape_pair_inv :
    (c : ℕ) (bytes : List ℕ) {out : List ℕ}
    → hdlc_unescape (esc ∷ c ∷ bytes) ≡ ok out
    → (rest : List ℕ) × (hdlc_unescape bytes ≡ ok rest)
      × (out ≡ bit_xor c esc_mask ∷ rest)
      × ((bit_xor c esc_mask ≡ flag) ⊎ (bit_xor c esc_mask ≡ esc))
unescape_pair_inv c bytes e = elim (Result-cases (hdlc_unescape bytes)) [
  | inl (r, er) ↦ (
    r,
    er,
    ground (arith, unescape_pair_step c bytes),
    ground (arith, unescape_pair_step c bytes),
  )
  | inr (x, ex) ↦ ground (arith, unescape_pair_step c bytes)
]

unescape_byte_inv :
    (b : ℕ) (bytes : List ℕ) {out : List ℕ}
    → b ≢ esc
    → hdlc_unescape (b ∷ bytes) ≡ ok out
    → (rest : List ℕ) × (hdlc_unescape bytes ≡ ok rest) × (out ≡ b ∷ rest)
unescape_byte_inv b bytes h e = elim (Result-cases (hdlc_unescape bytes)) [
  | inl (r, er) ↦ (r, er, cc (unescape_byte b bytes h))
  | inr (x, ex) ↦ cc (unescape_byte b bytes h)
]

-- A frame body has one escaped form: what decodes from bytes without a FLAG encodes to those bytes.
pub hdlc_escape-unescape :
    (bytes out : List ℕ)
    → All IsByte bytes
    → All (λ b. b ≢ flag) bytes
    → hdlc_unescape bytes ≡ ok out
    → hdlc_escape out ≡ bytes
hdlc_escape-unescape [] out hb hf e = unfold hdlc_unescape hdlc_escape in ground arith
hdlc_escape-unescape (b ∷ []) out hb hf e = unfold hdlc_unescape hdlc_escape in ground arith
hdlc_escape-unescape (b ∷ c ∷ bytes) out hb hf e = elim (Bool-cases (b == esc)) [
  | inl h ↦
      let is_esc = (==_iff b esc).0 h in
      let (rest, er, eo, which) = unescape_pair_inv c bytes (rw is_esc at e) in
      rw
        (
          eo,
          escape_pair (bit_xor c esc_mask) rest which,
          hdlc_escape-unescape bytes rest hb.1.1 hf.1.1 er,
          bit_xor_20 c hb.1.0,
        )
        (rw is_esc)
  | inr h ↦
      let (rest, er, eo) = unescape_byte_inv b (c ∷ bytes) (ground arith) e in
      rw (eo, escape_byte b rest hf.0 (ground arith))
        (ap (λ xs. b ∷ xs) (hdlc_escape-unescape (c ∷ bytes) rest hb.1 hf.1 er))
]
