-- ===== src/Framing/Kiss/Escape.antt =====
-- `kissEscape` and `kissUnescape` of packages/core/src/transport/kiss-framer.js.
use reticulum_js.Common.{ℕ, ◌≡◌, ◌≢◌, refl, arith, List, [], ◌∷◌, ok, ◌>>=◌, All}
use reticulum_js.Framing.Kiss.{fend, fesc, tfend, tfesc, kiss_escape, kiss_unescape}

unescape_byte :
    (b : ℕ) (bytes : List ℕ)
    → b ≢ fesc
    → kiss_unescape (b ∷ bytes) ≡ (kiss_unescape bytes >>= λ out. ok (b ∷ out))
unfolding kiss_unescape
unescape_byte b [] h = ground arith
unescape_byte b (c ∷ bytes) h = ground arith

unescape_fesc :
    (bytes : List ℕ)
    → kiss_unescape (fesc ∷ tfesc ∷ bytes) ≡ (kiss_unescape bytes >>= λ out. ok (fesc ∷ out))
unfolding kiss_unescape
unescape_fesc bytes = refl

unescape_fend :
    (bytes : List ℕ)
    → kiss_unescape (fesc ∷ tfend ∷ bytes) ≡ (kiss_unescape bytes >>= λ out. ok (fend ∷ out))
unfolding kiss_unescape
unescape_fend bytes = refl

-- Unescaping gives back what was escaped, whatever the data.
pub kiss_unescape-escape : (bytes : List ℕ) → kiss_unescape (kiss_escape bytes) ≡ ok bytes
unfolding kiss_escape
kiss_unescape-escape [] = unfold kiss_unescape in refl
kiss_unescape-escape (b ∷ bytes) = ground (
  arith,
  kiss_unescape-escape bytes,
  unescape_fesc (kiss_escape bytes),
  unescape_fend (kiss_escape bytes),
  unescape_byte b (kiss_escape bytes),
)

-- Escaped data holds no FEND, so a FEND on the wire always bounds a frame.
pub escape_no_fend : (bytes : List ℕ) → All (λ b. b ≢ fend) (kiss_escape bytes)
unfolding kiss_escape
escape_no_fend [] = tt
escape_no_fend (b ∷ bytes) = ground (arith, escape_no_fend bytes)
