-- ===== src/Pkcs7/Tests.antt =====
-- Runs of packages/core/src/crypto/pkcs7.js, and the theorems at concrete data.
use reticulum_js.Common.{◌≡◌, refl, [], ◌∷◌, replicate, ok, err}
use reticulum_js.Pkcs7.{invalid_padding, pad, is_value, check, last, unpad}

pad_run : pad (1 ∷ 2 ∷ []) ≡ 1 ∷ 2 ∷ replicate 14 14
unfolding pad
pad_run = refl

unpad_bad : unpad (5 ∷ 2 ∷ 3 ∷ []) ≡ err invalid_padding
unfolding unpad last check is_value
unpad_bad = refl

unpad_block : unpad (1 ∷ 2 ∷ replicate 14 14) ≡ ok (1 ∷ 2 ∷ [])
unfolding unpad last check is_value
unpad_block = refl
