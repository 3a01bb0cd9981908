-- ===== src/Encoding/Compare.antt =====
-- `bytesEqual` of packages/core/src/utils/encoding.js decides equality.
use reticulum_js.Common.{
  ℕ, ◌+◌, ◌≡◌, ◌↔◌, refl, ap, arith, true, ◌&&◌, List, [], ◌∷◌, bit_or, bit_xor, ltb, ◌==◌,
  if◌then◌else◌, length, All, IsByte,
}
use reticulum_js.Common.Bits.{all_below, at_bytes}
use reticulum_js.Encoding.{difference, bytes_equal}

-- Over all pairs of bytes, by evaluation.
xor_table :
    all_below 256
      (λ a. all_below 256 (λ b. if a == b then bit_xor a b == 0 else ltb 0 (bit_xor a b)))
    ≡ true
unfolding all_below
xor_table = refl

xor_byte_table : all_below 256 (λ a. all_below 256 (λ b. ltb (bit_xor a b) 256)) ≡ true
unfolding all_below
xor_byte_table = refl

or_table :
    all_below 256 (λ a.
      all_below 256
        (λ b. ltb (bit_or a b) 256 && (if a + b == 0 then bit_or a b == 0 else ltb 0 (bit_or a b))))
    ≡ true
unfolding all_below
or_table = refl

pub xor_facts :
    (a b : ℕ) → IsByte a → IsByte b → IsByte (bit_xor a b) × ((bit_xor a b ≡ 0) ↔ (a ≡ b))
xor_facts a b ha hb =
    ground (arith, at_bytes _ xor_table a b ha hb, at_bytes _ xor_byte_table a b ha hb)

pub or_facts :
    (a b : ℕ) → IsByte a → IsByte b → IsByte (bit_or a b) × ((bit_or a b ≡ 0) ↔ (a + b ≡ 0))
or_facts a b ha hb = ground (arith, at_bytes _ or_table a b ha hb)

difference_lem :
    (diff : ℕ) (a b : List ℕ)
    → IsByte diff
    → All IsByte a
    → All IsByte b
    → length a ≡ length b
    → (difference diff a b ≡ 0) ↔ ((diff ≡ 0) × (a ≡ b))
unfolding difference
difference_lem diff [] [] hd ha hb e = ground arith
difference_lem diff [] (y ∷ b) hd ha hb e = absurd (omega arith)
difference_lem diff (x ∷ a) [] hd ha hb e = absurd (omega arith)
difference_lem diff (x ∷ a) (y ∷ b) hd ha hb e =
    let xor = xor_facts x y ha.0 hb.0 in
    let or = or_facts diff (bit_xor x y) hd xor.0 in
    ground
      (arith, xor, or, difference_lem (bit_or diff (bit_xor x y)) a b or.0 ha.1 hb.1 (omega arith))

-- On byte arrays the accumulated difference is zero exactly for equal arrays.
pub bytes_equal_iff :
    (a b : List ℕ) → All IsByte a → All IsByte b → (bytes_equal a b ≡ true) ↔ (a ≡ b)
bytes_equal_iff a b ha hb = ((λ h. (forth h)), (λ e. back e))
  where
    forth : bytes_equal a b ≡ true → a ≡ b
    forth h = unfold bytes_equal in ground (arith, h, difference_lem 0 a b (omega arith) ha hb)

    back : a ≡ b → bytes_equal a b ≡ true
    back e =
        let same : length a ≡ length b = ap (λ (xs : List ℕ). length xs) e in
        unfold bytes_equal in ground (arith, same, difference_lem 0 a b (omega arith) ha hb same)
