-- ===== src/Common/Bits.antt =====
-- Masks and exclusive or on small numbers, as arithmetic. Each law is a table checked by evaluation.
use Prim.Native.Nat.{ℕ, zero, suc, ◌+◌, ◌*◌, ◌/◌, ◌%◌, ◌≤◌, ◌<◌, bit_and, bit_or, bit_xor}
use mathlib.Core.Path.{◌≡◌, refl, sym, ap₂, ◌∙◌}
use mathlib.Core.Bool.{Bool, true, ◌&&◌}
use native.Mathlib.Omega.{arith}
use reticulum_js.Common.Tests.{◌==◌, ltb, leb, if◌then◌else◌}

-- Two functions agree below `n`.
agree : (ℕ → ℕ) → (ℕ → ℕ) → ℕ → Bool
agree f g zero = true
agree f g (suc n) = (f n == g n) && agree f g n

agree-eq : (f g : ℕ → ℕ) (n : ℕ) → agree f g n ≡ true → (x : ℕ) → x < n → f x ≡ g x
unfolding agree
agree-eq f g zero h x lt = absurd (omega arith)
agree-eq f g (suc n) h x lt = ground (arith, agree-eq f g n (ground arith) x)

pub bit_and_nibble : (b : ℕ) → b < 256 → bit_and b 0x0f ≡ b % 16
unfolding agree
bit_and_nibble = agree-eq _ _ 256 refl

pub bit_and_three : (b : ℕ) → b < 256 → bit_and b 0x03 ≡ b % 4
unfolding agree
bit_and_three = agree-eq _ _ 256 refl

pub bit_and_0c : (b : ℕ) → b < 256 → bit_and b 0x0c ≡ b / 4 % 4 * 4
unfolding agree
bit_and_0c = agree-eq _ _ 256 refl

pub bit_and_10 : (b : ℕ) → b < 256 → bit_and b 0x10 ≡ b / 16 % 2 * 16
unfolding agree
bit_and_10 = agree-eq _ _ 256 refl

pub bit_and_20 : (b : ℕ) → b < 256 → bit_and b 0x20 ≡ b / 32 % 2 * 32
unfolding agree
bit_and_20 = agree-eq _ _ 256 refl

pub bit_and_40 : (b : ℕ) → b < 256 → bit_and b 0x40 ≡ b / 64 % 2 * 64
unfolding agree
bit_and_40 = agree-eq _ _ 256 refl

pub bit_xor_20 : (b : ℕ) → b < 256 → bit_xor (bit_xor b 0x20) 0x20 ≡ b
unfolding agree
bit_xor_20 = agree-eq _ _ 256 refl

pub bit_and_ff : (b : ℕ) → b < 256 → bit_and b 0xff ≡ b
unfolding agree
bit_and_ff = agree-eq _ _ 256 refl

or_nibble_table : (n : ℕ) → n < 256 → bit_or (n / 16 * 16) (n % 16) ≡ n
unfolding agree
or_nibble_table = agree-eq _ _ 256 refl

or_pair_table : (n : ℕ) → n < 256 → bit_or (n / 4 * 4) (n % 4) ≡ n
unfolding agree
or_pair_table = agree-eq _ _ 256 refl

-- Where the bits of the two numbers do not meet, `|` is the sum.
pub bit_or_nibble : (m j : ℕ) → m % 16 ≡ 0 → m < 256 → j < 16 → bit_or m j ≡ m + j
bit_or_nibble m j h hm hj =
    let left : (m + j) / 16 * 16 ≡ m = omega arith in
    let right : (m + j) % 16 ≡ j = omega arith in
    ap₂ bit_or (sym left) (sym right) ∙ or_nibble_table (m + j) (omega arith)

pub bit_or_pair : (m j : ℕ) → m % 4 ≡ 0 → m < 256 → j < 4 → bit_or m j ≡ m + j
bit_or_pair m j h hm hj =
    let left : (m + j) / 4 * 4 ≡ m = omega arith in
    let right : (m + j) % 4 ≡ j = omega arith in
    ap₂ bit_or (sym left) (sym right) ∙ or_pair_table (m + j) (omega arith)

-- A test on all the numbers below `n`.
unfoldable pub all_below : ℕ → (ℕ → Bool) → Bool
all_below zero p = true
all_below (suc n) p = p n && all_below n p

pub all_below_sound : (n : ℕ) (p : ℕ → Bool) → all_below n p ≡ true → (x : ℕ) → x < n → p x ≡ true
unfolding all_below
all_below_sound zero p h x lt = absurd (omega arith)
all_below_sound (suc n) p h x lt = ground (arith, all_below_sound n p (ground arith) x)

pub at_bytes :
    (p : ℕ → ℕ → Bool)
    → all_below 256 (λ a. all_below 256 (p a)) ≡ true
    → (a b : ℕ) → a < 256
    → b < 256
    → p a b ≡ true
at_bytes p h a b ha hb =
    all_below_sound 256 (p a) (all_below_sound 256 (λ a. all_below 256 (p a)) h a ha) b hb

-- What setting and clearing the highest bit of a byte does on both sides of a mask.
flag_table :
    all_below 256 (λ a. all_below 256 (λ m.
      (if ltb a 128
        then bit_and (bit_xor (bit_or (bit_xor (bit_or a 0x80) m) 0x80) m) 0x7f == a
        else bit_or (bit_xor (bit_or (bit_and (bit_xor a m) 0x7f) 0x80) m) 0x80 == a)
      && leb 128 (bit_or a 0x80)))
    ≡ true
unfolding all_below
flag_table = refl

pub mask_flag_clear :
    (a m : ℕ)
    → a < 128
    → m < 256
    → bit_and (bit_xor (bit_or (bit_xor (bit_or a 0x80) m) 0x80) m) 0x7f ≡ a
mask_flag_clear a m ha hm = ground (arith, at_bytes _ flag_table a m (omega arith) hm)

pub mask_flag_set :
    (a m : ℕ)
    → 128 ≤ a
    → a < 256
    → m < 256
    → bit_or (bit_xor (bit_or (bit_and (bit_xor a m) 0x7f) 0x80) m) 0x80 ≡ a
mask_flag_set a m ha hb hm = ground (arith, at_bytes _ flag_table a m hb hm)

has_high_table :
    all_below 256 (λ b. if ltb b 128 then bit_and b 0x80 == 0 else ltb 0 (bit_and b 0x80)) ≡ true
unfolding all_below
has_high_table = refl

pub bit_and_80 : (b : ℕ) → b < 256 → (bit_and b 0x80 == 0) ≡ ltb b 128
bit_and_80 b h = ground (
  arith,
  all_below_sound 256 (λ a. if ltb a 128 then bit_and a 0x80 == 0 else ltb 0 (bit_and a 0x80))
      has_high_table b h,
)

pub bit_and_7f : (b : ℕ) → b < 256 → bit_and b 0x7f ≡ b % 128
unfolding agree
bit_and_7f = agree-eq _ _ 256 refl

pub bit_or_80 : (b : ℕ) → b < 256 → 128 ≤ bit_or b 0x80
bit_or_80 b h = ground (arith, at_bytes _ flag_table b 0 h (omega arith))

pub bit_and_1f : (b : ℕ) → b < 256 → bit_and b 0x1f ≡ b % 32
unfolding agree
bit_and_1f = agree-eq _ _ 256 refl

-- `|` with a mask above the bits of the other number is the sum.
pub bit_or_e0 : (x : ℕ) → x < 32 → bit_or 0xe0 x ≡ 0xe0 + x
unfolding agree
bit_or_e0 = agree-eq _ _ 32 refl

pub bit_or_a0 : (x : ℕ) → x < 32 → bit_or 0xa0 x ≡ 0xa0 + x
unfolding agree
bit_or_a0 = agree-eq _ _ 32 refl

pub bit_or_90 : (x : ℕ) → x < 16 → bit_or 0x90 x ≡ 0x90 + x
unfolding agree
bit_or_90 = agree-eq _ _ 16 refl

pub bit_or_high : (x : ℕ) → x < 16 → bit_or 0x80 x ≡ 0x80 + x
unfolding agree
bit_or_high = agree-eq _ _ 16 refl
