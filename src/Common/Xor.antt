-- ===== src/Common/Xor.antt =====
-- Exclusive or on numbers of any size: what it does to the digits, and that it undoes itself.
use Prim.Native.Nat.{
  ℕ, zero, suc, ◌+◌, ◌*◌, ◌/◌, ◌%◌, ◌≤◌, digits, differ, bit_xor, bit_xor-bitwise,
}
use mathlib.Core.Path.{◌≡◌, refl, ap, ◌∙◌}
use native.Mathlib.Omega.{arith}

xor_digits : ℕ → ℕ → ℕ → ℕ
xor_digits n a b = digits (λ b. b) differ n a b

-- The count of digits to go does not matter once it is enough.
xor_digits_count : (n m a b : ℕ) → a ≤ n → a ≤ m → xor_digits n a b ≡ xor_digits m a b
unfolding xor_digits
xor_digits_count zero zero zero b hn hm = refl
xor_digits_count zero (suc m) zero b hn hm = refl
xor_digits_count (suc n) zero zero b hn hm = refl
xor_digits_count (suc n) (suc m) zero b hn hm = refl
xor_digits_count zero m (suc a) b hn hm = absurd (omega arith)
xor_digits_count (suc n) zero (suc a) b hn hm = absurd (omega arith)
xor_digits_count (suc n) (suc m) (suc a) b hn hm =
    ap (λ (t : ℕ). t * 2 + differ (suc a % 2) (b % 2))
      (xor_digits_count n m (suc a / 2) (b / 2) (omega arith) (omega arith))

bit_xor_lem : (a b : ℕ) → bit_xor a b ≡ xor_digits a a b
unfolding xor_digits
bit_xor_lem a b = λ i. bit_xor-bitwise a b i

digits_step :
    (a b : ℕ) → xor_digits a a b ≡ xor_digits (a / 2) (a / 2) (b / 2) * 2 + differ (a % 2) (b % 2)
unfolding xor_digits
digits_step zero b = omega arith
digits_step (suc a) b =
    ap (λ (t : ℕ). t * 2 + differ (suc a % 2) (b % 2))
      (xor_digits_count a (suc a / 2) (suc a / 2) (b / 2) (omega arith) (omega arith))

-- The lowest digit, and the others.
bit_xor_step : (a b : ℕ) → bit_xor a b ≡ bit_xor (a / 2) (b / 2) * 2 + differ (a % 2) (b % 2)
bit_xor_step a b = bit_xor_lem a b ∙ digits_step a b ∙ rw (bit_xor_lem (a / 2) (b / 2)) refl

differ_facts : (x y : ℕ) → x ≤ 1 → y ≤ 1 → (differ (differ x y) y ≡ x) × (differ x y ≤ 1)
differ_facts zero zero hx hy = omega arith
differ_facts zero (suc zero) hx hy = omega arith
differ_facts (suc zero) zero hx hy = omega arith
differ_facts (suc zero) (suc zero) hx hy = omega arith
differ_facts x (suc (suc y)) hx hy = absurd (omega arith)
differ_facts (suc (suc x)) y hx hy = absurd (omega arith)

-- What follows for the lowest digit and the others of an exclusive or.
bit_xor_parts :
    (a b : ℕ)
    → (bit_xor a b / 2 ≡ bit_xor (a / 2) (b / 2)) × (bit_xor a b % 2 ≡ differ (a % 2) (b % 2))
bit_xor_parts a b =
    let h = (differ_facts (a % 2) (b % 2) (omega arith) (omega arith)).1 in
    let e = bit_xor_step a b in (omega arith, omega arith)

undo_within : (k a b : ℕ) → a ≤ k → b ≤ k → bit_xor (bit_xor a b) b ≡ a
undo_within zero zero zero ha hb = rw (bit_xor_lem 0 0) refl
undo_within zero (suc a) b ha hb = absurd (omega arith)
undo_within zero a (suc b) ha hb = absurd (omega arith)
undo_within (suc k) a b ha hb =
    let (others, lowest) = bit_xor_parts a b in
    let ih = undo_within k (a / 2) (b / 2) (omega arith) (omega arith) in
    let (back, _) = differ_facts (a % 2) (b % 2) (omega arith) (omega arith) in
    bit_xor_step (bit_xor a b) b ∙ rw (others, lowest, ih, back) (omega arith)

pub bit_xor_undo : (a b : ℕ) → bit_xor (bit_xor a b) b ≡ a
bit_xor_undo a b = undo_within (a + b) a b (omega arith) (omega arith)
