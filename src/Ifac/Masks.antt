-- ===== src/Ifac/Masks.antt =====
-- The mask loops of `seal` and `open` of packages/core/src/core/ifac.js: what each does past the
-- header, and that the second undoes the first.
use reticulum_js.Common.{
  ℕ, suc, ◌+◌, ◌-◌, ◌≤◌, ◌≡◌, refl, ap, arith, List, [], ◌∷◌, ◌++◌, bit_or, bit_xor, length, get_or,
  leb, length-drop, All, IsByte, All-drop, Bool-cases, inl, inr,
}
use reticulum_js.Common.Xor.{bit_xor_undo}
use reticulum_js.Ifac.{seal_mask, open_mask, last_bytes}

module _ (size : ℕ) (mask : List ℕ) where
  -- Past the first byte the two loops are the same.
  pub seal_mask_tail :
      (i : ℕ) (bs : List ℕ) → 1 ≤ i → seal_mask size mask i bs ≡ open_mask size mask i bs
  unfolding seal_mask open_mask
  seal_mask_tail i [] le = refl
  seal_mask_tail i (b ∷ bs) le = ground (arith, seal_mask_tail (suc i) bs (omega arith))

  -- The IFAC field is not masked.
  pub open_mask_field :
      (i : ℕ) (xs ys : List ℕ)
      → 2 ≤ i
      → i + length xs ≡ size + 2
      → open_mask size mask i (xs ++ ys) ≡ xs ++ open_mask size mask (size + 2) ys
  unfolding open_mask
  open_mask_field i [] ys le e = ap (λ (j : ℕ). open_mask size mask j ys) (omega arith)
  open_mask_field i (x ∷ xs) ys le e =
      ground (arith, open_mask_field (suc i) xs ys (omega arith) (omega arith))

  pub open_mask_undo : (i : ℕ) (bs : List ℕ) → open_mask size mask i (open_mask size mask i bs) ≡ bs
  unfolding open_mask
  open_mask_undo i [] = refl
  open_mask_undo i (b ∷ bs) =
      ground (arith, bit_xor_undo b (get_or mask i 0), open_mask_undo (suc i) bs)

  pub length-open_mask : (i : ℕ) (bs : List ℕ) → length (open_mask size mask i bs) ≡ length bs
  unfolding open_mask
  length-open_mask i [] = refl
  length-open_mask i (b ∷ bs) = ap suc (length-open_mask (suc i) bs)

  -- The whole of a packet, taken apart as header, field and rest.
  pub seal_mask_parts :
      (b_0 b_1 : ℕ) (field rest : List ℕ)
      → length field ≡ size
      → seal_mask size mask 0 (b_0 ∷ b_1 ∷ (field ++ rest))
        ≡ bit_or (bit_xor b_0 (get_or mask 0 0)) 0x80
          ∷ bit_xor b_1 (get_or mask 1 0)
          ∷ (field ++ open_mask size mask (size + 2) rest)
  seal_mask_parts b_0 b_1 field rest e =
      unfold seal_mask in
      ground (
        arith,
        seal_mask_tail 2 (field ++ rest) (omega arith),
        open_mask_field 2 field rest (omega arith) (omega arith),
      )

  pub open_mask_parts :
      (b_0 b_1 : ℕ) (field rest : List ℕ)
      → length field ≡ size
      → open_mask size mask 0 (b_0 ∷ b_1 ∷ (field ++ rest))
        ≡ bit_xor b_0 (get_or mask 0 0)
          ∷ bit_xor b_1 (get_or mask 1 0)
          ∷ (field ++ open_mask size mask (size + 2) rest)
  open_mask_parts b_0 b_1 field rest e =
      unfold open_mask in ground (arith, open_mask_field 2 field rest (omega arith) (omega arith))

pub length-last_bytes :
    (size : ℕ) (sig : List ℕ) → size ≤ length sig → length (last_bytes size sig) ≡ size
unfolding last_bytes
length-last_bytes size sig le = ground (arith, length-drop (length sig - size) sig)

pub last_bytes-All : (size : ℕ) (sig : List ℕ) → All IsByte sig → All IsByte (last_bytes size sig)
unfolding last_bytes
last_bytes-All size sig h = elim (Bool-cases (leb size (length sig))) [
  | inl e ↦ rw e (All-drop IsByte (length sig - size) sig h)
  | inr e ↦ rw e (All-drop IsByte (length sig - (size - length sig)) sig h)
]
