-- ===== src/Ifac/Access.antt =====
-- `seal` and `open` of packages/core/src/core/ifac.js fit one another, and `open` lets nothing else in.
use reticulum_js.Common.{
  ℕ, ◌+◌, ◌≤◌, ◌<◌, ◌≡◌, refl, sym, ap, ◌∙◌, arith, true, false, some, List, [], ◌∷◌, ◌++◌, bit_and,
  bit_or, bit_xor, length, get_or, take, drop, All, IsByte, length-append, take-append-drop,
  length-take, length-drop, All-take, ◌↔◌,
}
use reticulum_js.Common.Bits.{mask_flag_clear, mask_flag_set, bit_and_7f}
use reticulum_js.Common.Xor.{bit_xor_undo}
use reticulum_js.Encoding.{bytes_equal}
use reticulum_js.Encoding.Compare.{bytes_equal_iff, xor_facts}
use reticulum_js.Ifac.{
  Primitives, IfacConfig, seal, open_sealed, strip_ifac, open_mask, has_ifac_flag,
}
use reticulum_js.Ifac.Masks.{open_mask_undo, length-open_mask}
use reticulum_js.Ifac.Parts.{
  IsSound, ifac_of, mask_of, length-ifac_of, ifac_of-All, mask-IsByte, seal_lem, strip_lem,
  open_lem, open_some, has_ifac_flag_lem, flag_low, no_flag, open_sealed_long,
}

module _ (c : Primitives) (cfg : IfacConfig) (sound : IsSound c) (small : cfg.ifac_size ≤ 64) where
  -- What `seal` makes of a packet is opened to the same packet.
  pub sealed_is_opened :
      (b_0 b_1 : ℕ) (rest sealed : List ℕ)
      → b_0 < 128
      → 0 < length rest
      → seal c (b_0 ∷ b_1 ∷ rest) cfg ≡ some sealed
      → open_sealed c sealed cfg ≡ some (b_0 ∷ b_1 ∷ rest)
  sealed_is_opened b_0 b_1 rest sealed low some_byte e =
      let raw : List ℕ = b_0 ∷ b_1 ∷ rest in
      let ifac : List ℕ = ifac_of c cfg raw in
      let mask : List ℕ = mask_of c cfg ifac (length raw + cfg.ifac_size) in
      let body : List ℕ = open_mask cfg.ifac_size mask (cfg.ifac_size + 2) rest in
      let s_0 : ℕ = bit_or (bit_xor (bit_or b_0 0x80) (get_or mask 0 0)) 0x80 in
      let s_1 : ℕ = bit_xor b_1 (get_or mask 1 0) in
      let full = length-ifac_of c cfg sound small raw in
      let same_length = length-open_mask cfg.ifac_size mask (cfg.ifac_size + 2) rest in
      let same_mask : mask_of c cfg ifac (length (s_0 ∷ s_1 ∷ (ifac ++ body))) ≡ mask =
        ap (λ (n : ℕ). mask_of c cfg ifac n) (omega (arith, length-append ifac body)) in
      let back : strip_ifac c (s_0 ∷ s_1 ∷ (ifac ++ body)) cfg ≡ raw =
        strip_lem c cfg sound small s_0 s_1 ifac body mask full same_mask
        ∙ rw
            (
              mask_flag_clear b_0 (get_or mask 0 0) low
                  (mask-IsByte c cfg sound small ifac (length raw + cfg.ifac_size)),
              bit_xor_undo b_1 (get_or mask 1 0),
              open_mask_undo cfg.ifac_size mask (cfg.ifac_size + 2) rest,
            )
            refl in
      let bytes = ifac_of-All c cfg sound small raw in
      let same : bytes_equal ifac ifac ≡ true = (bytes_equal_iff ifac ifac bytes bytes).1 refl in
      let is : sealed ≡ s_0 ∷ s_1 ∷ (ifac ++ body) =
        ground (arith, e, seal_lem c cfg sound small b_0 b_1 rest ifac mask refl refl) in
      rw is (open_lem c cfg sound small s_0 s_1 ifac body full (omega arith) ∙ rw (back, same) refl)

  -- What is opened was sealed from what comes out.
  opened_was_sealed :
      (s_0 s_1 : ℕ) (ifac body raw : List ℕ)
      → length ifac ≡ cfg.ifac_size
      → 0 < length body
      → 128 ≤ s_0
      → s_0 < 256
      → All IsByte ifac
      → open_sealed c (s_0 ∷ s_1 ∷ (ifac ++ body)) cfg ≡ some raw
      → (seal c raw cfg ≡ some (s_0 ∷ s_1 ∷ (ifac ++ body)))
        × (has_ifac_flag raw ≡ false)
        × (2 < length raw)
  opened_was_sealed s_0 s_1 ifac body raw el some_byte high byte bytes e =
      let mask : List ℕ = mask_of c cfg ifac (length (s_0 ∷ s_1 ∷ (ifac ++ body))) in
      let b_0 : ℕ = bit_and (bit_xor s_0 (get_or mask 0 0)) 0x7f in
      let b_1 : ℕ = bit_xor s_1 (get_or mask 1 0) in
      let rest : List ℕ = open_mask cfg.ifac_size mask (cfg.ifac_size + 2) body in
      let stripped = strip_lem c cfg sound small s_0 s_1 ifac body mask el refl in
      let (is, same) =
        open_some ifac (ifac_of c cfg (b_0 ∷ b_1 ∷ rest)) (b_0 ∷ b_1 ∷ rest) raw bytes
          (ifac_of-All c cfg sound small (b_0 ∷ b_1 ∷ rest))
          (sym (open_lem c cfg sound small s_0 s_1 ifac body el some_byte ∙ rw stripped refl)
            ∙ e) in
      let same_length = length-open_mask cfg.ifac_size mask (cfg.ifac_size + 2) body in
      let same_mask : mask_of c cfg ifac (length (b_0 ∷ b_1 ∷ rest) + cfg.ifac_size) ≡ mask =
        ap (λ (n : ℕ). mask_of c cfg ifac n) (omega (arith, length-append ifac body)) in
      let m_0-IsByte = mask-IsByte c cfg sound small ifac (length (s_0 ∷ s_1 ∷ (ifac ++ body))) in
      let (unmasked, _) = xor_facts s_0 (get_or mask 0 0) byte m_0-IsByte in
      rw (sym is) (
        seal_lem c cfg sound small b_0 b_1 rest ifac mask (sym same) same_mask
            ∙ rw
                (
                  mask_flag_set s_0 (get_or mask 0 0) high byte m_0-IsByte,
                  bit_xor_undo s_1 (get_or mask 1 0),
                  open_mask_undo cfg.ifac_size mask (cfg.ifac_size + 2) body,
                )
                refl,
        flag_low b_0 (b_1 ∷ rest)
            (omega (arith, bit_and_7f (bit_xor s_0 (get_or mask 0 0)) unmasked)),
        omega (arith, same_length),
      )

  pub forth :
      (sealed raw : List ℕ)
      → All IsByte sealed
      → has_ifac_flag sealed ≡ true
      → open_sealed c sealed cfg ≡ some raw
      → (seal c raw cfg ≡ some sealed) × (has_ifac_flag raw ≡ false) × (2 < length raw)
  forth [] raw h flag e = absurd (no_flag flag)
  forth (s_0 ∷ []) raw h flag e = absurd (omega (arith, open_sealed_long c cfg (s_0 ∷ []) raw e))
  forth (s_0 ∷ s_1 ∷ tail) raw h flag e =
      let size : ℕ = cfg.ifac_size in
      let cut = take-append-drop size tail in
      let long = open_sealed_long c cfg (s_0 ∷ s_1 ∷ tail) raw e in
      rw (sym cut) (
        opened_was_sealed s_0 s_1 (take size tail) (drop size tail) raw
          (omega (arith, length-take size tail)) (omega (arith, length-drop size tail))
          (ground (arith, has_ifac_flag_lem s_0 (s_1 ∷ tail) h.0)) h.0
          (All-take IsByte size tail h.1.1) (rw cut e))

  pub back :
      (sealed raw : List ℕ)
      → All IsByte raw
      → (seal c raw cfg ≡ some sealed) × (has_ifac_flag raw ≡ false) × (2 < length raw)
      → open_sealed c sealed cfg ≡ some raw
  back sealed [] h (e, flag, long) = absurd (omega arith)
  back sealed (b_0 ∷ []) h (e, flag, long) = absurd (omega arith)
  back sealed (b_0 ∷ b_1 ∷ rest) h (e, flag, long) =
      sealed_is_opened b_0 b_1 rest sealed (ground (arith, has_ifac_flag_lem b_0 (b_1 ∷ rest) h.0))
        (omega arith) e

-- With an IFAC of at most 64 bytes, over primitives that return octets and signatures of 64 bytes,
-- and for byte arrays of which the sealed one has its flag set: `open` returns a packet exactly when
-- the sealed bytes are those that `seal` makes of that packet with the same key and size, and the
-- packet has its flag clear and more than two bytes.
pub open-seal :
    (c : Primitives) (cfg : IfacConfig) (sealed raw : List ℕ)
    → IsSound c
    → cfg.ifac_size ≤ 64
    → All IsByte sealed
    → All IsByte raw
    → has_ifac_flag sealed ≡ true
    → (open_sealed c sealed cfg ≡ some raw)
      ↔ ((seal c raw cfg ≡ some sealed) × (has_ifac_flag raw ≡ false) × (2 < length raw))
open-seal c cfg sealed raw sound small hs hr flag =
    (forth c cfg sound small sealed raw hs flag, back c cfg sound small sealed raw hr)
