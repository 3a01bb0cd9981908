-- ===== src/Ifac/Parts.antt =====
-- What `seal` and `open` of packages/core/src/core/ifac.js make of a packet, part by part: the header,
-- the IFAC and the rest, masked.
use reticulum_js.Common.{
  ℕ, ◌+◌, ◌-◌, ◌≤◌, ◌<◌, ◌≡◌, refl, sym, ◌∙◌, arith, true, false, none, some, List, [], ◌∷◌, ◌++◌,
  bit_and, bit_or, bit_xor, leb, length, get_or, drop, All, IsByte, length-append, take-append,
  drop-append, append-nil, All-get_or, if◌then◌else◌,
}
use reticulum_js.Common.Bits.{bit_and_80, bit_or_80}
use reticulum_js.Encoding.{bytes_equal}
use reticulum_js.Encoding.Compare.{bytes_equal_iff, xor_facts, or_facts}
use reticulum_js.Hkdf.{hkdf}
use reticulum_js.Hkdf.Length.{IsHmac, hkdf_lem}
use reticulum_js.Ifac.{
  Primitives, IfacConfig, seal, open_sealed, strip_ifac, last_bytes, open_mask, has_ifac_flag,
}
use reticulum_js.Ifac.Masks.{
  seal_mask_parts, open_mask_parts, length-open_mask, length-last_bytes, last_bytes-All,
}

-- What the documentation of the primitives says of them: an HMAC gives octets, an Ed25519 signature
-- has 64 of them.
pub record IsSound (c : Primitives) : Type 0 where
  pub hmac_sound : IsHmac c.hmac
  pub sign_length : (key message : List ℕ) → length (c.sign key message) ≡ 64
  pub sign_bytes : (key message : List ℕ) → All IsByte (c.sign key message)

-- A sealed packet: the header, the IFAC field and the rest, masked.
abbrev pub ifac_of : Primitives → IfacConfig → List ℕ → List ℕ
ifac_of c cfg raw = last_bytes cfg.ifac_size (c.sign cfg.ifac_key raw)

abbrev pub mask_of : Primitives → IfacConfig → List ℕ → ℕ → List ℕ
mask_of c cfg ifac n = hkdf c.hmac ifac cfg.ifac_key [] n

abbrev pub with_masks : IfacConfig → List ℕ → List ℕ → ℕ → ℕ → List ℕ → List ℕ
with_masks cfg mask ifac b_0 b_1 rest =
    bit_or (bit_xor (bit_or b_0 0x80) (get_or mask 0 0)) 0x80
    ∷ bit_xor b_1 (get_or mask 1 0)
    ∷ (ifac ++ open_mask cfg.ifac_size mask (cfg.ifac_size + 2) rest)

pub open_some :
    (ifac expected inner raw : List ℕ)
    → All IsByte ifac
    → All IsByte expected
    → (if bytes_equal ifac expected then some inner else none) ≡ some raw
    → (inner ≡ raw) × (ifac ≡ expected)
open_some ifac expected inner raw h h' e = ground (arith, bytes_equal_iff ifac expected h h')

pub has_ifac_flag_lem : (b : ℕ) (bs : List ℕ) → IsByte b → has_ifac_flag (b ∷ bs) ≡ leb 128 b
unfolding has_ifac_flag
has_ifac_flag_lem b bs h = ground (arith, bit_and_80 b h)

pub flag_low : (b : ℕ) (bs : List ℕ) → b < 128 → has_ifac_flag (b ∷ bs) ≡ false
flag_low b bs h = ground (arith, has_ifac_flag_lem b bs (omega arith))

pub no_flag : has_ifac_flag [] ≡ true → ⊥
unfolding has_ifac_flag
no_flag e = ground arith

-- What `open` returns something for is longer than its header and IFAC.
pub open_sealed_long :
    (c : Primitives) (cfg : IfacConfig) (sealed raw : List ℕ)
    → open_sealed c sealed cfg ≡ some raw
    → 2 + cfg.ifac_size < length sealed
unfolding open_sealed
open_sealed_long c cfg sealed raw e = ground arith

pub drop_past_two : (n x y : ℕ) (zs : List ℕ) → drop (2 + n) (x ∷ y ∷ zs) ≡ drop n zs
drop_past_two n x y zs = ground arith

module _ (c : Primitives) (cfg : IfacConfig) (sound : IsSound c) (small : cfg.ifac_size ≤ 64) where
  pub length-ifac_of : (raw : List ℕ) → length (ifac_of c cfg raw) ≡ cfg.ifac_size
  length-ifac_of raw =
      length-last_bytes cfg.ifac_size (c.sign cfg.ifac_key raw)
        (omega (arith, sound.sign_length cfg.ifac_key raw))

  pub mask-IsByte : (ifac : List ℕ) (n : ℕ) → IsByte (get_or (mask_of c cfg ifac n) 0 0)
  mask-IsByte ifac n =
      All-get_or IsByte 0 (mask_of c cfg ifac n) 0
        (hkdf_lem c.hmac sound.hmac_sound ifac cfg.ifac_key [] n).1 (omega arith)

  pub ifac_of-All : (raw : List ℕ) → All IsByte (ifac_of c cfg raw)
  ifac_of-All raw =
      last_bytes-All cfg.ifac_size (c.sign cfg.ifac_key raw) (sound.sign_bytes cfg.ifac_key raw)

  pub seal_lem :
      (b_0 b_1 : ℕ) (rest : List ℕ) (ifac mask : List ℕ)
      → ifac_of c cfg (b_0 ∷ b_1 ∷ rest) ≡ ifac
      → mask_of c cfg ifac (length (b_0 ∷ b_1 ∷ rest) + cfg.ifac_size) ≡ mask
      → seal c (b_0 ∷ b_1 ∷ rest) cfg ≡ some (with_masks cfg mask ifac b_0 b_1 rest)
  seal_lem b_0 b_1 rest ifac mask ei em =
      let full = length-ifac_of (b_0 ∷ b_1 ∷ rest) in
      let none_left : cfg.ifac_size - length ifac ≡ 0 = rw (sym ei) (omega arith) in
      unfold seal in
      rw
        (
          ei,
          em,
          none_left,
          append-nil ifac,
          seal_mask_parts cfg.ifac_size mask (bit_or b_0 0x80) b_1 ifac rest (rw (sym ei) full),
        )
        refl

  pub strip_lem :
      (s_0 s_1 : ℕ) (ifac body mask : List ℕ)
      → length ifac ≡ cfg.ifac_size
      → mask_of c cfg ifac (length (s_0 ∷ s_1 ∷ (ifac ++ body))) ≡ mask
      → strip_ifac c (s_0 ∷ s_1 ∷ (ifac ++ body)) cfg
        ≡ bit_and (bit_xor s_0 (get_or mask 0 0)) 0x7f
          ∷ bit_xor s_1 (get_or mask 1 0)
          ∷ open_mask cfg.ifac_size mask (cfg.ifac_size + 2) body
  strip_lem s_0 s_1 ifac body mask e em =
      unfold strip_ifac in
      rw
        (
          take-append cfg.ifac_size ifac body e,
          em,
          open_mask_parts cfg.ifac_size mask s_0 s_1 ifac body e,
          drop_past_two cfg.ifac_size (bit_xor s_0 (get_or mask 0 0))
              (bit_xor s_1 (get_or mask 1 0))
              (ifac ++ open_mask cfg.ifac_size mask (cfg.ifac_size + 2) body),
          drop-append cfg.ifac_size ifac (open_mask cfg.ifac_size mask (cfg.ifac_size + 2) body) e,
        )
        refl

  pub open_lem :
      (s_0 s_1 : ℕ) (ifac body : List ℕ)
      → length ifac ≡ cfg.ifac_size
      → 0 < length body
      → open_sealed c (s_0 ∷ s_1 ∷ (ifac ++ body)) cfg ≡ (
          if bytes_equal ifac (ifac_of c cfg (strip_ifac c (s_0 ∷ s_1 ∷ (ifac ++ body)) cfg))
          then some (strip_ifac c (s_0 ∷ s_1 ∷ (ifac ++ body)) cfg)
          else none)
  open_lem s_0 s_1 ifac body e some_byte =
      unfold open_sealed in
      ground (arith, length-append ifac body, take-append cfg.ifac_size ifac body e)

  pub seal_shape :
      (b_0 b_1 : ℕ) (rest : List ℕ)
      → (sealed : List ℕ) × (seal c (b_0 ∷ b_1 ∷ rest) cfg ≡ some sealed)
        × (length sealed ≡ length (b_0 ∷ b_1 ∷ rest) + cfg.ifac_size)
  seal_shape b_0 b_1 rest =
      let raw : List ℕ = b_0 ∷ b_1 ∷ rest in
      let ifac : List ℕ = ifac_of c cfg raw in
      let mask : List ℕ = mask_of c cfg ifac (length raw + cfg.ifac_size) in
      let body : List ℕ = open_mask cfg.ifac_size mask (cfg.ifac_size + 2) rest in
      let full = length-ifac_of raw in
      (
        with_masks cfg mask ifac b_0 b_1 rest,
        seal_lem b_0 b_1 rest ifac mask refl refl,
        omega (
          arith,
          length-append ifac body,
          length-open_mask cfg.ifac_size mask (cfg.ifac_size + 2) rest,
        ),
      )

  -- The flag of a sealed packet is set.
  pub sealed_flag :
      (b_0 b_1 : ℕ) (rest sealed : List ℕ)
      → IsByte b_0
      → seal c (b_0 ∷ b_1 ∷ rest) cfg ≡ some sealed
      → has_ifac_flag sealed ≡ true
  sealed_flag b_0 b_1 rest sealed h e =
      let raw : List ℕ = b_0 ∷ b_1 ∷ rest in
      let ifac : List ℕ = ifac_of c cfg raw in
      let n : ℕ = length raw + cfg.ifac_size in
      let m_0 : ℕ = get_or (mask_of c cfg ifac n) 0 0 in
      let (or_byte, _) = or_facts b_0 0x80 h (omega arith) in
      let (xor_byte, _) = xor_facts (bit_or b_0 0x80) m_0 or_byte (mask-IsByte ifac n) in
      let (byte, _) = or_facts (bit_xor (bit_or b_0 0x80) m_0) 0x80 xor_byte (omega arith) in
      let high = bit_or_80 (bit_xor (bit_or b_0 0x80) m_0) xor_byte in
      let is : with_masks cfg (mask_of c cfg ifac n) ifac b_0 b_1 rest ≡ sealed =
        ground (arith, e, seal_lem b_0 b_1 rest ifac (mask_of c cfg ifac n) refl refl) in
      rw (sym is) (
        has_ifac_flag_lem (bit_or (bit_xor (bit_or b_0 0x80) m_0) 0x80)
          (bit_xor b_1 (get_or (mask_of c cfg ifac n) 1 0)
            ∷ (ifac ++ open_mask cfg.ifac_size (mask_of c cfg ifac n) (cfg.ifac_size + 2) rest))
          byte
        ∙ ground (arith, high))
