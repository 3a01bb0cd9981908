-- ===== src/Packet/Flags.antt =====
-- The flags byte of packages/core/src/core/packet.js as arithmetic.
use reticulum_js.Common.{
  ◌/◌, bit_and, ℕ, ◌+◌, ◌*◌, ◌<◌, ◌≡◌, refl, ap, arith, Bool, true, false, bit_or, ◌==◌,
  if◌then◌else◌,
}
use reticulum_js.Common.Bits.{
  bit_and_0c, bit_and_10, bit_and_20, bit_and_40, bit_and_three, bit_or_nibble, bit_or_pair,
}
use reticulum_js.Packet.{has_bit, Packet, header_2, build_flags_byte, IsWellFormed}

abbrev pub bit : Bool → ℕ
bit true = 1
bit false = 0

-- The three upper flags, as the code sets them.
abbrev upper : Bool → Bool → Bool → ℕ
upper h c t =
    let f₁ : ℕ = if h then bit_or 0x00 0x40 else 0x00 in
    let f₂ : ℕ = if c then bit_or f₁ 0x20 else f₁ in if t then bit_or f₂ 0x10 else f₂

upper_lem : (h c t : Bool) → upper h c t ≡ bit h * 64 + bit c * 32 + bit t * 16
upper_lem true true true = refl
upper_lem true true false = refl
upper_lem true false true = refl
upper_lem true false false = refl
upper_lem false true true = refl
upper_lem false true false = refl
upper_lem false false true = refl
upper_lem false false false = refl

abbrev pub flags_value : Bool → Bool → Bool → ℕ → ℕ → ℕ
flags_value h c t d k = bit h * 64 + bit c * 32 + bit t * 16 + d * 4 + k

bit-lt : (b : Bool) → bit b < 2
bit-lt true = omega arith
bit-lt false = omega arith

lower_lem :
    (h c t : Bool) (d k : ℕ)
    → d < 4
    → k < 4
    → bit_or (bit_or (upper h c t) (d * 4)) k ≡ flags_value h c t d k
lower_lem h c t d k hd hk = omega (
  arith,
  upper_lem h c t,
  bit-lt h,
  bit-lt c,
  bit-lt t,
  ap (λ m. bit_or m k)
      (bit_or_nibble (upper h c t) (d * 4) (omega (arith, upper_lem h c t))
        (omega (arith, upper_lem h c t, bit-lt h, bit-lt c, bit-lt t)) (omega arith)),
  bit_or_pair (upper h c t + d * 4) k (omega (arith, upper_lem h c t))
      (omega (arith, upper_lem h c t, bit-lt h, bit-lt c, bit-lt t)) hk,
)

-- Of a well-formed packet the flags byte holds its five fields.
pub build_flags_byte_lem :
    (p : Packet)
    → IsWellFormed p
    → build_flags_byte p
      ≡ flags_value
          (p.header_type == header_2)
          p.context_flag
          (p.transport_type == 1)
          p.destination_type
          p.packet_type
unfolding build_flags_byte
build_flags_byte_lem p w = ground (
  arith,
  bit_and_three p.destination_type,
  bit_and_three p.packet_type,
  w.proof_of_link,
  lower_lem (p.header_type == header_2) p.context_flag (p.transport_type == 1) p.destination_type
      p.packet_type,
)

-- What `deserialize` reads out of such a byte.
pub flags_value_read :
    (h c t : Bool) (d k : ℕ)
    → d < 4
    → k < 4
    → (has_bit (flags_value h c t d k) 0x40 ≡ h)
      × (has_bit (flags_value h c t d k) 0x20 ≡ c)
      × (has_bit (flags_value h c t d k) 0x10 ≡ t)
      × (bit_and (flags_value h c t d k) 0x0c / 4 ≡ d)
      × (bit_and (flags_value h c t d k) 0x03 ≡ k)
      × (flags_value h c t d k < 128)
flags_value_read h c t d k hd hk = ground (
  arith,
  bit_and_40 (flags_value h c t d k),
  bit_and_20 (flags_value h c t d k),
  bit_and_10 (flags_value h c t d k),
  bit_and_0c (flags_value h c t d k),
  bit_and_three (flags_value h c t d k),
)
