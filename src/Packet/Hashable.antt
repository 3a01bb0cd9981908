-- ===== src/Packet/Hashable.antt =====
-- `Packet.getHashablePart` of packages/core/src/core/packet.js: what the packet hash is taken over.
use reticulum_js.Common.{
  ℕ, ◌+◌, ◌*◌, ◌≡◌, ap, ◌∙◌, arith, List, [], ◌∷◌, ◌++◌, bit_and, length, ok, drop-append,
}
use reticulum_js.Common.Bits.{bit_and_nibble}
use reticulum_js.Packet.{
  Packet, dst_len, header_1, header_2, serialize, get_hashable_part, hashable, IsWellFormed, direct,
  relayed,
}
use reticulum_js.Packet.RoundTrip.{after_header, flags_of, serialize_direct, serialize_relayed}

-- The type bits of the flags, then everything from the destination hash on.
abbrev pub identity_part : Packet → List ℕ
identity_part p = (p.destination_type * 4 + p.packet_type) ∷ after_header p

flags_nibble :
    (p : Packet)
    → IsWellFormed p
    → bit_and (flags_of p) 0x0f ≡ p.destination_type * 4 + p.packet_type
flags_nibble p w =
    ground (arith, bit_and_nibble (flags_of p), w.destination_type_fits, w.packet_type_fits)

hashable_direct :
    (p : Packet)
    → IsWellFormed p
    → p.header_type ≡ header_1
    → hashable p.header_type (flags_of p ∷ p.hops ∷ after_header p) ≡ identity_part p
unfolding hashable
hashable_direct p w h = ground (arith, flags_nibble p w)

hashable_relayed :
    (p : Packet) (id : List ℕ)
    → IsWellFormed p
    → p.header_type ≡ header_2
    → length id ≡ dst_len
    → hashable p.header_type (flags_of p ∷ p.hops ∷ (id ++ after_header p)) ≡ identity_part p
unfolding hashable
hashable_relayed p id w h fits =
    ground (arith, flags_nibble p w, drop-append 16 id (after_header p) fits)

-- Of a well-formed packet that has not been serialized yet, `getHashablePart` fills `raw` with the
-- wire bytes.
pub get_hashable_part_lem :
    (p : Packet)
    → IsWellFormed p
    → p.raw ≡ []
    → (bytes : List ℕ) × (serialize p ≡ ok bytes)
      × (get_hashable_part p ≡ ok (record p { raw = bytes }, identity_part p))
unfolding get_hashable_part
get_hashable_part_lem p w fresh = elim w.transport [
  | direct h hid ↦ (
    flags_of p ∷ p.hops ∷ after_header p,
    serialize_direct p w h,
    ground (arith, serialize_direct p w h, hashable_direct p w h),
  )
  | relayed id h hid fits ↦ (
    flags_of p ∷ p.hops ∷ (id ++ after_header p),
    serialize_relayed p w id h hid fits,
    ground (arith, serialize_relayed p w id h hid fits, hashable_relayed p id w h fits),
  )
]

-- Two well-formed packets, not serialized yet, that agree in destination hash and type, packet type, context and payload have
-- the same hashable part, whatever their hop counts, header types, transport ids, transport types
-- and context flags: relaying does not change a packet's hash.
pub relay_keeps_hash :
    (p q : Packet)
    → IsWellFormed p
    → IsWellFormed q
    → p.raw ≡ []
    → q.raw ≡ []
    → p.destination_hash ≡ q.destination_hash
    → p.destination_type ≡ q.destination_type
    → p.packet_type ≡ q.packet_type
    → p.context_byte ≡ q.context_byte
    → p.payload ≡ q.payload
    → (part : List ℕ) × (p' : Packet) × (q' : Packet) × (get_hashable_part p ≡ ok (p', part))
      × (get_hashable_part q ≡ ok (q', part))
relay_keeps_hash p q wp wq fp fq dest type kind ctx body =
    let (bp, sp, hp) = get_hashable_part_lem p wp fp in
    let (bq, sq, hq) = get_hashable_part_lem q wq fq in
    (
      identity_part p,
      record p { raw = bp },
      record q { raw = bq },
      hp,
      hq ∙ ap (λ part. ok (record q { raw = bq }, part)) (ground arith),
    )
