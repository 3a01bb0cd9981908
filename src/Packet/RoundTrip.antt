-- ===== src/Packet/RoundTrip.antt =====
-- `Packet.serialize` and `Packet.deserialize` of packages/core/src/core/packet.js undo one another.
use reticulum_js.Common.{
  ℕ, ◌/◌, ◌<◌, ◌≡◌, ap, ◌∙◌, arith, true, false, Option, none, some, List, ◌∷◌, ◌++◌, append-nil,
  bit_and, ◌==◌, if◌then◌else◌, length, length-append, take-append, drop-append_add,
  get_or-append_add, drop_past, get_or-append, take_all, ok,
}
use reticulum_js.Common.Bits.{bit_and_ff}
use reticulum_js.Packet.{
  Packet, header_1, header_2, dst_len, pathfinder_m, field_16, serialize, has_bit, deserialize,
  IsWellFormed, direct, relayed,
}
use reticulum_js.Packet.Flags.{flags_value, build_flags_byte_lem, flags_value_read}

pub field_16_lem : (h : List ℕ) → length h ≡ dst_len → field_16 h ≡ h
field_16_lem h e = rw (take_all 16 h (omega arith)) (rw e (append-nil h))

-- The packet that the bytes after the header describe.
abbrev pub packet_of : ℕ → ℕ → Option (List ℕ) → List ℕ → ℕ → List ℕ → ℕ → List ℕ → Packet
packet_of flags hops id dest ctx body header bytes = record {
  header_type = header;
  hops = hops;
  transport_type = if has_bit flags 0x10 then 1 else 0;
  destination_type = bit_and flags 0x0c / 4;
  packet_type = bit_and flags 0x03;
  context_flag = has_bit flags 0x20;
  destination_hash = dest;
  context_byte = ctx;
  payload = body;
  transport_id = id;
  raw = bytes;
}

module _ (flags hops : ℕ) (dest : List ℕ) (ctx : ℕ) (body : List ℕ) (low : hops < pathfinder_m)
    (fits : length dest ≡ dst_len) (filled : 0 < length body) where
  deserialize_direct :
      has_bit flags 0x40 ≡ false
      → deserialize (flags ∷ hops ∷ (dest ++ ctx ∷ body))
        ≡ ok
            (packet_of flags hops none dest ctx body header_1 (flags ∷ hops ∷ (dest ++ ctx ∷ body)))
  unfolding deserialize
  deserialize_direct h = ground (
    arith,
    length-append dest (ctx ∷ body),
    take-append 16 dest (ctx ∷ body) fits,
    drop_past 16 dest ctx body fits,
    get_or-append 16 dest ctx body 0 fits,
  )

  deserialize_relayed :
      (id : List ℕ)
      → length id ≡ dst_len
      → has_bit flags 0x40 ≡ true
      → deserialize (flags ∷ hops ∷ (id ++ (dest ++ ctx ∷ body)))
        ≡ ok (
            packet_of flags hops
              (some id)
              dest
              ctx
              body
              header_2
              (flags ∷ hops ∷ (id ++ (dest ++ ctx ∷ body))))
  unfolding deserialize
  deserialize_relayed id hid h = ground (
    arith,
    length-append id (dest ++ ctx ∷ body),
    length-append dest (ctx ∷ body),
    take-append 16 id (dest ++ ctx ∷ body) hid,
    drop-append_add 16 16 0 id (dest ++ ctx ∷ body) hid (omega arith),
    take-append 16 dest (ctx ∷ body) fits,
    drop-append_add 33 16 17 id (dest ++ ctx ∷ body) hid (omega arith),
    drop_past 16 dest ctx body fits,
    get_or-append_add 32 16 16 id (dest ++ ctx ∷ body) 0 hid (omega arith),
    get_or-append 16 dest ctx body 0 fits,
  )

-- The bytes of a well-formed packet, part by part.
abbrev pub after_header : Packet → List ℕ
after_header p = p.destination_hash ++ p.context_byte ∷ p.payload

abbrev pub flags_of : Packet → ℕ
flags_of p =
    flags_value (p.header_type == header_2) p.context_flag (p.transport_type == 1)
      p.destination_type p.packet_type

module _ (p : Packet) (w : IsWellFormed p) where
  pub flags_facts :
      (has_bit (flags_of p) 0x40 ≡ (p.header_type == header_2))
      × (has_bit (flags_of p) 0x20 ≡ p.context_flag)
      × (has_bit (flags_of p) 0x10 ≡ (p.transport_type == 1))
      × (bit_and (flags_of p) 0x0c / 4 ≡ p.destination_type)
      × (bit_and (flags_of p) 0x03 ≡ p.packet_type)
      × (flags_of p < 128)
  flags_facts =
      flags_value_read (p.header_type == header_2) p.context_flag (p.transport_type == 1)
        p.destination_type p.packet_type w.destination_type_fits w.packet_type_fits

  pub serialize_direct :
      p.header_type ≡ header_1 → serialize p ≡ ok (flags_of p ∷ p.hops ∷ after_header p)
  unfolding serialize
  serialize_direct h = rw (build_flags_byte_lem p w) (
      rw (field_16_lem p.destination_hash w.hash_fits)
        (ground (arith, flags_facts, w.hops_fit, w.context_fits, bit_and_ff p.hops)))

  pub serialize_relayed :
      (id : List ℕ)
      → p.header_type ≡ header_2
      → p.transport_id ≡ some id
      → length id ≡ dst_len
      → serialize p ≡ ok (flags_of p ∷ p.hops ∷ (id ++ after_header p))
  unfolding serialize
  serialize_relayed id h hid fits = ground (
    arith,
    build_flags_byte_lem p w,
    field_16_lem p.destination_hash w.hash_fits,
    flags_facts,
    w.hops_fit,
    w.context_fits,
    field_16_lem id fits,
    bit_and_ff p.hops,
  )

  -- What is known of `p` makes the packet that is read equal to `p`.
  packet_of_lem :
      (bytes : List ℕ)
      → packet_of
          (flags_of p)
          p.hops
          p.transport_id
          p.destination_hash
          p.context_byte
          p.payload
          p.header_type
          bytes
        ≡ record p { raw = bytes }
  packet_of_lem bytes = ground (arith, flags_facts, w.transport_type_fits)

-- A well-formed packet serializes, and `deserialize` reads the same packet back from the bytes, with
-- `raw` set to them.
pub deserialize-serialize :
    (p : Packet)
    → IsWellFormed p
    → (bytes : List ℕ) × (serialize p ≡ ok bytes)
      × (deserialize bytes ≡ ok (record p { raw = bytes }))
deserialize-serialize p w = elim w.transport [
  | direct h hid ↦ (
    flags_of p ∷ p.hops ∷ after_header p,
    serialize_direct p w h,
    deserialize_direct (flags_of p) p.hops p.destination_hash p.context_byte p.payload w.hops_fit
          w.hash_fits w.payload_filled (ground (arith, flags_facts p w))
        ∙ ap ok (ground (arith, packet_of_lem p w (flags_of p ∷ p.hops ∷ after_header p))),
  )
  | relayed id h hid fits ↦ (
    flags_of p ∷ p.hops ∷ (id ++ after_header p),
    serialize_relayed p w id h hid fits,
    deserialize_relayed (flags_of p) p.hops p.destination_hash p.context_byte p.payload w.hops_fit
          w.hash_fits w.payload_filled id fits (ground (arith, flags_facts p w))
        ∙ ap ok (ground (arith, packet_of_lem p w (flags_of p ∷ p.hops ∷ (id ++ after_header p)))),
  )
]
