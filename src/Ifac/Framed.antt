-- ===== src/Ifac/Framed.antt =====
-- Packets over the framers of packages/core/src/transport/ between two interfaces that share their
-- secrets, with the hooks of packages/core/src/interfaces/base.js.
use reticulum_js.Common.{
  ℕ, ◌+◌, ◌*◌, ◌≤◌, ◌<◌, ◌≡◌, refl, sym, ap, ◌∙◌, arith, Option, some, List, [], ◌∷◌, ◌++◌, map, ok,
  length, All, length-append,
}
use reticulum_js.Packet.{Packet, serialize, IsWellFormed, direct, relayed}
use reticulum_js.Packet.RoundTrip.{
  serialize_direct, serialize_relayed, flags_facts, flags_of, after_header, deserialize-serialize,
}
use reticulum_js.Framing.{SealRaw, OpenRaw, Opens, sealed_bytes, received, opened}
use reticulum_js.Framing.Hdlc.{hdlc_unframe, hdlc_start}
use reticulum_js.Framing.Hdlc.Escape.{length-escape}
use reticulum_js.Framing.Hdlc.Frames.{Sendable, frame_all, hdlc_unframe-frame_all, pending}
use reticulum_js.Ifac.{Primitives, Interface, config, seal_raw, open_raw}
use reticulum_js.Ifac.Parts.{IsSound}
use reticulum_js.Ifac.Hooks.{IsSmall, goes_through, some_injective}

-- The bytes of a well-formed packet: the flags, whose highest bit is clear, the hops and the rest.
header_lem :
    (p : Packet) (raw : List ℕ)
    → IsWellFormed p
    → serialize p ≡ ok raw
    → (b_0 : ℕ) × (b_1 : ℕ) × (rest : List ℕ) × (raw ≡ b_0 ∷ b_1 ∷ rest)
      × (b_0 < 128)
      × (0 < length rest)
header_lem p raw w e =
    let (_, _, _, _, _, low) = flags_facts p w in
    let filled = w.payload_filled in
    elim w.transport [
      | direct h hid ↦ (
        flags_of p,
        p.hops,
        after_header p,
        ground (arith, e, serialize_direct p w h),
        low,
        omega (arith, length-append p.destination_hash (p.context_byte ∷ p.payload)),
      )
      | relayed id h hid fits ↦ (
        flags_of p,
        p.hops,
        id ++ after_header p,
        ground (arith, e, serialize_relayed p w id h hid fits),
        low,
        omega (
          arith,
          length-append id (after_header p),
          length-append p.destination_hash (p.context_byte ∷ p.payload),
        ),
      )
    ]

-- The hooks as the framers take them.
abbrev pub sealer : Primitives → Interface → Option SealRaw
sealer c t = some (seal_raw c t)

abbrev pub opener : Primitives → Interface → Option OpenRaw
opener c s = some (λ (raw : List ℕ). (open_raw c s raw).1)

-- Room for the bytes of a packet and `n` more in a frame of `m` bytes, every one escaped.
abbrev pub HasRoom : ℕ → ℕ → Packet → Type 0
HasRoom n m p = (raw : List ℕ) → serialize p ≡ ok raw → 2 * (length raw + n) ≤ m

module _ (c : Primitives) (s t : Interface) (sound : IsSound c) (same : config c t ≡ config c s)
    (small : IsSmall (config c s)) where
  -- The sealed form of a well-formed packet.
  sealed_packet :
      (p : Packet)
      → IsWellFormed p
      → (raw : List ℕ) × (sealed : List ℕ) × (serialize p ≡ ok raw)
        × (seal_raw c t raw ≡ some sealed)
        × (length sealed ≤ length raw + 64)
        × (0 < length sealed)
        × ((open_raw c s sealed).1 ≡ opened raw)
  sealed_packet p w =
      let (raw, done, _) = deserialize-serialize p w in
      let (b_0, b_1, rest, is, low, filled) = header_lem p raw w done in
      let (sealed, made, size, some_byte, back) =
        goes_through c s t sound same b_0 b_1 rest small low filled in
      (b_0 ∷ b_1 ∷ rest, sealed, done ∙ ap ok is, made, size, some_byte, back)

  hooks-Opens : Opens (sealer c t) (opener c s)
  hooks-Opens p raw sealed w done made =
      let (raw', sealed', done', made', _, _, back) = sealed_packet p w in
      let same_raw : raw ≡ raw' = ground (arith, done, done') in
      let same_sealed : sealed ≡ sealed' =
        some_injective sealed sealed' (sym made ∙ rw same_raw made') in
      rw (same_sealed, same_raw) back

  packet-Sendable :
      (m : ℕ) (p : Packet) → IsWellFormed p → HasRoom 64 m p → Sendable (sealer c t) m p
  packet-Sendable m p w room =
      let (raw, sealed, done, made, size, some_byte, _) = sealed_packet p w in
      record {
        bytes = sealed;
        sealed = unfold sealed_bytes in ground (arith, done, made);
        some_byte = some_byte;
        fits = omega (arith, room raw done, length-escape sealed);
      }

  packets-Sendable :
      (m : ℕ) (ps : List Packet)
      → All IsWellFormed ps
      → All (HasRoom 64 m) ps
      → All (Sendable (sealer c t) m) ps
  packets-Sendable m [] w room = tt
  packets-Sendable m (p ∷ ps) w room =
      (packet-Sendable m p w.0 room.0, packets-Sendable m ps w.1 room.1)

-- Two interfaces with the same secrets and IFAC size, at most 64, or both without secrets, over sound
-- primitives and HDLC frames: well-formed packets, for each of which a frame has room with 64 bytes
-- more and every byte escaped, are sealed and framed by the one, and the other unframes, opens and
-- delivers them all, in order and each once, from its start.
pub sealed_stream :
    (c : Primitives) (s t : Interface) (m : ℕ) (ps : List Packet)
    → IsSound c
    → config c t ≡ config c s
    → IsSmall (config c s)
    → All IsWellFormed ps
    → All (HasRoom 64 m) ps
    → (stream : List ℕ) × (frame_all (sealer c t) ps ≡ some stream)
      × ((hdlc_unframe (opener c s) m hdlc_start stream).1 ≡ map received ps)
sealed_stream c s t m ps sound same small w room =
    hdlc_unframe-frame_all (sealer c t) (opener c s) m ps hdlc_start
      (hooks-Opens c s t sound same small) (unfold pending in refl) w
      (packets-Sendable c s t sound same small m ps w room)
