-- ===== src/Packet/Reserialize.antt =====
-- `serialize` after `deserialize`: what a node that forwards a packet of core/packet.js sends.
use reticulum_js.Common.{
  ℕ, ◌%◌, ◌/◌, ◌<◌, ◌≡◌, inl, inr, refl, ap, ◌∙◌, arith, true, false, none, some, List, ◌∷◌, ◌++◌,
  bit_and, if◌then◌else◌, length, get_or, take, drop, ok, Bool-cases, IsByte, All, length-take,
  length-drop, split_at, get_or-drop, drop-drop, take-append-drop, All-get_or,
}
use reticulum_js.Common.Bits.{bit_and_three, bit_and_0c, bit_and_10, bit_and_20, bit_and_40}
use reticulum_js.Packet.{
  Packet, pathfinder_m, header_1, header_2, lrproof, dest_link, has_bit, serialize, deserialize,
  IsWellFormed, direct, relayed,
}
use reticulum_js.Packet.Flags.{flags_value}
use reticulum_js.Packet.RoundTrip.{packet_of, serialize_direct, serialize_relayed}

-- The five fields of a byte make up its lower seven bits.
flags_of_byte :
    (f : ℕ)
    → f < 256
    → flags_value
        (has_bit f 0x40)
        (has_bit f 0x20)
        (has_bit f 0x10)
        (bit_and f 0x0c / 4)
        (bit_and f 0x03)
      ≡ f % 128
flags_of_byte f h =
    ground
      (arith, bit_and_40 f h, bit_and_20 f h, bit_and_10 f h, bit_and_0c f h, bit_and_three f h)

fields_fit : (f : ℕ) → f < 256 → (bit_and f 0x0c / 4 < 4) × (bit_and f 0x03 < 4)
fields_fit f h = ground (arith, bit_and_0c f h, bit_and_three f h)

module _ (f h : ℕ) (rest : List ℕ) {p : Packet} (read : deserialize (f ∷ h ∷ rest) ≡ ok p) where
  read_direct :
      has_bit f 0x40 ≡ false
      → (p
          ≡ packet_of f h none
              (take 16 rest)
              (get_or rest 16 0)
              (drop 17 rest)
              header_1
              (f ∷ h ∷ rest))
        × (17 < length rest)
        × (h < pathfinder_m)
  unfolding deserialize
  read_direct e = ground arith

  read_relayed :
      has_bit f 0x40 ≡ true
      → (p
          ≡ packet_of f h
              (some (take 16 rest))
              (take 16 (drop 16 rest))
              (get_or rest 32 0)
              (drop 33 rest)
              header_2
              (f ∷ h ∷ rest))
        × (33 < length rest)
        × (h < pathfinder_m)
  unfolding deserialize
  read_relayed e = ground arith

-- The byte after the addresses, and whether it goes with the destination type that `_buildFlagsByte`
-- writes for it.
abbrev pub context_at : ℕ → List ℕ → ℕ
context_at f rest = get_or rest (if has_bit f 0x40 then 32 else 16) 0

abbrev pub LinkProofFits : ℕ → ℕ → Type 0
LinkProofFits f ctx = ctx ≡ lrproof → bit_and f 0x0c / 4 ≡ dest_link

module _ (f h : ℕ) (rest : List ℕ) (bytes : All IsByte (f ∷ h ∷ rest))
    (low : h < pathfinder_m) where
  direct_lem :
      has_bit f 0x40 ≡ false
      → 17 < length rest
      → LinkProofFits f (get_or rest 16 0)
      → let q =
          packet_of f h none
            (take 16 rest)
            (get_or rest 16 0)
            (drop 17 rest)
            header_1
            (f ∷ h ∷ rest) in
        IsWellFormed q × (serialize q ≡ ok ((f % 128) ∷ h ∷ rest))
  direct_lem e long proof = (
    fits,
    serialize_direct q fits refl
        ∙ ap ok (ground (arith, flags_of_byte f bytes.0, split_at 16 rest 0 (omega arith))),
  )
    where
      q : Packet
      q =
          packet_of f h none (take 16 rest) (get_or rest 16 0) (drop 17 rest) header_1
            (f ∷ h ∷ rest)

      fits : IsWellFormed q
      fits = record {
        transport = direct refl refl;
        hops_fit = low;
        transport_type_fits = ground arith;
        destination_type_fits = (fields_fit f bytes.0).0;
        packet_type_fits = (fields_fit f bytes.0).1;
        context_fits = All-get_or IsByte 16 rest 0 bytes.1.1 (omega arith);
        hash_fits = omega (arith, length-take 16 rest);
        payload_filled = omega (arith, length-drop 17 rest);
        proof_of_link = proof;
      }

  relayed_lem :
      has_bit f 0x40 ≡ true
      → 33 < length rest
      → LinkProofFits f (get_or rest 32 0)
      → let q =
          packet_of f h
            (some (take 16 rest))
            (take 16 (drop 16 rest))
            (get_or rest 32 0)
            (drop 33 rest)
            header_2
            (f ∷ h ∷ rest) in
        IsWellFormed q × (serialize q ≡ ok ((f % 128) ∷ h ∷ rest))
  relayed_lem e long proof = (
    fits,
    serialize_relayed q fits (take 16 rest) refl refl (omega (arith, length-take 16 rest))
        ∙ ap ok (ground (arith, flags_of_byte f bytes.0, whole)),
  )
    where
      q : Packet
      q =
          packet_of f h (some (take 16 rest)) (take 16 (drop 16 rest)) (get_or rest 32 0)
            (drop 33 rest) header_2 (f ∷ h ∷ rest)

      second : take 16 (drop 16 rest) ++ get_or rest 32 0 ∷ drop 33 rest ≡ drop 16 rest
      second =
          rw (← get_or-drop 16 16 32 rest 0 refl, ← drop-drop 17 16 33 rest refl)
            (split_at 16 (drop 16 rest) 0 (omega (arith, length-drop 16 rest)))

      whole : take 16 rest ++ (take 16 (drop 16 rest) ++ get_or rest 32 0 ∷ drop 33 rest) ≡ rest
      whole = rw second (take-append-drop 16 rest)

      fits : IsWellFormed q
      fits = record {
        transport = relayed (take 16 rest) refl refl (omega (arith, length-take 16 rest));
        hops_fit = low;
        transport_type_fits = ground arith;
        destination_type_fits = (fields_fit f bytes.0).0;
        packet_type_fits = (fields_fit f bytes.0).1;
        context_fits = All-get_or IsByte 32 rest 0 bytes.1.1 (omega arith);
        hash_fits = omega (arith, length-take 16 (drop 16 rest), length-drop 16 rest);
        payload_filled = omega (arith, length-drop 33 rest);
        proof_of_link = proof;
      }

-- A packet that `deserialize` reads from bytes is well formed, and serializes to the same bytes with
-- the top bit of the flags cleared, provided that a link proof is addressed to a link.
pub reserialize :
    (f h : ℕ) (rest : List ℕ) (p : Packet)
    → All IsByte (f ∷ h ∷ rest)
    → LinkProofFits f (context_at f rest)
    → deserialize (f ∷ h ∷ rest) ≡ ok p
    → IsWellFormed p × (serialize p ≡ ok ((f % 128) ∷ h ∷ rest))
reserialize f h rest p bytes proof read = elim (Bool-cases (has_bit f 0x40)) [
  | inl e ↦
      let (eq, long, low) = read_relayed f h rest read e in
      rw eq (relayed_lem f h rest bytes low e long (λ c. proof (rw e c)))
  | inr e ↦
      let (eq, long, low) = read_direct f h rest read e in
      rw eq (direct_lem f h rest bytes low e long (λ c. proof (rw e c)))
]
