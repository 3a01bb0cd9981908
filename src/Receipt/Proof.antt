-- ===== src/Receipt/Proof.antt =====
-- Which proofs `validateProof` of packages/core/src/core/packet_receipt.js accepts.
use reticulum_js.Common.{
  ℕ, ◌≡◌, ◌↔◌, ◌⊎◌, arith, Bool, true, Option, some, List, length, take, drop, All, IsByte,
  All-take, Option-cases, inl, inr,
}
use reticulum_js.Encoding.{bytes_equal}
use reticulum_js.Encoding.Compare.{bytes_equal_iff}
use reticulum_js.Receipt.{PacketReceipt, verify, validate_proof}

module _ {Identity : Type 0} (recall : List ℕ → Option Identity)
    (valid : Identity → List ℕ → List ℕ → Bool) where
  -- The receipt's identity is known and accepts the signature over the packet's hash.
  abbrev pub SignedBy : PacketReceipt → List ℕ → Type 0
  SignedBy r signature =
      (r.has_owner ≡ true)
      × (identity : Identity) × (recall r.destination_hash ≡ some identity)
      × (valid identity signature r.packet_hash ≡ true)

  verify_iff :
      (r : PacketReceipt) (signature : List ℕ)
      → (verify recall valid r signature r.packet_hash ≡ true) ↔ SignedBy r signature
  unfolding verify
  verify_iff r signature = elim (Option-cases (recall r.destination_hash)) [
    | inl e ↦
        (λ h. absurd (ground (arith, e, h)), λ (o, i, found, v). absurd (ground (arith, e, found)))
    | inr (identity, e) ↦ (
      λ h. (ground (arith, h), identity, e, ground (arith, h, e)),
      λ (o, i, found, v). rw (o, found) v,
    )
  ]

  accepted_proof :
      (r : PacketReceipt) (proof : List ℕ)
      → validate_proof recall valid r proof ≡ true
      → ((length proof ≡ 96)
          × (bytes_equal (take 32 proof) r.packet_hash ≡ true)
          × (verify recall valid r (drop 32 proof) r.packet_hash ≡ true))
        ⊎ ((length proof ≡ 64) × (verify recall valid r proof r.packet_hash ≡ true))
  unfolding validate_proof
  accepted_proof r proof h = ground (arith, h)

  -- A proof, on byte arrays, is accepted exactly if it is the packet's hash with a signature, of
  -- 96 bytes, or a signature alone, of 64, and the receipt has an owner whose recalled identity
  -- for the destination accepts the signature over that hash.
  pub validate_proof_iff :
      (r : PacketReceipt) (proof : List ℕ)
      → All IsByte proof
      → All IsByte r.packet_hash
      → (validate_proof recall valid r proof ≡ true) ↔ (
          ((length proof ≡ 96) × (take 32 proof ≡ r.packet_hash) × SignedBy r (drop 32 proof))
          ⊎ ((length proof ≡ 64) × SignedBy r proof))
  unfolding validate_proof
  validate_proof_iff r proof bytes hash =
      let (signed, back) = verify_iff r (drop 32 proof) in
      let (signed', back') = verify_iff r proof in
      let short : All IsByte (take 32 proof) = All-take IsByte 32 proof bytes in
      let same = bytes_equal_iff (take 32 proof) r.packet_hash short hash in
      (
        λ h. elim (accepted_proof r proof h) [
          | inl (n, e, s) ↦ inl (n, same.0 e, signed s)
          | inr (n, s) ↦ inr (n, signed' s)
        ],
        λ h. elim h [
          | inl (n, e, s) ↦ rw (validate_proof, n, same.1 e, back s)
          | inr (n, s) ↦ rw (validate_proof, n, back' s)
        ],
      )
