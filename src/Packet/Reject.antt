-- ===== src/Packet/Reject.antt =====
-- What `Packet.deserialize` of packages/core/src/core/packet.js accepts, and what it refuses.
use reticulum_js.Common.{
  ℕ, ◌≤◌, ◌<◌, ◌≡◌, ◌↔◌, ◌⊎◌, inl, inr, arith, List, if◌then◌else◌, length, get_or, ok, err,
  Result-cases,
}
use reticulum_js.Packet.{
  Packet, PacketError, too_short, invalid_hop_count, zero_length_data, pathfinder_m, has_bit,
  deserialize,
}

-- Header, one or two addresses and the context byte.
abbrev pub header_length : List ℕ → ℕ
header_length bytes = if has_bit (get_or bytes 0 0) 0x40 then 35 else 19

-- `deserialize` accepts exactly the inputs that have a hop count below 128 and at least one byte
-- of payload behind the complete header that the flags announce.
pub accepts_iff :
    (bytes : List ℕ)
    → ((p : Packet) × (deserialize bytes ≡ ok p))
      ↔ ((header_length bytes < length bytes) × (get_or bytes 1 0 < pathfinder_m))
unfolding deserialize
accepts_iff bytes = (
  (λ h. ground (arith, h.1)),
  (λ h. elim (Result-cases (deserialize bytes)) [
    | inl (p, e) ↦ (p, e)
    | inr (x, e) ↦ ground arith
  ]),
)

-- Each refusal names its cause: an incomplete header, else a hop count of 128 or more, else a header
-- with nothing behind it.
pub refusals :
    (bytes : List ℕ) (e : PacketError)
    → deserialize bytes ≡ err e
    → ((e ≡ too_short) × (length bytes < header_length bytes))
      ⊎ ((e ≡ invalid_hop_count (get_or bytes 1 0))
          × (header_length bytes ≤ length bytes)
          × (pathfinder_m ≤ get_or bytes 1 0))
      ⊎ ((e ≡ zero_length_data)
          × (length bytes ≡ header_length bytes)
          × (get_or bytes 1 0 < pathfinder_m))
unfolding deserialize
refusals bytes e h = ground arith
