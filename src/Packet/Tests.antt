-- ===== src/Packet/Tests.antt =====
-- Runs of packages/core/src/core/packet.js, and the theorems at concrete packets.
use reticulum_js.Common.{
  ℕ, ◌<◌, ◌≡◌, ◌↔◌, refl, List, [], ◌∷◌, ◌++◌, replicate, length, get_or, ok, err,
}
use reticulum_js.Packet.{
  Packet, too_short, invalid_hop_count, pathfinder_m, serialize, deserialize, get_hashable_part,
}
use reticulum_js.Packet.Samples.{
  address, direct_packet, relayed_packet, direct-IsWellFormed, relayed-IsWellFormed,
}
use reticulum_js.Packet.RoundTrip.{deserialize-serialize}
use reticulum_js.Packet.Reject.{header_length, accepts_iff}
use reticulum_js.Packet.Hashable.{relay_keeps_hash}

abbrev direct_bytes : List ℕ
direct_bytes = 0x21 ∷ 3 ∷ (address ++ 0 ∷ 7 ∷ 8 ∷ [])

serialize_direct_run : serialize direct_packet ≡ ok direct_bytes
unfolding serialize
serialize_direct_run = refl

serialize_relayed_run :
    serialize relayed_packet ≡ ok (0x51 ∷ 4 ∷ (replicate 16 5 ++ address ++ 0 ∷ 7 ∷ 8 ∷ []))
unfolding serialize
serialize_relayed_run = refl

deserialize_run : deserialize direct_bytes ≡ ok (record direct_packet { raw = direct_bytes })
unfolding deserialize
deserialize_run = refl

deserialize_cut : deserialize (0x40 ∷ 3 ∷ (address ++ 0 ∷ 7 ∷ [])) ≡ err too_short
unfolding deserialize
deserialize_cut = refl

deserialize_looping : deserialize (0 ∷ 128 ∷ (address ++ 0 ∷ 7 ∷ [])) ≡ err (invalid_hop_count 128)
unfolding deserialize
deserialize_looping = refl

deserialize-serialize_example :
    (bytes : List ℕ) × (serialize relayed_packet ≡ ok bytes)
    × (deserialize bytes ≡ ok (record relayed_packet { raw = bytes }))
deserialize-serialize_example = deserialize-serialize relayed_packet relayed-IsWellFormed

accepts_iff_example : ((p : Packet) × (deserialize direct_bytes ≡ ok p)) ↔ (
    (header_length direct_bytes < length direct_bytes) × (get_or direct_bytes 1 0 < pathfinder_m))
accepts_iff_example = accepts_iff direct_bytes

abbrev looping : List ℕ
looping = 0 ∷ 128 ∷ (address ++ 0 ∷ 7 ∷ [])

relay_keeps_hash_example :
    (part : List ℕ) × (p' : Packet) × (q' : Packet) × (get_hashable_part direct_packet
      ≡ ok (p', part))
    × (get_hashable_part relayed_packet ≡ ok (q', part))
relay_keeps_hash_example =
    relay_keeps_hash direct_packet relayed_packet direct-IsWellFormed relayed-IsWellFormed refl refl
      refl refl refl refl refl
