-- ===== src/Packet/Samples.antt =====
-- Two packets of packages/core/src/core/packet.js that the tests use.
use reticulum_js.Common.{ℕ, refl, arith, true, false, none, some, List, [], ◌∷◌, replicate}
use reticulum_js.Packet.{Packet, IsWellFormed, direct, relayed}

abbrev pub address : List ℕ
address = 1 ∷ 2 ∷ 3 ∷ replicate 13 9

abbrev pub direct_packet : Packet
direct_packet = record {
  header_type = 0;
  hops = 3;
  transport_type = 0;
  destination_type = 0;
  packet_type = 1;
  context_flag = true;
  destination_hash = address;
  context_byte = 0;
  payload = 7 ∷ 8 ∷ [];
  transport_id = none;
  raw = [];
}

abbrev pub relayed_packet : Packet
relayed_packet = record {
  header_type = 1;
  hops = 4;
  transport_type = 1;
  destination_type = 0;
  packet_type = 1;
  context_flag = false;
  destination_hash = address;
  context_byte = 0;
  payload = 7 ∷ 8 ∷ [];
  transport_id = some (replicate 16 5);
  raw = [];
}

pub direct-IsWellFormed : IsWellFormed direct_packet
direct-IsWellFormed = record {
  transport = direct refl refl;
  hops_fit = omega arith;
  transport_type_fits = omega arith;
  destination_type_fits = omega arith;
  packet_type_fits = omega arith;
  context_fits = omega arith;
  hash_fits = refl;
  payload_filled = omega arith;
  proof_of_link = λ e. absurd (omega arith);
}

pub relayed-IsWellFormed : IsWellFormed relayed_packet
relayed-IsWellFormed = record {
  transport = relayed (replicate 16 5) refl refl refl;
  hops_fit = omega arith;
  transport_type_fits = omega arith;
  destination_type_fits = omega arith;
  packet_type_fits = omega arith;
  context_fits = omega arith;
  hash_fits = refl;
  payload_filled = omega arith;
  proof_of_link = λ e. absurd (omega arith);
}
