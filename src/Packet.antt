-- ===== src/Packet.antt =====
-- packages/core/src/core/packet.js: the packet, its wire format and the part that is hashed.
-- A `Uint8Array` is a list of bytes. The proofs are in the modules below.
pub mod Flags
pub mod RoundTrip
pub mod Reject
pub mod Reserialize
pub mod Hashable
pub mod Samples
mod Tests
use reticulum_js.Common.{
  ℕ, ◌+◌, ◌-◌, ◌*◌, ◌%◌, ◌/◌, ◌<◌, ◌≡◌, Bool, true, false, not, Option, none, some, List, [], ◌∷◌,
  ◌++◌, bit_and, bit_or, ltb, leb, ◌==◌, if◌then◌else◌, length, get_or, take, drop, replicate,
  Result, ok, err,
}

-- HeaderType, DestType.LINK, ContextType.LRPROOF and PATHFINDER_M.
abbrev pub header_1 : ℕ
header_1 = 0x00

abbrev pub header_2 : ℕ
header_2 = 0x01

abbrev pub dest_link : ℕ
dest_link = 0x03

abbrev pub lrproof : ℕ
lrproof = 0xff

abbrev pub pathfinder_m : ℕ
pathfinder_m = 128

abbrev pub dst_len : ℕ
dst_len = 16

pub record Packet : Type 0 where
  pub header_type : ℕ
  pub hops : ℕ
  pub transport_type : ℕ
  pub destination_type : ℕ
  pub packet_type : ℕ
  pub context_flag : Bool
  pub destination_hash : List ℕ
  pub context_byte : ℕ
  pub payload : List ℕ
  pub transport_id : Option (List ℕ)
  pub raw : List ℕ

-- The constructor's argument; a field that may be left out is an `Option`.
pub record PacketOptions : Type 0 where
  pub header_type : Option ℕ
  pub hops : Option ℕ
  pub transport_type : Option ℕ
  pub destination_type : Option ℕ
  pub packet_type : Option ℕ
  pub context_flag : Option Bool
  pub destination_hash : List ℕ
  pub context_byte : Option ℕ
  pub payload : Option (List ℕ)
  pub transport_id : Option (List ℕ)
  pub raw : Option (List ℕ)

-- `value || fallback`: each number's fallback is 0, so a 0 that is given stays 0.
abbrev pub or_else {ℓ} : {A : Type ℓ} → Option A → A → A
or_else none d = d
or_else (some a) d = a

abbrev pub new_packet : PacketOptions → Packet
new_packet o = record {
  header_type = or_else o.header_type header_1;
  hops = or_else o.hops 0;
  transport_type = or_else o.transport_type 0;
  destination_type = or_else o.destination_type 0;
  packet_type = or_else o.packet_type 0;
  context_flag = or_else o.context_flag false;
  destination_hash = o.destination_hash;
  context_byte = or_else o.context_byte 0;
  payload = or_else o.payload [];
  transport_id = o.transport_id;
  raw = or_else o.raw [];
}

pub data PacketError : Type 0 where
  too_short : PacketError
  invalid_hop_count : ℕ → PacketError
  zero_length_data : PacketError
  missing_transport_id : PacketError

-- The running value of `flags` after each statement.
unfoldable pub build_flags_byte : Packet → ℕ
build_flags_byte p =
    let f₁ : ℕ = if p.header_type == header_2 then bit_or 0x00 0x40 else 0x00 in
    let f₂ : ℕ = if p.context_flag then bit_or f₁ 0x20 else f₁ in
    let f₃ : ℕ = if p.transport_type == 1 then bit_or f₂ 0x10 else f₂ in
    let f₄ : ℕ =
      if p.context_byte == lrproof
      then bit_or f₃ (dest_link * 4)
      else bit_or f₃ (bit_and p.destination_type 0x03 * 4) in
    bit_or f₄ (bit_and p.packet_type 0x03)

-- `uint8.set(h.subarray(0, 16), offset)` into a fresh buffer: what `h` lacks stays zero.
abbrev pub field_16 : List ℕ → List ℕ
field_16 h = take dst_len h ++ replicate (dst_len - length (take dst_len h)) 0

-- The buffer is filled from left to right without a gap, so it is the parts put together.
unfoldable pub serialize : Packet → Result PacketError (List ℕ)
unfolding build_flags_byte
serialize p =
    let flags : ℕ = build_flags_byte p % 256 in
    let hops : ℕ = bit_and p.hops 0xff in
    let rest = field_16 p.destination_hash ++ ((p.context_byte % 256) ∷ p.payload) in
    if p.header_type == header_2
    then elim p.transport_id [
      | none ↦ err missing_transport_id
      | some id ↦ ok (flags ∷ hops ∷ (field_16 id ++ rest))
    ]
    else ok (flags ∷ hops ∷ rest)

-- `data.slice(from, to)`, which clamps.
abbrev pub slice : List ℕ → ℕ → ℕ → List ℕ
slice bytes from to = take (to - from) (drop from bytes)

-- `(flags & mask) !== 0`
abbrev pub has_bit : ℕ → ℕ → Bool
has_bit flags mask = not (bit_and flags mask == 0)

-- What `deserialize` does once the lengths and the hop count have passed; `offset` is where the
-- destination hash starts.
read_fields : List ℕ → Bool → Result PacketError Packet
read_fields bytes is_header2 =
    let flags : ℕ = get_or bytes 0 0 in
    let offset : ℕ = if is_header2 then 2 + dst_len else 2 in
    if leb (length bytes) (offset + dst_len + 1)
    then err zero_length_data
    else ok (
        new_packet (record {
          header_type = some (if is_header2 then header_2 else header_1);
          hops = some (get_or bytes 1 0);
          transport_type = some (if has_bit flags 0x10 then 1 else 0);
          destination_type = some (bit_and flags 0x0c / 4);
          packet_type = some (bit_and flags 0x03);
          context_flag = some (has_bit flags 0x20);
          destination_hash = slice bytes offset (offset + dst_len);
          context_byte = some (get_or bytes (offset + dst_len) 0);
          payload = some (drop (offset + dst_len + 1) bytes);
          transport_id = if is_header2 then some (slice bytes 2 (2 + dst_len)) else none;
          raw = some bytes;
        }))

unfoldable pub deserialize : List ℕ → Result PacketError Packet
unfolding read_fields
deserialize bytes =
    let is_header2 = has_bit (get_or bytes 0 0) 0x40 in
    let hops : ℕ = get_or bytes 1 0 in
    if ltb (length bytes) 2
    then err too_short
    else if ltb (length bytes) (if is_header2 then 2 + 2 * dst_len + 1 else 2 + dst_len + 1)
    then err too_short
    else if leb pathfinder_m hops
    then err (invalid_hop_count hops)
    else read_fields bytes is_header2

-- The low half of the flags, then what follows the hop count and, under HEADER_2, the transport id.
pub hashable : ℕ → List ℕ → List ℕ
hashable header bytes =
    bit_and (get_or bytes 0 0) 0x0f ∷ drop (if header == header_2 then 18 else 2) bytes

-- `this.raw` is filled on the first use; the error is that of `serialize`.
unfoldable pub get_hashable_part : Packet → Result PacketError (Packet × List ℕ)
unfolding hashable
get_hashable_part p =
    if length p.raw == 0
    then elim (serialize p) [
      | err e ↦ err e
      | ok bytes ↦ ok (record p { raw = bytes }, hashable p.header_type bytes)
    ]
    else ok (p, hashable p.header_type p.raw)

-- What a packet that the program builds looks like. `transport_type` 2 (RELAY) has no encoding.
pub data TransportFits (p : Packet) : Type 0 where
  direct : p.header_type ≡ header_1 → p.transport_id ≡ none → TransportFits p
  relayed :
      (id : List ℕ)
      → p.header_type ≡ header_2
      → p.transport_id ≡ some id
      → length id ≡ dst_len
      → TransportFits p

pub record IsWellFormed (p : Packet) : Type 0 where
  pub transport : TransportFits p
  pub hops_fit : p.hops < pathfinder_m
  pub transport_type_fits : p.transport_type < 2
  pub destination_type_fits : p.destination_type < 4
  pub packet_type_fits : p.packet_type < 4
  pub context_fits : p.context_byte < 256
  pub hash_fits : length p.destination_hash ≡ dst_len
  pub payload_filled : 0 < length p.payload
  pub proof_of_link : p.context_byte ≡ lrproof → p.destination_type ≡ dest_link
