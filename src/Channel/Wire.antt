-- ===== src/Channel/Wire.antt =====
-- The frames of packages/core/src/transport/channel.js on the wire.
use reticulum_js.Common.{
  ℕ, ◌+◌, ◌*◌, ◌/◌, ◌%◌, ◌<◌, ◌≡◌, refl, ap, arith, Bool, true, false, not, Option, some, List,
  ◌++◌, ◌==◌, if◌then◌else◌, length, ok,
}
use reticulum_js.Channel.{
  envelope_header_size, set_uint_16, get_uint_16, StreamDataMessage, stream_pack, stream_unpack,
  envelope_pack, Factories, envelope_unpack,
}

halves : (n : ℕ) → n < 65536 → (n / 256) % 256 * 256 + n % 256 ≡ n
halves n h = omega (arith, h)

abbrev header_of : ℕ → Bool → Bool → ℕ
header_of id eof compressed = id + (if eof then 0x8000 else 0) + (if compressed then 0x4000 else 0)

header_parts :
    (id : ℕ) (eof compressed : Bool)
    → id < 0x4000
    → let h = header_of id eof compressed in
      (h < 65536)
      × (h % 0x4000 ≡ id)
      × (not ((h / 0x8000) % 2 == 0) ≡ eof)
      × (not ((h / 0x4000) % 2 == 0) ≡ compressed)
header_parts id true true h = ground (arith, h)
header_parts id true false h = ground (arith, h)
header_parts id false true h = ground (arith, h)
header_parts id false false h = ground (arith, h)

-- A stream frame with an id of 14 bits is read back as it was written.
pub stream_unpack-pack :
    (m : StreamDataMessage) → m.stream_id < 0x4000 → stream_unpack (stream_pack m) ≡ ok m
unfolding stream_unpack stream_pack get_uint_16
stream_unpack-pack m h =
    let (small, id, eof, compressed) = header_parts m.stream_id m.eof m.compressed h in
    let same : m.stream_id % 0x4000 ≡ m.stream_id = omega (arith, h) in
    rw (same, halves (header_of m.stream_id m.eof m.compressed) small, id, eof, compressed) refl

-- An envelope of a registered type is read back with its sequence number and what its factory makes
-- of the body.
pub envelope_unpack-pack :
    {M : Type 0}
    → (factories : Factories M) (msgtype sequence : ℕ) (body : List ℕ) (unpack : List ℕ → Option M)
      (message : M)
    → msgtype < 65536
    → sequence < 65536
    → factories msgtype ≡ some unpack
    → unpack body ≡ some message
    → (raw : List ℕ) × (envelope_pack (some msgtype) sequence body ≡ ok raw)
      × (length raw ≡ length body + envelope_header_size)
      × (envelope_unpack factories raw ≡ ok (sequence, message))
unfolding envelope_pack envelope_unpack get_uint_16
envelope_unpack-pack factories msgtype sequence body unpack message ht hs known made = (
  set_uint_16 msgtype ++ set_uint_16 sequence ++ set_uint_16 (length body) ++ body,
  refl,
  omega arith,
  rw (halves msgtype ht, known, made) (ap (λ s. ok (s, message)) (halves sequence hs)),
)
