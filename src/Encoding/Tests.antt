-- ===== src/Encoding/Tests.antt =====
-- Runs of packages/core/src/utils/encoding.js, and the theorems at concrete bytes.
use reticulum_js.Common.{◌≡◌, refl, arith, [], ◌∷◌, ok, err}
use reticulum_js.Encoding.Base64.{
  sextet_char, bytes_to_base_64, base_64_dec, replace_char, strip_padding, low_six, join_sextets,
  byte_if, decode_quads, base_64_to_bytes, bytes_to_base_64_url, base_64_url_to_bytes,
}
use reticulum_js.Encoding.Base64.RoundTrip.{base_64_round_trips}
use reticulum_js.Encoding.{
  hex_digit, to_hex, is_stripped, strip, hex_value, parse_pair, pairs, from_hex, odd_length,
}

to_hex_run : to_hex (0xab ∷ 0x07 ∷ []) ≡ b'a' ∷ b'b' ∷ b'0' ∷ b'7' ∷ []
unfolding to_hex hex_digit
to_hex_run = refl

from_hex_loose :
    from_hex (b'A' ∷ b'-' ∷ b'b' ∷ b' ' ∷ b'+' ∷ b'7' ∷ b'3' ∷ b'z' ∷ b'z' ∷ b'1' ∷ [])
    ≡ ok (0xab ∷ 7 ∷ 3 ∷ 0 ∷ [])
unfolding from_hex strip pairs parse_pair is_stripped hex_value
from_hex_loose = refl

from_hex_odd : from_hex (b'A' ∷ []) ≡ err odd_length
unfolding from_hex strip is_stripped
from_hex_odd = refl

-- "_w" and "/w==" both stand for the byte 255.
lenient : base_64_to_bytes (b'_' ∷ b'w' ∷ []) ≡ 255 ∷ []
unfolding base_64_to_bytes strip_padding replace_char decode_quads base_64_dec join_sextets low_six
    byte_if
lenient = refl

padded : bytes_to_base_64 (255 ∷ []) ≡ b'/' ∷ b'w' ∷ b'=' ∷ b'=' ∷ []
unfolding bytes_to_base_64 sextet_char
padded = refl

base_64_round_trips_example :
    (base_64_to_bytes (bytes_to_base_64 (1 ∷ 255 ∷ [])) ≡ 1 ∷ 255 ∷ [])
    × (base_64_url_to_bytes (bytes_to_base_64_url (1 ∷ 255 ∷ [])) ≡ 1 ∷ 255 ∷ [])
base_64_round_trips_example = base_64_round_trips (1 ∷ 255 ∷ []) (omega arith, (omega arith, tt))
