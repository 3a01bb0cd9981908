-- ===== src/PktLine/Tests.antt =====
-- Runs of packages/rngit/src/pktline.js, and the theorems at concrete streams.
use reticulum_js.Common.{ℕ, ◌≡◌, ◌≢◌, ◌⊎◌, refl, arith, Option, none, some, List, [], ◌∷◌, ok, err}
use reticulum_js.PktLine.{
  PktError, header_value, encode_pkt_line, decode_loop, decode_pkt_lines, truncated, out_of_fuel,
  next_chunk,
}
use reticulum_js.PktLine.RoundTrip.{encode_all, decode-encode_all}
use reticulum_js.PktLine.Total.{total_size, decode_accounts}

encode_run : encode_pkt_line (b'h' ∷ b'i' ∷ []) ≡ ok (b'0' ∷ b'0' ∷ b'0' ∷ b'6' ∷ b'h' ∷ b'i' ∷ [])
unfolding encode_pkt_line
encode_run = refl

decode_run :
    decode_pkt_lines (b'0' ∷ b'0' ∷ b'0' ∷ b'5' ∷ 7 ∷ b'0' ∷ b'0' ∷ b'0' ∷ b'0' ∷ [])
    ≡ ok (some (7 ∷ []) ∷ none ∷ [])
unfolding decode_pkt_lines decode_loop header_value
decode_run = refl

decode_short : decode_pkt_lines (b'0' ∷ b'0' ∷ b'0' ∷ b'F' ∷ 7 ∷ []) ≡ err (truncated 0)
unfolding decode_pkt_lines decode_loop header_value
decode_short = refl

decode_reserved : decode_pkt_lines (b'0' ∷ b'0' ∷ b'0' ∷ b'1' ∷ []) ≡ err (truncated 0)
unfolding decode_pkt_lines decode_loop header_value
decode_reserved = refl

next_run : next_chunk (1 ∷ 2 ∷ 3 ∷ []) 2 2 ≡ (some (3 ∷ []), 4)
unfolding next_chunk
next_run = refl

decode-encode_all_example :
    (bytes : List ℕ) × (encode_all (some (7 ∷ 8 ∷ []) ∷ none ∷ []) ≡ ok bytes)
    × (decode_pkt_lines bytes ≡ ok (some (7 ∷ 8 ∷ []) ∷ none ∷ []))
decode-encode_all_example =
    decode-encode_all (some (7 ∷ 8 ∷ []) ∷ none ∷ []) (omega arith, (tt, tt))

decode_accounts_example :
    ((out : List (Option (List ℕ))) × (decode_pkt_lines (b'0' ∷ b'0' ∷ b'0' ∷ b'5' ∷ 7 ∷ [])
        ≡ ok out)
      × (total_size out ≡ 5))
    ⊎ ((e : PktError) × (decode_pkt_lines (b'0' ∷ b'0' ∷ b'0' ∷ b'5' ∷ 7 ∷ []) ≡ err e)
        × (e ≢ out_of_fuel))
decode_accounts_example = decode_accounts (b'0' ∷ b'0' ∷ b'0' ∷ b'5' ∷ 7 ∷ [])
