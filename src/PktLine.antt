-- ===== src/PktLine.antt =====
-- packages/rngit/src/pktline.js: pkt-lines and chunks of bytes. A string payload is its UTF-8 bytes.
pub mod RoundTrip
pub mod Total
pub mod Chunks
mod Tests
use reticulum_js.Common.{
  ℕ, zero, suc, ◌+◌, ◌-◌, ◌*◌, ◌/◌, ◌%◌, ◌^◌, Bool, true, false, ◌&&◌, ◌||◌, Option, none, some,
  List, [], ◌∷◌, ◌++◌, ltb, leb, ◌==◌, if◌then◌else◌, length, take, drop, Result, ok, err,
}

abbrev pub flush : List ℕ
flush = 0x30 ∷ 0x30 ∷ 0x30 ∷ 0x30 ∷ []

-- `HEX.charCodeAt(n)`
pub hex_digit : ℕ → ℕ
hex_digit n = if ltb n 10 then b'0' + n else b'a' + (n - 10)

pub data PktError : Type 0 where
  payload_too_long : PktError
  invalid_header : ℕ → PktError
  truncated : ℕ → PktError
  trailing_garbage : PktError
  out_of_fuel : PktError

-- `(length >> 12) & 0xf` and so on, then the body.
pub encode_pkt_line : List ℕ → Result PktError (List ℕ)
unfolding hex_digit
encode_pkt_line body =
    let n : ℕ = length body + 4 in
    if ltb 0xffff (length body + 4)
    then err payload_too_long
    else ok (
        hex_digit (n / 2 ^ 12 % 16)
        ∷ hex_digit (n / 2 ^ 8 % 16)
        ∷ hex_digit (n / 2 ^ 4 % 16)
        ∷ hex_digit (n % 16)
        ∷ body)

-- A character of `/[0-9a-fA-F]/`, and what `parseInt` takes it for.
pub hex_value : ℕ → Option ℕ
hex_value c =
    if leb b'0' c && leb c b'9'
    then some (c - b'0')
    else if leb b'a' c && leb c b'f'
    then some (c - b'a' + 10)
    else if leb b'A' c && leb c b'F'
    then some (c - b'A' + 10)
    else none

infixl 5 ◌>>=◌
abbrev ◌>>=◌ {ℓ κ} : {A : Type ℓ} {B : Type κ} → Option A → (A → Option B) → Option B
none >>= f = none
some a >>= f = f a

-- The regular expression, then `Number.parseInt(header, 16)`.
pub header_value : ℕ → ℕ → ℕ → ℕ → Option ℕ
unfolding hex_value
header_value a b c d = do
  h ← hex_value a
  i ← hex_value b
  j ← hex_value c
  k ← hex_value d
  some (((h * 16 + i) * 16 + j) * 16 + k)

-- The loop: `rest` is what stands from `offset` on, `lines` what was pushed. A `null` is `none`.
pub decode_loop : ℕ → List ℕ → ℕ → List (Option (List ℕ)) → Result PktError (List (Option (List ℕ)))
decode_loop zero rest offset lines = err out_of_fuel
decode_loop (suc fuel) (a ∷ b ∷ c ∷ d ∷ rest) offset lines = elim (header_value a b c d) [
  | none ↦ err (invalid_header offset)
  | some n ↦
      let after_flush = decode_loop fuel rest (offset + 4) (lines ++ none ∷ []) in
      let after_line =
        decode_loop fuel (drop (n - 4) rest) (offset + n)
          (lines ++ some (take (n - 4) rest) ∷ []) in
      if n == 0
      then after_flush
      else if ltb n 4 || ltb (length rest + 4) n
      then err (truncated offset)
      else after_line
]
decode_loop (suc fuel) [] offset lines = ok lines
decode_loop (suc fuel) _ offset lines = err trailing_garbage

-- Each round takes four bytes at least.
pub decode_pkt_lines : List ℕ → Result PktError (List (Option (List ℕ)))
decode_pkt_lines bytes = decode_loop (suc (length bytes)) bytes 0 []

-- `concat(...chunks)`; `null` and `undefined` are left out.
pub concat : List (Option (List ℕ)) → List ℕ
concat [] = []
concat (none ∷ chunks) = concat chunks
concat (some chunk ∷ chunks) = chunk ++ concat chunks

-- The loop of `chunkBytes`; `rest` is what stands from `i` on. A `size` of 0 would never end.
chunk_loop : ℕ → List ℕ → ℕ → Option (List (List ℕ))
chunk_loop fuel [] size = some []
chunk_loop zero (b ∷ rest) size = none
chunk_loop (suc fuel) (b ∷ rest) size = elim (chunk_loop fuel (drop size (b ∷ rest)) size) [
  | none ↦ none
  | some chunks ↦ some (take size (b ∷ rest) ∷ chunks)
]

pub chunk_bytes : List ℕ → ℕ → Option (List (List ℕ))
chunk_bytes [] size = some ([] ∷ [])
chunk_bytes (b ∷ bytes) size = chunk_loop (length (b ∷ bytes)) (b ∷ bytes) size

-- The iterator's `next`, on its variable `index`.
pub next_chunk : List ℕ → ℕ → ℕ → Option (List ℕ) × ℕ
next_chunk bytes size index =
    if leb (length bytes) index
    then (none, index)
    else (some (take size (drop index bytes)), index + size)
