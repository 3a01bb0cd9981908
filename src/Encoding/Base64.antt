-- ===== src/Encoding/Base64.antt =====
-- Base64 in packages/core/src/utils/encoding.js. `|` joins parts that have no bit in common, so it is
-- written as a sum. A sextet that the table does not hold is -1, whose low bits are all ones.
pub mod RoundTrip
use reticulum_js.Common.{
  ℕ, zero, suc, ◌+◌, ◌-◌, ◌*◌, ◌/◌, ◌%◌, ◌^◌, Bool, true, false, ◌&&◌, Option, none, some, List, [],
  ◌∷◌, ◌++◌, ltb, leb, ◌==◌, if◌then◌else◌, length, replicate, map,
}

-- `chars[n]`
unfoldable pub sextet_char : ℕ → ℕ
sextet_char n =
    if ltb n 26
    then b'A' + n
    else if ltb n 52
    then b'a' + (n - 26)
    else if ltb n 62
    then b'0' + (n - 52)
    else if n == 62
    then b'+'
    else b'/'

unfoldable pub bytes_to_base_64 : List ℕ → List ℕ
bytes_to_base_64 [] = []
bytes_to_base_64 (a ∷ []) =
    let n : ℕ = a * 2 ^ 16 in
    sextet_char (n / 2 ^ 18 % 64) ∷ sextet_char (n / 2 ^ 12 % 64) ∷ b'=' ∷ b'=' ∷ []
bytes_to_base_64 (a ∷ b ∷ []) =
    let n : ℕ = a * 2 ^ 16 + b * 2 ^ 8 in
    sextet_char (n / 2 ^ 18 % 64)
    ∷ sextet_char (n / 2 ^ 12 % 64)
    ∷ sextet_char (n / 2 ^ 6 % 64)
    ∷ b'='
    ∷ []
bytes_to_base_64 (a ∷ b ∷ c ∷ bytes) =
    let n : ℕ = a * 2 ^ 16 + b * 2 ^ 8 + c in
    sextet_char (n / 2 ^ 18 % 64)
    ∷ sextet_char (n / 2 ^ 12 % 64)
    ∷ sextet_char (n / 2 ^ 6 % 64)
    ∷ sextet_char (n % 64)
    ∷ bytes_to_base_64 bytes

-- `B64_DEC[c]`: `none` is -1, and past the table `undefined`, which counts as 0.
unfoldable pub base_64_dec : ℕ → Option ℕ
base_64_dec c =
    if leb 128 c
    then some 0
    else if leb b'A' c && leb c b'Z'
    then some (c - b'A')
    else if leb b'a' c && leb c b'z'
    then some (c - b'a' + 26)
    else if leb b'0' c && leb c b'9'
    then some (c - b'0' + 52)
    else if c == b'+'
    then some 62
    else if c == b'/'
    then some 63
    else if c == b'-'
    then some 62
    else if c == b'_'
    then some 63
    else none

-- `str.replace(/x/g, "y")`
unfoldable pub replace_char : ℕ → ℕ → ℕ → ℕ
replace_char from to c = if c == from then to else c

-- `replace(/=+$/, "")`
unfoldable pub strip_padding : List ℕ → List ℕ
strip_padding [] = []
strip_padding (c ∷ text) =
    let rest = strip_padding text in
    elim rest [ [] ↦ if c == b'=' then [] else c ∷ [] | ◌∷◌ d more ↦ c ∷ d ∷ more ]

-- `& 0x3f` of a sextet.
unfoldable pub low_six : Option ℕ → ℕ
low_six none = 63
low_six (some v) = v

-- The low 24 bits of `n`.
unfoldable pub join_sextets : Option ℕ → Option ℕ → Option ℕ → Option ℕ → ℕ
join_sextets c₀ none c₂ c₃ = 0xfff000 + low_six c₂ * 2 ^ 6 + low_six c₃
join_sextets c₀ (some v) c₂ c₃ = low_six c₀ * 2 ^ 18 + v * 2 ^ 12 + low_six c₂ * 2 ^ 6 + low_six c₃

-- The byte that a sextet other than -1 completes.
unfoldable pub byte_if : Option ℕ → ℕ → List ℕ
byte_if none b = []
byte_if (some v) b = b ∷ []

-- `c === "=" ? -1 : B64_DEC[c]`; the table has -1 there as well.
unfoldable pub decode_quads : List ℕ → List ℕ
decode_quads (w ∷ x ∷ y ∷ z ∷ text) =
    let c₂ = base_64_dec y in
    let c₃ = base_64_dec z in
    let n : ℕ = join_sextets (base_64_dec w) (base_64_dec x) c₂ c₃ in
    let rest = decode_quads text in
    n / 2 ^ 16 % 256 ∷ byte_if c₂ (n / 2 ^ 8 % 256) ++ byte_if c₃ (n % 256) ++ rest
decode_quads _ = []

unfoldable pub base_64_to_bytes : List ℕ → List ℕ
base_64_to_bytes str =
    let s = strip_padding (map (replace_char b'_' b'/') (map (replace_char b'-' b'+') str)) in
    decode_quads (s ++ replicate ((4 - length s % 4) % 4) b'=')

unfoldable pub bytes_to_base_64_url : List ℕ → List ℕ
bytes_to_base_64_url bytes =
    strip_padding
      (map (replace_char b'/' b'_') (map (replace_char b'+' b'-') (bytes_to_base_64 bytes)))

abbrev pub base_64_url_to_bytes : List ℕ → List ℕ
base_64_url_to_bytes str = base_64_to_bytes str
