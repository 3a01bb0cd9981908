-- ===== src/Pkcs7.antt =====
-- packages/core/src/crypto/pkcs7.js: `pkcs7.pad` and `pkcs7.unpad`. The proofs are in Padding.
pub mod Padding
mod Tests
use native.Mathlib.Decide.{dec_lt}
use mathlib.Core.Path.{ap₂}
use mathlib.Core.Bool.{false≢true}
use reticulum_js.Common.{
  ℕ, zero, suc, ◌+◌, ◌-◌, ◌%◌, ◌≤◌, ◌<◌, ◌≡◌, ◌↔◌, ◌≢◌, refl, sym, ap, ◌∙◌, arith, Bool, true,
  false, ◌||◌, Option, none, some, List, [], ◌∷◌, ◌++◌, ltb, leb, ◌==◌, ==_iff, if◌then◌else◌,
  length, length-append, length-replicate, length-take, length-drop, get_elem?, take, drop,
  replicate, take-append, take-append-drop, Result, ok, err, Bool-cases, inl, inr,
}

pub data Pkcs7Error : Type 0 where
  empty_data : Pkcs7Error
  invalid_padding : Pkcs7Error

pub pad : List ℕ → List ℕ
pad bytes =
    let padding_length : ℕ = 16 - length bytes % 16 in
    bytes ++ replicate padding_length padding_length

-- `data[data.length - i]`, which is `undefined` before the start.
abbrev from_end : List ℕ → ℕ → Option ℕ
from_end bytes i = if leb i (length bytes) then get_elem? bytes (length bytes - i) else none

is_value : Option ℕ → ℕ → Bool
is_value none v = false
is_value (some b) v = b == v

-- The loop over `i`, with `rounds` left.
check : List ℕ → ℕ → ℕ → ℕ → Bool
check bytes v zero i = true
check bytes v (suc rounds) i =
    let rest = check bytes v rounds (suc i) in if is_value (from_end bytes i) v then rest else false

last : List ℕ → ℕ
last bytes = elim (from_end bytes 1) [ none ↦ 0 | some b ↦ b ]

pub unpad : List ℕ → Result Pkcs7Error (List ℕ)
unpad bytes =
    let padding_length : ℕ = last bytes in
    if length bytes == 0
    then err empty_data
    else if ltb padding_length 1 || ltb 16 padding_length
    then err invalid_padding
    else if check bytes padding_length padding_length 1
    then ok (take (length bytes - padding_length) bytes)
    else err invalid_padding
