-- ===== src/Ifac.antt =====
-- Interface authentication: packages/core/src/core/ifac.js, and the hooks `_sealRaw` and `_openRaw` of
-- packages/core/src/interfaces/base.js that the framers call. The primitives of WebCrypto and of the
-- curve library are parameters.
pub mod Masks
pub mod Parts
pub mod Access
pub mod Hooks
pub mod Framed
pub mod Tests
use reticulum_js.Common.{
  ℕ, zero, suc, ◌+◌, ◌-◌, ◌≤◌, ◌<◌, Bool, true, false, ◌&&◌, ◌||◌, not, Option, none, some, List,
  [], ◌∷◌, ◌++◌, bit_and, bit_or, bit_xor, ltb, leb, ◌==◌, if◌then◌else◌, length, get_or, take,
  drop, replicate,
}
use reticulum_js.Encoding.{bytes_equal, concat_bytes}
use reticulum_js.Hkdf.{hkdf}
use reticulum_js.Framing.{Opened, dropped, opened}

-- `hmac key message`, `full_hash` (`Identity.fullHash`), and `sign key message`: the signature by the
-- identity that `Identity.fromPrivateKey` loads from `key`.
pub record Primitives : Type 0 where
  pub hmac : List ℕ → List ℕ → List ℕ
  pub full_hash : List ℕ → List ℕ
  pub sign : List ℕ → List ℕ → List ℕ

abbrev pub ifac_min_size : ℕ
ifac_min_size = 1

abbrev pub ifac_salt : List ℕ
ifac_salt =
    0xad ∷ 0xf5 ∷ 0x4d ∷ 0x88 ∷ 0x2c ∷ 0x9a ∷ 0x9b ∷ 0x80 ∷ 0x77 ∷ 0x1e ∷ 0xb4 ∷ 0x99 ∷ 0x5d ∷ 0x70
    ∷ 0x2d ∷ 0x4a ∷ 0x3e ∷ 0x73 ∷ 0x33 ∷ 0x91 ∷ 0xb2 ∷ 0xa0 ∷ 0xf5 ∷ 0x3f ∷ 0x41 ∷ 0x6d ∷ 0x9f
    ∷ 0x90 ∷ 0x7e ∷ 0x55 ∷ 0xcf ∷ 0xf8 ∷ []

-- The identity is the one that `ifac_key` loads.
pub record IfacMaterial : Type 0 where
  pub ifac_key : List ℕ
  pub ifac_signature : List ℕ

pub record IfacConfig : Type 0 where
  pub ifac_key : List ℕ
  pub ifac_size : ℕ

-- The secrets are the UTF-8 bytes of the strings; `[]` is the empty string, `null` or `undefined`.
unfoldable pub part : (List ℕ → List ℕ) → List ℕ → List (List ℕ)
part full_hash secret = if length secret == 0 then [] else full_hash secret ∷ []

-- `fullSig.subarray(fullSig.length - ifacSize)`. A negative start counts from the end.
unfoldable pub last_bytes : ℕ → List ℕ → List ℕ
last_bytes size sig =
    if leb size (length sig)
    then drop (length sig - size) sig
    else drop (length sig - (size - length sig)) sig

-- The loop of `seal` from index `i` on.
unfoldable pub seal_mask : ℕ → List ℕ → ℕ → List ℕ → List ℕ
seal_mask size mask i [] = []
seal_mask size mask i (b ∷ bs) =
    (if i == 0
      then bit_or (bit_xor b (get_or mask i 0)) 0x80
      else if i == 1 || ltb (size + 1) i
      then bit_xor b (get_or mask i 0)
      else b)
    ∷ seal_mask size mask (suc i) bs

-- The loop of `open`.
unfoldable pub open_mask : ℕ → List ℕ → ℕ → List ℕ → List ℕ
open_mask size mask i [] = []
open_mask size mask i (b ∷ bs) =
    (if leb i 1 || ltb (size + 1) i then bit_xor b (get_or mask i 0) else b)
    ∷ open_mask size mask (suc i) bs

unfoldable pub has_ifac_flag : List ℕ → Bool
has_ifac_flag raw = ltb 0 (length raw) && not (bit_and (get_or raw 0 0) 0x80 == 0)

module _ (c : Primitives) where
  unfoldable pub derive_ifac : List ℕ → List ℕ → Option IfacMaterial
  derive_ifac netname netkey =
      let parts : List (List ℕ) = part c.full_hash netname ++ part c.full_hash netkey in
      if length parts == 0
      then none
      else let origin_hash : List ℕ = c.full_hash (concat_bytes parts) in
        let ifac_key : List ℕ = hkdf c.hmac origin_hash ifac_salt [] 64 in
        some record { ifac_key = ifac_key; ifac_signature = c.sign ifac_key (c.full_hash ifac_key) }

  -- `none`: `newRaw.set(ifac, 2)` throws a RangeError, where there is no room after index 2.
  unfoldable pub seal : List ℕ → IfacConfig → Option (List ℕ)
  seal [] cfg = none
  seal (b ∷ []) cfg = none
  seal (b_0 ∷ b_1 ∷ rest) cfg =
      let raw : List ℕ = b_0 ∷ b_1 ∷ rest in
      let ifac : List ℕ = last_bytes cfg.ifac_size (c.sign cfg.ifac_key raw) in
      let mask : List ℕ = hkdf c.hmac ifac cfg.ifac_key [] (length raw + cfg.ifac_size) in
      let field : List ℕ = ifac ++ replicate (cfg.ifac_size - length ifac) 0 in
      some (seal_mask cfg.ifac_size mask 0 (bit_or b_0 0x80 ∷ b_1 ∷ (field ++ rest)))

  -- The bytes that `open` takes out of a sealed packet, before it compares.
  unfoldable pub strip_ifac : List ℕ → IfacConfig → List ℕ
  strip_ifac raw cfg =
      let ifac : List ℕ = take cfg.ifac_size (drop 2 raw) in
      let mask : List ℕ = hkdf c.hmac ifac cfg.ifac_key [] (length raw) in
      let unmasked : List ℕ = open_mask cfg.ifac_size mask 0 raw in
      bit_and (get_or unmasked 0 0) 0x7f ∷ get_or unmasked 1 0 ∷ drop (2 + cfg.ifac_size) unmasked

  unfoldable pub open_sealed : List ℕ → IfacConfig → Option (List ℕ)
  open_sealed raw cfg =
      if leb (length raw) (2 + cfg.ifac_size)
      then none
      else let ifac : List ℕ = take cfg.ifac_size (drop 2 raw) in
        let new_raw : List ℕ = strip_ifac raw cfg in
        let expected : List ℕ = last_bytes cfg.ifac_size (c.sign cfg.ifac_key new_raw) in
        if bytes_equal ifac expected then some new_raw else none

-- The fields of an interface that the hooks use. The material is derived once, from secrets that do
-- not change, so that it is a function of them.
pub record Interface : Type 0 where
  pub ifac_netname : List ℕ
  pub ifac_netkey : List ℕ
  pub ifac_size : ℕ
  pub default_ifac_size : ℕ
  pub protocol_violations : ℕ
  pub ifac_violations : ℕ

-- `ifacSize` after `_ensureIfacMaterial`.
unfoldable pub effective_size : Interface → ℕ
effective_size s =
    if s.ifac_size == 0 || ltb s.ifac_size ifac_min_size then s.default_ifac_size else s.ifac_size

unfoldable pub protocol_violation : Interface → Interface × Opened
protocol_violation s = (record s { protocol_violations = s.protocol_violations + 1 }, dropped)

unfoldable pub ifac_violation : Interface → Interface × Opened
ifac_violation s = (record s { ifac_violations = s.ifac_violations + 1 }, dropped)

module _ (c : Primitives) where
  -- `_ensureIfacMaterial`: what the hooks work with; `none` where IFAC is not enabled.
  unfoldable pub config : Interface → Option IfacConfig
  config s = elim (derive_ifac c s.ifac_netname s.ifac_netkey) [
    | none ↦ none
    | some material ↦ some record { ifac_key = material.ifac_key; ifac_size = effective_size s }
  ]

  unfoldable pub seal_raw : Interface → List ℕ → Option (List ℕ)
  seal_raw s raw = elim (config s) [ none ↦ some raw | some cfg ↦ seal c raw cfg ]

  unfoldable pub open_raw : Interface → List ℕ → Interface × Opened
  open_raw s raw = if leb (length raw) 2 then protocol_violation s else elim (config s) [
    | none ↦ if has_ifac_flag raw then protocol_violation s else (s, opened raw)
    | some cfg ↦
        if not (has_ifac_flag raw)
        then ifac_violation s
        else if leb (length raw) (2 + cfg.ifac_size)
        then ifac_violation s
        else elim (open_sealed c raw cfg) [
          | none ↦ ifac_violation s
          | some inner ↦ (s, opened inner)
        ]
  ]
