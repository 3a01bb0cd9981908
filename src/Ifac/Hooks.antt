-- ===== src/Ifac/Hooks.antt =====
-- The hooks `_sealRaw` and `_openRaw` of packages/core/src/interfaces/base.js, of two interfaces that
-- share their secrets, and the framers over them.
use reticulum_js.Common.{
  ℕ, ◌+◌, ◌≤◌, ◌<◌, ◌≡◌, refl, sym, ◌∙◌, ◌↔◌, arith, true, false, Option, none, some, List, [], ◌∷◌,
  length, All, IsByte,
}
use reticulum_js.Framing.{dropped, opened}
use reticulum_js.Ifac.{
  Primitives, IfacConfig, Interface, seal, open_sealed, has_ifac_flag, config, seal_raw, open_raw,
  protocol_violation, ifac_violation,
}
use reticulum_js.Ifac.Parts.{IsSound, flag_low, open_sealed_long, seal_shape, sealed_flag}
use reticulum_js.Ifac.Access.{forth, back, sealed_is_opened}

abbrev pub IsSmall : Option IfacConfig → Type 0
IsSmall none = Unit {0}
IsSmall (some cfg) = cfg.ifac_size ≤ 64

module _ (c : Primitives) (s t : Interface) (sound : IsSound c)
    (same : config c t ≡ config c s) where
  plain_hooks :
      (sealed raw : List ℕ)
      → config c s ≡ none
      → ((open_raw c s sealed).1 ≡ opened raw)
        ↔ ((seal_raw c t raw ≡ some sealed) × (has_ifac_flag raw ≡ false) × (2 < length raw))
  unfolding open_raw seal_raw protocol_violation
  plain_hooks sealed raw e = ground (arith, same)

  -- With IFAC, by the two halves of `open-seal`.
  ifac_opened :
      (cfg : IfacConfig) (sealed raw : List ℕ)
      → config c s ≡ some cfg
      → (open_raw c s sealed).1 ≡ opened raw
      → (has_ifac_flag sealed ≡ true) × (open_sealed c sealed cfg ≡ some raw)
  unfolding open_raw protocol_violation ifac_violation
  ifac_opened cfg sealed raw e is = ground (arith, e)

  ifac_opens :
      (cfg : IfacConfig) (sealed raw : List ℕ)
      → config c s ≡ some cfg
      → has_ifac_flag sealed ≡ true
      → open_sealed c sealed cfg ≡ some raw
      → (open_raw c s sealed).1 ≡ opened raw
  unfolding open_raw protocol_violation ifac_violation
  ifac_opens cfg sealed raw e flag is = ground (arith, e, open_sealed_long c cfg sealed raw is)

  ifac_seals :
      (cfg : IfacConfig) (raw : List ℕ) → config c s ≡ some cfg → seal_raw c t raw ≡ seal c raw cfg
  unfolding seal_raw
  ifac_seals cfg raw e = ground (arith, e, same)

  ifac_forth :
      (cfg : IfacConfig) (sealed raw : List ℕ)
      → config c s ≡ some cfg
      → cfg.ifac_size ≤ 64
      → All IsByte sealed
      → (open_raw c s sealed).1 ≡ opened raw
      → (seal_raw c t raw ≡ some sealed) × (has_ifac_flag raw ≡ false) × (2 < length raw)
  ifac_forth cfg sealed raw e small h is =
      let (flag, inner) = ifac_opened cfg sealed raw e is in
      rw (ifac_seals cfg raw e) (forth c cfg sound small sealed raw h flag inner)

  ifac_back :
      (cfg : IfacConfig) (sealed raw : List ℕ)
      → config c s ≡ some cfg
      → cfg.ifac_size ≤ 64
      → All IsByte raw
      → (seal_raw c t raw ≡ some sealed) × (has_ifac_flag raw ≡ false) × (2 < length raw)
      → (open_raw c s sealed).1 ≡ opened raw
  ifac_back cfg sealed [] e small h (is, clear, long) = absurd (omega arith)
  ifac_back cfg sealed (b_0 ∷ []) e small h (is, clear, long) = absurd (omega arith)
  ifac_back cfg sealed (b_0 ∷ b_1 ∷ rest) e small h (is, clear, long) =
      let raw : List ℕ = b_0 ∷ b_1 ∷ rest in
      let is' = sym (ifac_seals cfg raw e) ∙ is in
      ifac_opens cfg sealed raw e (sealed_flag c cfg sound small b_0 b_1 rest sealed h.0 is')
        (back c cfg sound small sealed raw h (is', clear, long))

  hooks_lem :
      (o : Option IfacConfig) (sealed raw : List ℕ)
      → config c s ≡ o
      → IsSmall o
      → All IsByte sealed
      → All IsByte raw
      → ((open_raw c s sealed).1 ≡ opened raw)
        ↔ ((seal_raw c t raw ≡ some sealed) × (has_ifac_flag raw ≡ false) × (2 < length raw))
  hooks_lem none sealed raw e small hs hr = plain_hooks sealed raw e
  hooks_lem (some cfg) sealed raw e small hs hr =
      (ifac_forth cfg sealed raw e small hs, ifac_back cfg sealed raw e small hr)

  -- What a header with its flag clear becomes.
  goes_through_lem :
      (o : Option IfacConfig) (b_0 b_1 : ℕ) (rest : List ℕ)
      → config c s ≡ o
      → IsSmall o
      → b_0 < 128
      → 0 < length rest
      → (sealed : List ℕ) × (seal_raw c t (b_0 ∷ b_1 ∷ rest) ≡ some sealed)
        × (length sealed ≤ length (b_0 ∷ b_1 ∷ rest) + 64)
        × (0 < length sealed)
        × ((open_raw c s sealed).1 ≡ opened (b_0 ∷ b_1 ∷ rest))
  goes_through_lem none b_0 b_1 rest e small low filled = (
    b_0 ∷ b_1 ∷ rest,
    unfold seal_raw in ground (arith, e, same),
    omega arith,
    omega arith,
    unfold open_raw in ground (arith, e, flag_low b_0 (b_1 ∷ rest) low),
  )
  goes_through_lem (some cfg) b_0 b_1 rest e small low filled =
      let raw : List ℕ = b_0 ∷ b_1 ∷ rest in
      let (sealed, is, size) = seal_shape c cfg sound small b_0 b_1 rest in
      (
        sealed,
        ifac_seals cfg raw e ∙ is,
        omega arith,
        omega arith,
        ifac_opens cfg sealed raw e
            (sealed_flag c cfg sound small b_0 b_1 rest sealed (omega arith) is)
            (sealed_is_opened c cfg sound small b_0 b_1 rest sealed low filled is),
      )

  pub goes_through :
      (b_0 b_1 : ℕ) (rest : List ℕ)
      → IsSmall (config c s)
      → b_0 < 128
      → 0 < length rest
      → (sealed : List ℕ) × (seal_raw c t (b_0 ∷ b_1 ∷ rest) ≡ some sealed)
        × (length sealed ≤ length (b_0 ∷ b_1 ∷ rest) + 64)
        × (0 < length sealed)
        × ((open_raw c s sealed).1 ≡ opened (b_0 ∷ b_1 ∷ rest))
  goes_through b_0 b_1 rest small low filled =
      goes_through_lem (config c s) b_0 b_1 rest refl small low filled

-- Two interfaces with the same secrets and IFAC size, at most 64, or both without secrets, over sound
-- primitives: for byte arrays, what the one lets in as a packet is exactly what the other sends for
-- that packet, and the packet has its flag clear and more than two bytes.
pub open_raw-seal_raw :
    (c : Primitives) (s t : Interface) (sealed raw : List ℕ)
    → IsSound c
    → config c t ≡ config c s
    → IsSmall (config c s)
    → All IsByte sealed
    → All IsByte raw
    → ((open_raw c s sealed).1 ≡ opened raw)
      ↔ ((seal_raw c t raw ≡ some sealed) × (has_ifac_flag raw ≡ false) × (2 < length raw))
open_raw-seal_raw c s t sealed raw sound same small hs hr =
    hooks_lem c s t sound same (config c s) sealed raw refl small hs hr

plain_drops :
    (c : Primitives) (s : Interface) (sealed : List ℕ)
    → config c s ≡ none
    → 2 < length sealed
    → has_ifac_flag sealed ≡ true
    → open_raw c s sealed ≡ (record s { protocol_violations = s.protocol_violations + 1 }, dropped)
unfolding open_raw protocol_violation
plain_drops c s sealed e long flag = ground (arith, e)

secret_drops :
    (c : Primitives) (t : Interface) (cfg : IfacConfig) (raw : List ℕ)
    → config c t ≡ some cfg
    → 2 < length raw
    → has_ifac_flag raw ≡ false
    → open_raw c t raw ≡ (record t { ifac_violations = t.ifac_violations + 1 }, dropped)
unfolding open_raw ifac_violation
secret_drops c t cfg raw e long flag = ground (arith, e)

pub some_injective : (x y : List ℕ) → ◌≡◌ {A = Option (List ℕ)} (some x) (some y) → x ≡ y
some_injective x y e = cc

-- An interface without secrets and one with them (with an IFAC of at most 64 bytes, over sound
-- primitives) let nothing of one another in: for a packet of bytes with its flag clear and more than
-- two bytes, the first drops what the second sends and counts a protocol violation, and the second
-- drops what the first sends and counts an IFAC violation.
pub modes_apart :
    (c : Primitives) (s t : Interface) (cfg : IfacConfig) (raw sealed : List ℕ)
    → IsSound c
    → config c s ≡ none
    → config c t ≡ some cfg
    → cfg.ifac_size ≤ 64
    → All IsByte raw
    → 2 < length raw
    → has_ifac_flag raw ≡ false
    → seal_raw c t raw ≡ some sealed
    → (open_raw c s sealed
        ≡ (record s { protocol_violations = s.protocol_violations + 1 }, dropped))
      × (seal_raw c s raw ≡ some raw)
      × (open_raw c t raw ≡ (record t { ifac_violations = t.ifac_violations + 1 }, dropped))
modes_apart c s t cfg [] sealed sound plain secret small h long clear e = absurd (omega arith)
modes_apart c s t cfg (b_0 ∷ []) sealed sound plain secret small h long clear e =
    absurd (omega arith)
modes_apart c s t cfg (b_0 ∷ b_1 ∷ rest) sealed sound plain secret small h long clear e =
    let raw : List ℕ = b_0 ∷ b_1 ∷ rest in
    let is : seal c raw cfg ≡ some sealed = sym (ifac_seals c t t sound refl cfg raw secret) ∙ e in
    let (sealed', is', size) = seal_shape c cfg sound small b_0 b_1 rest in
    let longer : 2 < length sealed =
      rw (some_injective sealed sealed' (sym is ∙ is')) (omega arith) in
    (
      plain_drops c s sealed plain longer
          (sealed_flag c cfg sound small b_0 b_1 rest sealed h.0 is),
      unfold seal_raw in ground (arith, plain),
      secret_drops c t cfg raw secret long clear,
    )
