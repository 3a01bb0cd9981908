-- ===== src/PktLine/Total.antt =====
-- `decodePktLines` of packages/rngit/src/pktline.js on any input.
use reticulum_js.Common.{
  ℕ, zero, suc, ◌+◌, ◌-◌, ◌≤◌, ◌<◌, ◌≡◌, ◌≢◌, ◌⊎◌, refl, ◌∙◌, arith, ◌||◌, Option, none, some, List,
  [], ◌∷◌, ◌++◌, ltb, ◌==◌, length, length-take, length-drop, take, drop, Result, ok, err,
  Option-cases, Bool-cases, inl, inr,
}
use reticulum_js.PktLine.{
  PktError, header_value, decode_loop, decode_pkt_lines, invalid_header, truncated, out_of_fuel,
}
use reticulum_js.PktLine.RoundTrip.{entry_size}

abbrev pub total_size : List (Option (List ℕ)) → ℕ
total_size [] = 0
total_size (e ∷ entries) = entry_size e + total_size entries

total_size-append :
    (xs ys : List (Option (List ℕ))) → total_size (xs ++ ys) ≡ total_size xs + total_size ys
total_size-append [] ys = omega arith
total_size-append (x ∷ xs) ys = omega (arith, total_size-append xs ys)

-- What a round does with four bytes at hand.
decode_round :
    (fuel a b c d : ℕ) (rest : List ℕ) (offset : ℕ) (lines : List (Option (List ℕ)))
    → (decode_loop (suc fuel) (a ∷ b ∷ c ∷ d ∷ rest) offset lines ≡ err (invalid_header offset))
      ⊎ (decode_loop (suc fuel) (a ∷ b ∷ c ∷ d ∷ rest) offset lines ≡ err (truncated offset))
      ⊎ (decode_loop (suc fuel) (a ∷ b ∷ c ∷ d ∷ rest) offset lines
          ≡ decode_loop fuel rest (offset + 4) (lines ++ none ∷ []))
      ⊎ ((n : ℕ) × (4 ≤ n)
          × (n ≤ length rest + 4)
          × (decode_loop (suc fuel) (a ∷ b ∷ c ∷ d ∷ rest) offset lines
              ≡ decode_loop fuel
                  (drop (n - 4) rest)
                  (offset + n)
                  (lines ++ some (take (n - 4) rest) ∷ [])))
unfolding decode_loop
decode_round fuel a b c d rest offset lines = elim (Option-cases (header_value a b c d)) [
  | inl e ↦ inl (rw (e, decode_loop) refl)
  | inr (n, e) ↦ elim (Bool-cases (n == 0)) [
    | inl z ↦ inr (inr (inl (ground (arith, e))))
    | inr z ↦ elim (Bool-cases (ltb n 4 || ltb (length rest + 4) n)) [
      | inl bad ↦ inr (inl (ground (arith, e)))
      | inr good ↦ inr (inr (inr (n, ground arith, ground arith, ground (arith, e))))
    ]
  ]
]

-- The decoded entries account for every byte of the input.
Accounted : List ℕ → List (Option (List ℕ)) → Result PktError (List (Option (List ℕ))) → Type 0
Accounted rest lines (ok out) = total_size out ≡ total_size lines + length rest
Accounted rest lines (err e) = e ≢ out_of_fuel

decode_loop-Accounted :
    (fuel : ℕ) (rest : List ℕ) (offset : ℕ) (lines : List (Option (List ℕ)))
    → length rest < fuel
    → Accounted rest lines (decode_loop fuel rest offset lines)
unfolding Accounted
decode_loop-Accounted zero rest offset lines h = absurd (omega arith)
decode_loop-Accounted (suc fuel) [] offset lines h = unfold decode_loop in omega arith
decode_loop-Accounted (suc fuel) (a ∷ []) offset lines h = unfold decode_loop in λ e. cc
decode_loop-Accounted (suc fuel) (a ∷ b ∷ []) offset lines h = unfold decode_loop in λ e. cc
decode_loop-Accounted (suc fuel) (a ∷ b ∷ c ∷ []) offset lines h = unfold decode_loop in λ e. cc
decode_loop-Accounted (suc fuel) (a ∷ b ∷ c ∷ d ∷ rest) offset lines h =
    elim (decode_round fuel a b c d rest offset lines) [
      | inl e ↦ rw e (λ x. cc)
      | inr (inl e) ↦ rw e (λ x. cc)
      | inr (inr (inl e)) ↦ rw e (
          move rest (lines ++ none ∷ []) _ (omega (arith, total_size-append lines (none ∷ [])))
            (decode_loop-Accounted fuel rest (offset + 4) (lines ++ none ∷ []) (omega arith)))
      | inr (inr (inr (n, lo, hi, e))) ↦
          let body : List ℕ = take (n - 4) rest in
          let left : List ℕ = drop (n - 4) rest in
          rw e (
            move left (lines ++ some body ∷ []) _
              (omega (
                arith,
                total_size-append lines (some body ∷ []),
                length-take (n - 4) rest,
                length-drop (n - 4) rest,
              ))
              (decode_loop-Accounted fuel left (offset + n) (lines ++ some body ∷ [])
                (omega (arith, length-drop (n - 4) rest))))
    ]
  where
    move :
        (left : List ℕ) (lines' : List (Option (List ℕ)))
        (r : Result PktError (List (Option (List ℕ))))
        → total_size lines' + length left ≡ total_size lines + length (a ∷ b ∷ c ∷ d ∷ rest)
        → Accounted left lines' r
        → Accounted (a ∷ b ∷ c ∷ d ∷ rest) lines r
    move left lines' (ok out) e k = k ∙ e
    move left lines' (err x) e k = k

-- On every input `decodePktLines` ends, and what it returns accounts for every byte: four for a flush
-- packet, four and the payload for a line.
pub decode_accounts :
    (bytes : List ℕ)
    → ((out : List (Option (List ℕ))) × (decode_pkt_lines bytes ≡ ok out)
        × (total_size out ≡ length bytes))
      ⊎ ((e : PktError) × (decode_pkt_lines bytes ≡ err e) × (e ≢ out_of_fuel))
unfolding decode_pkt_lines Accounted
decode_accounts bytes =
    read (decode_loop (suc (length bytes)) bytes 0 [])
      (decode_loop-Accounted (suc (length bytes)) bytes 0 [] (omega arith))
  where
    read :
        (r : Result PktError (List (Option (List ℕ))))
        → Accounted bytes [] r
        → ((out : List (Option (List ℕ))) × (r ≡ ok out) × (total_size out ≡ length bytes))
          ⊎ ((e : PktError) × (r ≡ err e) × (e ≢ out_of_fuel))
    read (ok out) h = inl (out, refl, omega arith)
    read (err e) h = inr (e, refl, h)
