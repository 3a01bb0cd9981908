-- ===== src/Channel/Ring.antt =====
-- The receive ring of packages/core/src/transport/channel.js before the sequence numbers wrap around:
-- the message with index `i` travels in an envelope with the sequence number `i`.
use reticulum_js.Common.{
  ℕ, zero, suc, ◌+◌, ◌≤◌, ◌<◌, ◌≡◌, ◌⊎◌, refl, ap, sym, ◌∙◌, arith, Bool, true, false, none, List,
  [], ◌∷◌, ◌++◌, ltb, leb, ◌==◌, if◌then◌else◌, length, Bool-cases, inl, inr,
}
use reticulum_js.Channel.{emplace_envelope, take_sequence}

-- The last index before the windows reach the wrap-around.
abbrev pub epoch : ℕ
epoch = 65487

module _ {M : Type 0} (msg : ℕ → M) where
  -- The messages from an index on, as many as are asked for.
  unfoldable pub from_index : ℕ → ℕ → List M
  from_index start zero = []
  from_index start (suc n) = msg start ∷ from_index (suc start) n

  pub from_index-append :
      (start mid m n : ℕ)
      → mid ≡ start + m
      → from_index start m ++ from_index mid n ≡ from_index start (m + n)
  unfolding from_index
  from_index-append start mid zero n e =
      let same : mid ≡ start = omega (arith, e) in
      let all : n ≡ 0 + n = omega arith in
      ap (λ s. from_index s n) same ∙ ap (λ k. from_index start k) all
  from_index-append start mid (suc m) n e =
      let longer : suc (m + n) ≡ suc m + n = omega arith in
      ap (λ r. msg start ∷ r) (from_index-append (suc start) mid m n (omega (arith, e)))
      ∙ ap (λ k. from_index start k) longer

  -- The ring holds messages of indices at or past `b`, in order.
  unfoldable pub Ascending : ℕ → List (ℕ × M) → Type 0
  Ascending b [] = Unit
  Ascending b ((s, m) ∷ ring) = (b ≤ s) × (s < epoch) × (m ≡ msg s) × Ascending (suc s) ring

  unfoldable pub has_index : ℕ → List (ℕ × M) → Bool
  has_index k [] = false
  has_index k ((s, m) ∷ ring) = let rest = has_index k ring in if s == k then true else rest

  pub Ascending-weaken :
      (a b : ℕ) (ring : List (ℕ × M)) → a ≤ b → Ascending b ring → Ascending a ring
  unfolding Ascending
  Ascending-weaken a b [] h asc = tt
  Ascending-weaken a b ((s, m) ∷ ring) h (l, e, same, rest) = (omega (arith, h, l), e, same, rest)

  pub emplace-Ascending :
      (next b i : ℕ) (ring : List (ℕ × M))
      → b ≤ i
      → next ≤ i
      → i < epoch
      → Ascending b ring
      → Ascending b (emplace_envelope next (i, msg i) ring).0
  unfolding Ascending emplace_envelope
  emplace-Ascending next b i [] h n e asc = (h, e, refl, tt)
  emplace-Ascending next b i ((s, m) ∷ ring) h n e (l, se, same, rest) =
      let near : leb (i + 32768) next ≡ false = ground (arith, n) in
      elim (Bool-cases (i == s)) [
        | inl eq ↦ rw eq (l, se, same, rest)
        | inr other ↦ elim (Bool-cases (ltb i s)) [
          | inl below ↦
              rw (other, below, near) (h, e, refl, (ground (arith, below), se, same, rest))
          | inr above ↦
              rw (other, above)
                (
                  l,
                  se,
                  same,
                  emplace-Ascending next (suc s) i ring (ground (arith, other, above)) n e rest,
                )
        ]
      ]

  -- Taking the next index out of the ring finds it in front or nowhere.
  pub take_sequence-none :
      (n b : ℕ) (ring : List (ℕ × M))
      → n < b
      → Ascending b ring
      → (take_sequence n ring ≡ none) × (has_index n ring ≡ false)
  unfolding Ascending take_sequence has_index
  take_sequence-none n b [] h asc = (refl, refl)
  take_sequence-none n b ((s, m) ∷ ring) h (l, se, same, rest) =
      let other : (s == n) ≡ false = ground (arith, h, l) in
      let (gone, absent) = take_sequence-none n (suc s) ring (omega (arith, h, l)) rest in
      (rw (other, gone) refl, rw (other, absent) refl)

  pub has_index-behind :
      (n j : ℕ) (ring : List (ℕ × M))
      → (n == j) ≡ false
      → has_index j ((n, msg n) ∷ ring) ≡ true
      → has_index j ring ≡ true
  unfolding has_index
  has_index-behind n j ring other h = rw other at h

  pub Ascending-front :
      (s n : ℕ) (m : M) (ring : List (ℕ × M))
      → Ascending n ((s, m) ∷ ring)
      → ((s ≡ n) × (n < epoch) × (m ≡ msg n) × Ascending (suc n) ring)
        ⊎ Ascending (suc n) ((s, m) ∷ ring)
  unfolding Ascending
  Ascending-front s n m ring (l, se, same, rest) = elim (Bool-cases (s == n)) [
    | inl front ↦
        let at : s ≡ n = ground (arith, front) in
        inl (at, omega (arith, at, se), same ∙ ap msg at, rw (sym at) rest)
    | inr later ↦ inr (ground (arith, later, l), se, same, rest)
  ]

  pub length-emplace :
      (next : ℕ) (envelope : ℕ × M) (ring : List (ℕ × M))
      → length (emplace_envelope next envelope ring).0 ≤ suc (length ring)
  unfolding emplace_envelope
  length-emplace next envelope [] = omega arith
  length-emplace next envelope (x ∷ ring) = ground (arith, length-emplace next envelope ring)

  pub emplace-keeps :
      (next j : ℕ) (envelope : ℕ × M) (ring : List (ℕ × M))
      → (has_index j ring ≡ true → has_index j (emplace_envelope next envelope ring).0 ≡ true)
        × (has_index envelope.0 (emplace_envelope next envelope ring).0 ≡ true)
  unfolding emplace_envelope has_index
  emplace-keeps next j envelope [] = (λ h. cc, ground arith)
  emplace-keeps next j envelope (x ∷ ring) =
      let (keeps, has) = emplace-keeps next j envelope ring in
      (λ h. ground (arith, keeps, h), ground (arith, has))

  pub emplace-duplicate :
      (next : ℕ) (envelope : ℕ × M) (ring : List (ℕ × M))
      → (emplace_envelope next envelope ring).1 ≡ false
      → has_index envelope.0 ring ≡ true
  unfolding emplace_envelope has_index
  emplace-duplicate next envelope [] h = cc
  emplace-duplicate next envelope (x ∷ ring) h =
      ground (arith, h, emplace-duplicate next envelope ring)
