-- ===== src/PktLine/Chunks.antt =====
-- `concat`, `chunkBytes` and the iterator of packages/rngit/src/pktline.js.
use reticulum_js.Common.{
  ℕ, zero, suc, ◌≤◌, ◌<◌, ◌≡◌, refl, arith, some, List, [], ◌∷◌, map, length, length-take,
  length-drop, take, drop, take-append-drop, All, All-weaken, min,
}
use reticulum_js.PktLine.{concat, chunk_loop, chunk_bytes}

chunk_loop_lem :
    (fuel : ℕ) (rest : List ℕ) (size : ℕ)
    → 0 < size
    → length rest ≤ fuel
    → (chunks : List (List ℕ)) × (chunk_loop fuel rest size ≡ some chunks)
      × (concat (map some chunks) ≡ rest)
      × All (λ (c : List ℕ). (1 ≤ length c) × (length c ≤ size)) chunks
chunk_loop_lem fuel [] size h fits =
    ([], unfold chunk_loop in ground arith, unfold concat in refl, tt)
chunk_loop_lem zero (b ∷ rest) size h fits = absurd (omega arith)
chunk_loop_lem (suc fuel) (b ∷ rest) size h fits =
    let first : List ℕ = take size (b ∷ rest) in
    let left : List ℕ = drop size (b ∷ rest) in
    let (chunks, e, whole, sizes) =
      chunk_loop_lem fuel left size h (omega (arith, length-drop size (b ∷ rest))) in
    (
      first ∷ chunks,
      step e,
      join chunks whole,
      (
        (omega (arith, length-take size (b ∷ rest)), omega (arith, length-take size (b ∷ rest))),
        sizes,
      ),
    )
  where
    step :
        {chunks : List (List ℕ)}
        → chunk_loop fuel (drop size (b ∷ rest)) size ≡ some chunks
        → chunk_loop (suc fuel) (b ∷ rest) size ≡ some (take size (b ∷ rest) ∷ chunks)
    step e = unfold chunk_loop in ground (arith, e)

    join :
        (chunks : List (List ℕ))
        → concat (map some chunks) ≡ drop size (b ∷ rest)
        → concat (map some (take size (b ∷ rest) ∷ chunks)) ≡ b ∷ rest
    join chunks e = unfold concat in rw e (take-append-drop size (b ∷ rest))

-- For a size above 0 `chunkBytes` ends, its chunks put together by `concat` are the data, no chunk
-- is longer than `size`, and on data that is not empty none is empty.
pub concat-chunk_bytes :
    (bytes : List ℕ) (size : ℕ)
    → 0 < size
    → (chunks : List (List ℕ)) × (chunk_bytes bytes size ≡ some chunks)
      × (concat (map some chunks) ≡ bytes)
      × All (λ (c : List ℕ). (min 1 (length bytes) ≤ length c) × (length c ≤ size)) chunks
concat-chunk_bytes [] size h =
    ([] ∷ [], unfold chunk_bytes in refl, unfold concat in refl, ((omega arith, omega arith), tt))
concat-chunk_bytes (b ∷ bytes) size h =
    let (chunks, e, whole, sizes) =
      chunk_loop_lem (length (b ∷ bytes)) (b ∷ bytes) size h (omega arith) in
    (
      chunks,
      unfold chunk_bytes in e,
      whole,
      All-weaken _ _ (λ c k. (omega arith, omega arith)) chunks sizes,
    )
