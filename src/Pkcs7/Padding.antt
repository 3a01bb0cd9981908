-- ===== src/Pkcs7/Padding.antt =====
-- What `pad` and `unpad` of packages/core/src/crypto/pkcs7.js do to one another.
use native.Mathlib.Decide.{dec_lt}
use mathlib.Core.Path.{ap₂}
use mathlib.Core.Bool.{false≢true}
use reticulum_js.Common.{
  ℕ, zero, suc, ◌+◌, ◌-◌, ◌%◌, ◌≤◌, ◌<◌, ◌≡◌, ◌↔◌, refl, sym, ap, ◌∙◌, arith, true, Option, none,
  some, List, [], ◌∷◌, ◌++◌, length, length-append, length-replicate, length-drop, get_elem?, take,
  drop, replicate, take-append, take-append-drop, ok, Bool-cases, inl, inr,
}
use reticulum_js.Pkcs7.{pad, from_end, is_value, check, last, unpad}

get_elem?-replicate : (n v j : ℕ) → j < n → get_elem? (replicate n v) j ≡ some v
get_elem?-replicate zero v j h = absurd (omega arith)
get_elem?-replicate (suc n) v zero h = refl
get_elem?-replicate (suc n) v (suc j) h = get_elem?-replicate n v j (omega arith)

get_elem?-padded :
    (bytes : List ℕ) (n v k : ℕ)
    → length bytes ≤ k
    → k < length bytes + n
    → get_elem? (bytes ++ replicate n v) k ≡ some v
get_elem?-padded [] n v k lo hi = get_elem?-replicate n v k (omega arith)
get_elem?-padded (b ∷ bytes) n v zero lo hi = absurd (omega arith)
get_elem?-padded (b ∷ bytes) n v (suc k) lo hi =
    get_elem?-padded bytes n v k (omega arith) (omega arith)

from_end-padded :
    (bytes : List ℕ) (n v i : ℕ) → 1 ≤ i → i ≤ n → from_end (bytes ++ replicate n v) i ≡ some v
from_end-padded bytes n v i h h' = ground (
  arith,
  length-append bytes (replicate n v),
  length-replicate n v,
  get_elem?-padded bytes n v (length (bytes ++ replicate n v) - i),
)

check-padded :
    (bytes : List ℕ) (n v rounds i : ℕ)
    → 1 ≤ i
    → i + rounds ≤ n + 1
    → check (bytes ++ replicate n v) v rounds i ≡ true
unfolding check is_value
check-padded bytes n v zero i h h' = refl
check-padded bytes n v (suc rounds) i h h' =
    ground (arith, from_end-padded bytes n v i, check-padded bytes n v rounds (suc i))

-- Any 1 to 16 equal bytes that count themselves are taken off.
unpad-padded : (bytes : List ℕ) (n : ℕ) → 1 ≤ n → n ≤ 16 → unpad (bytes ++ replicate n n) ≡ ok bytes
unfolding unpad last
unpad-padded bytes n h h' = ground (
  arith,
  from_end-padded bytes n n 1 (omega arith) h,
  check-padded bytes n n n 1 (omega arith) (omega arith),
  length-append bytes (replicate n n),
  length-replicate n n,
  cut,
)
  where
    cut : take (length (bytes ++ replicate n n) - n) (bytes ++ replicate n n) ≡ bytes
    cut =
        take-append _ bytes (replicate n n)
          (omega (arith, length-append bytes (replicate n n), length-replicate n n))

-- The other way: what the loop has seen.
is_value→eq : (o : Option ℕ) (v : ℕ) → is_value o v ≡ true → o ≡ some v
unfolding is_value
is_value→eq none v h = cc
is_value→eq (some b) v h = ground arith

check_first :
    (bytes : List ℕ) (v rounds i : ℕ)
    → check bytes v (suc rounds) i ≡ true
    → (from_end bytes i ≡ some v) × (check bytes v rounds (suc i) ≡ true)
unfolding check
check_first bytes v rounds i c = elim (Bool-cases (is_value (from_end bytes i) v)) [
  | inl h ↦ (is_value→eq (from_end bytes i) v h, rw h at c)
  | inr h ↦ absurd (false≢true (rw h at c))
]

check-at :
    (bytes : List ℕ) (v rounds i j : ℕ)
    → check bytes v rounds i ≡ true
    → i ≤ j
    → j < i + rounds
    → from_end bytes j ≡ some v
check-at bytes v zero i j c lo hi = absurd (omega arith)
check-at bytes v (suc rounds) i j c lo hi = elim (dec_lt i j) [
  | yes h ↦ check-at bytes v rounds (suc i) j (check_first bytes v rounds i c).1 h (omega arith)
  | no h ↦ let e : j ≡ i = omega arith in rw e (check_first bytes v rounds i c).0
]

get_elem?-drop : (n k j : ℕ) (xs : List ℕ) → k ≡ n + j → get_elem? (drop n xs) j ≡ get_elem? xs k
get_elem?-drop zero k j xs e = ap (get_elem? xs) (omega arith)
get_elem?-drop (suc n) k j [] e = refl
get_elem?-drop (suc n) zero j (x ∷ xs) e = absurd (omega arith)
get_elem?-drop (suc n) (suc k) j (x ∷ xs) e = get_elem?-drop n k j xs (omega arith)

all_equal :
    (xs : List ℕ) (v : ℕ)
    → ((j : ℕ) → j < length xs → get_elem? xs j ≡ some v)
    → xs ≡ replicate (length xs) v
all_equal [] v h = refl
all_equal (x ∷ xs) v h =
    let first : x ≡ v = cc (h 0 (omega arith)) in
    ap₂ ◌∷◌ first (all_equal xs v (λ j lt. h (suc j) (omega arith)))

from_end-le : (bytes : List ℕ) (i v : ℕ) → from_end bytes i ≡ some v → i ≤ length bytes
from_end-le bytes i v h = ground arith

from_end→get :
    (bytes : List ℕ) (i v : ℕ)
    → from_end bytes i ≡ some v
    → get_elem? bytes (length bytes - i) ≡ some v
from_end→get bytes i v h = ground arith

tail_lem :
    (bytes : List ℕ) (n v : ℕ)
    → 1 ≤ n
    → check bytes v n 1 ≡ true
    → bytes ≡ take (length bytes - n) bytes ++ replicate n v
tail_lem bytes n v h c =
    let fits = from_end-le bytes n v (check-at bytes v n 1 n c h (omega arith)) in
    let cut : ℕ = length bytes - n in
    let size : length (drop cut bytes) ≡ n = omega (arith, length-drop cut bytes) in
    sym (take-append-drop cut bytes)
    ∙ ap (λ xs. take cut bytes ++ xs)
        (all_equal (drop cut bytes) v (λ j lt.
            get_elem?-drop cut (length bytes - (n - j)) j bytes (omega arith)
            ∙ from_end→get bytes (n - j) v
                (check-at bytes v n 1 (n - j) c (omega arith) (omega arith)))
          ∙ ap (λ k. replicate k v) size)

unpad_passed :
    (bytes out : List ℕ)
    → unpad bytes ≡ ok out
    → (1 ≤ last bytes)
      × (last bytes ≤ 16)
      × (check bytes (last bytes) (last bytes) 1 ≡ true)
      × (out ≡ take (length bytes - last bytes) bytes)
unfolding unpad
unpad_passed bytes out h = ground arith

-- `unpad` succeeds exactly on data that ends in n bytes of value n, for an n from 1 to 16, and takes
-- just those off.
pub unpad_iff :
    (bytes out : List ℕ)
    → (unpad bytes ≡ ok out) ↔ ((n : ℕ) × (1 ≤ n) × (n ≤ 16) × (bytes ≡ out ++ replicate n n))
unpad_iff bytes out = (
  (λ h.
      let (lo, hi, c, e) = unpad_passed bytes out h in
      (last bytes, lo, hi, rw e (tail_lem bytes (last bytes) (last bytes) lo c))),
  (λ h. rw h.3 (unpad-padded out h.0 h.1 h.2)),
)

-- `pad` makes whole blocks of 16, never more than one block longer, and `unpad` gives the data back.
pub unpad-pad :
    (bytes : List ℕ)
    → (unpad (pad bytes) ≡ ok bytes)
      × (length (pad bytes) % 16 ≡ 0)
      × (length bytes < length (pad bytes))
      × (length (pad bytes) ≤ length bytes + 16)
unfolding pad
unpad-pad bytes =
    let n : ℕ = 16 - length bytes % 16 in
    (
      unpad-padded bytes n (omega arith) (omega arith),
      omega (arith, length-append bytes (replicate n n), length-replicate n n),
      omega (arith, length-append bytes (replicate n n), length-replicate n n),
      omega (arith, length-append bytes (replicate n n), length-replicate n n),
    )

-- Whole blocks that `unpad` accepts are what `pad` makes of the result.
pub pad-unpad :
    (bytes out : List ℕ) → length bytes % 16 ≡ 0 → unpad bytes ≡ ok out → pad out ≡ bytes
unfolding pad
pad-unpad bytes out blocks h =
    let (n, lo, hi, e) = (unpad_iff bytes out).0 h in
    let size : length bytes ≡ length out + n =
      ap (λ (xs : List ℕ). length xs) e
      ∙ omega (arith, length-append out (replicate n n), length-replicate n n) in
    let same : 16 - length out % 16 ≡ n = omega arith in ap (λ k. out ++ replicate k k) same ∙ sym e
