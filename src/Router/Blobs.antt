-- ===== src/Router/Blobs.antt =====
-- The recorded blobs and the timebase of packages/core/src/transport/router.js.
use reticulum_js.Common.{
  ℕ, ◌≤◌, ◌≡◌, refl, ap, arith, true, false, List, [], ◌∷◌, ◌++◌, ltb, length, All, IsByte, max,
  Bool-cases, inl, inr,
}
use reticulum_js.Encoding.{bytes_equal}
use reticulum_js.Encoding.Compare.{bytes_equal_iff}
use reticulum_js.Router.{
  max_random_blobs, emission_time, timebase_loop, timebase_from_blobs, has_blob, trim_blobs,
}

-- The timebase is the greatest emission time.
timebase_loop-max :
    (t : ℕ) (blobs : List (List ℕ)) → timebase_loop t blobs ≡ max t (timebase_from_blobs blobs)
unfolding timebase_loop timebase_from_blobs
timebase_loop-max t [] = omega arith
timebase_loop-max t (b ∷ blobs) = ground (
  arith,
  timebase_loop-max (emission_time b) blobs,
  timebase_loop-max t blobs,
  timebase_loop-max 0 blobs,
)

pub timebase-cons :
    (b : List ℕ) (blobs : List (List ℕ))
    → timebase_from_blobs (b ∷ blobs) ≡ max (emission_time b) (timebase_from_blobs blobs)
unfolding timebase_loop timebase_from_blobs
timebase-cons b blobs =
    ground (arith, timebase_loop-max (emission_time b) blobs, timebase_loop-max 0 blobs)

pub timebase-append :
    (xs ys : List (List ℕ))
    → timebase_from_blobs (xs ++ ys) ≡ max (timebase_from_blobs xs) (timebase_from_blobs ys)
timebase-append [] ys = unfold timebase_from_blobs timebase_loop in omega arith
timebase-append (x ∷ xs) ys =
    omega (arith, timebase-cons x xs, timebase-cons x (xs ++ ys), timebase-append xs ys)

pub length-trim_blobs : (blobs : List (List ℕ)) → length (trim_blobs blobs) ≤ max_random_blobs
unfolding trim_blobs
length-trim_blobs [] = omega arith
length-trim_blobs (b ∷ blobs) = ground (arith, length-trim_blobs blobs)

-- The newest blob outlives the trimming.
pub trim_blobs-append :
    (blobs : List (List ℕ)) (b : List ℕ)
    → (rest : List (List ℕ)) × (trim_blobs (blobs ++ b ∷ []) ≡ rest ++ b ∷ [])
trim_blobs-append [] b = ([], unfold trim_blobs in refl)
trim_blobs-append (x ∷ xs) b =
    let (rest, e) = trim_blobs-append xs b in
    elim (Bool-cases (ltb max_random_blobs (length (x ∷ (xs ++ b ∷ []))))) [
      | inl h ↦ (rest, cut rest h e)
      | inr h ↦ (x ∷ xs, whole h)
    ]
  where
    cut :
        (rest : List (List ℕ))
        → ltb max_random_blobs (length (x ∷ (xs ++ b ∷ []))) ≡ true
        → trim_blobs (xs ++ b ∷ []) ≡ rest ++ b ∷ []
        → trim_blobs (x ∷ (xs ++ b ∷ [])) ≡ rest ++ b ∷ []
    cut rest h e = unfold trim_blobs in rw h e

    whole :
        ltb max_random_blobs (length (x ∷ (xs ++ b ∷ []))) ≡ false
        → trim_blobs (x ∷ (xs ++ b ∷ [])) ≡ (x ∷ xs) ++ b ∷ []
    whole h = unfold trim_blobs in rw h

-- A recorded blob was emitted no later than the timebase.
pub has_blob-emission :
    (blob : List ℕ) (blobs : List (List ℕ))
    → All IsByte blob
    → All (All IsByte) blobs
    → has_blob blob blobs ≡ true
    → emission_time blob ≤ timebase_from_blobs blobs
unfolding has_blob
has_blob-emission blob [] hb hbs h = cc
has_blob-emission blob (b ∷ blobs) hb hbs h = elim (Bool-cases (bytes_equal b blob)) [
  | inl e ↦
      let same : emission_time b ≡ emission_time blob =
        ap emission_time ((bytes_equal_iff b blob hbs.0 hb).0 e) in
      omega (arith, same, timebase-cons b blobs)
  | inr e ↦ omega (arith, timebase-cons b blobs, has_blob-emission blob blobs hb hbs.1 (rw e at h))
]
