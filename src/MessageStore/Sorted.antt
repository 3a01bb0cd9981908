-- ===== src/MessageStore/Sorted.antt =====
-- The sort by an ascending number that packages/lxmf/src/message_store.js uses.
use reticulum_js.Common.{
  ℕ, ◌≤◌, ◌≡◌, ◌⊎◌, ◌↔◌, refl, ap, arith, List, [], ◌∷◌, leb, Bool-cases, inl, inr, All, map,
}
use reticulum_js.MessageStore.{PropagationEntry}
use reticulum_js.MessageStore.Sync.{insert_by, sort_by}

abbrev pub Among : {A : Type 0} → A → List A → Type 0
Among x [] = ⊥
Among x (y ∷ ys) = (x ≡ y) ⊎ Among x ys

-- In ascending order of `f`.
abbrev pub IsAscending : (PropagationEntry → ℕ) → List PropagationEntry → Type 0
IsAscending f [] = Unit {0}
IsAscending f (x ∷ xs) = All (λ y. f x ≤ f y) xs × IsAscending f xs

module _ (f : PropagationEntry → ℕ) where
  insert_by-All :
      (P : PropagationEntry → Type 0) (x : PropagationEntry) (xs : List PropagationEntry)
      → P x
      → All P xs
      → All P (insert_by f x xs)
  unfolding insert_by
  insert_by-All P x [] h hs = (h, tt)
  insert_by-All P x (y ∷ ys) h hs = elim (Bool-cases (leb (f x) (f y))) [
    | inl e ↦ rw e (h, hs)
    | inr e ↦ rw e (hs.0, insert_by-All P x ys h hs.1)
  ]

  above-All :
      (m n : ℕ) (xs : List PropagationEntry) → m ≤ n → All (λ y. n ≤ f y) xs → All (λ y. m ≤ f y) xs
  above-All m n [] le h = tt
  above-All m n (x ∷ xs) le h = (omega (arith, h.0), above-All m n xs le h.1)

  insert_by-IsAscending :
      (x : PropagationEntry) (xs : List PropagationEntry)
      → IsAscending f xs
      → IsAscending f (insert_by f x xs)
  unfolding insert_by
  insert_by-IsAscending x [] h = (tt, tt)
  insert_by-IsAscending x (y ∷ ys) h = elim (Bool-cases (leb (f x) (f y))) [
    | inl e ↦ let le : f x ≤ f y = ground arith in rw e ((le, above-All (f x) (f y) ys le h.0), h)
    | inr e ↦
        rw e
          (insert_by-All (λ z. f y ≤ f z) x ys (ground arith) h.0, insert_by-IsAscending x ys h.1)
  ]

  pub sort_by-IsAscending : (xs : List PropagationEntry) → IsAscending f (sort_by f xs)
  unfolding sort_by
  sort_by-IsAscending [] = tt
  sort_by-IsAscending (x ∷ xs) = insert_by-IsAscending x (sort_by f xs) (sort_by-IsAscending xs)

  insert_by-Among :
      (e x : PropagationEntry) (xs : List PropagationEntry)
      → Among e (insert_by f x xs) ↔ Among e (x ∷ xs)
  unfolding insert_by
  insert_by-Among e x [] = (λ h. h, λ h. h)
  insert_by-Among e x (y ∷ ys) = elim (Bool-cases (leb (f x) (f y))) [
    | inl is ↦ rw is (λ h. h, λ h. h)
    | inr is ↦ rw is (
      λ h. elim h [
        | inl same ↦ inr (inl same)
        | inr later ↦ elim ((insert_by-Among e x ys).0 later) [
          | inl same ↦ inl same
          | inr more ↦ inr (inr more)
        ]
      ],
      λ h. elim h [
        | inl same ↦ inr ((insert_by-Among e x ys).1 (inl same))
        | inr later ↦ elim later [
          | inl same ↦ inl same
          | inr more ↦ inr ((insert_by-Among e x ys).1 (inr more))
        ]
      ],
    )
  ]

  pub sort_by-Among :
      (e : PropagationEntry) (xs : List PropagationEntry) → Among e (sort_by f xs) ↔ Among e xs
  unfolding sort_by
  sort_by-Among e [] = (λ h. h, λ h. h)
  sort_by-Among e (x ∷ xs) = (
    λ h. elim ((insert_by-Among e x (sort_by f xs)).0 h) [
      | inl same ↦ inl same
      | inr later ↦ inr ((sort_by-Among e xs).0 later)
    ],
    λ h.
        (insert_by-Among e x (sort_by f xs)).1
          (elim h [ inl same ↦ inl same | inr later ↦ inr ((sort_by-Among e xs).1 later) ]),
  )

pub Among-map :
    {A B : Type 0}
    → (f : A → B) (y : B) (xs : List A) → Among y (map f xs)
    → (x : A) × Among x xs × (y ≡ f x)
Among-map f y [] h = absurd h
Among-map f y (x ∷ xs) (inl same) = (x, inl refl, same)
Among-map f y (x ∷ xs) (inr later) = let (z, a, same) = Among-map f y xs later in (z, inr a, same)

pub map-Among :
    {A B : Type 0} → (f : A → B) (x : A) (xs : List A) → Among x xs → Among (f x) (map f xs)
map-Among f x [] h = absurd h
map-Among f x (y ∷ ys) (inl same) = inl (ap f same)
map-Among f x (y ∷ ys) (inr later) = inr (map-Among f x ys later)
