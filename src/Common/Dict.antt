-- ===== src/Common/Dict.antt =====
-- JavaScript's `Map` with string keys: an association list in insertion order. A string is the list
-- of its character codes.
use Prim.Native.Nat.{ℕ}
use mathlib.Core.Path.{◌≡◌, refl}
use mathlib.Core.Logic.{◌↔◌, ◌≢◌}
use mathlib.Core.Bool.{Bool, true, false, ◌&&◌}
use mathlib.Core.Option.{Option, none, some}
use mathlib.Core.List.{List, [], ◌∷◌}
use native.Mathlib.Omega.{arith}
use reticulum_js.Common.Tests.{◌==◌, if◌then◌else◌}

-- `===` on strings.
abbrev pub Key : Type 0
Key = List ℕ

unfoldable pub str_eq : Key → Key → Bool
str_eq [] [] = true
str_eq [] (b ∷ bs) = false
str_eq (a ∷ as') [] = false
str_eq (a ∷ as') (b ∷ bs) = a == b && str_eq as' bs

pub str_eq_refl : (a : Key) → str_eq a a ≡ true
unfolding str_eq
str_eq_refl [] = refl
str_eq_refl (a ∷ as') = ground (arith, str_eq_refl as')

pub str_eq→eq : (a b : Key) → str_eq a b ≡ true → a ≡ b
unfolding str_eq
str_eq→eq [] [] h = refl
str_eq→eq [] (b ∷ bs) h = cc
str_eq→eq (a ∷ as') [] h = cc
str_eq→eq (a ∷ as') (b ∷ bs) h = ground (arith, str_eq→eq as' bs)

pub str_eq_iff : (a b : Key) → (str_eq a b ≡ true) ↔ (a ≡ b)
str_eq_iff a b = (str_eq→eq a b, λ e. rw e (str_eq_refl b))

abbrev pub Dict {ℓ} : Type ℓ → Type ℓ
Dict V = List (Key × V)

module _ {ℓ} {V : Type ℓ} where
  unfoldable pub get : Key → Dict V → Option V
  get k [] = none
  get k ((j, v) ∷ d) = if str_eq j k then some v else get k d

  -- A key that is there keeps its place.
  unfoldable pub set : Key → V → Dict V → Dict V
  set k v [] = (k, v) ∷ []
  set k v ((j, w) ∷ d) = if str_eq j k then (j, v) ∷ d else (j, w) ∷ set k v d

  unfoldable pub delete : Key → Dict V → Dict V
  delete k [] = []
  delete k ((j, w) ∷ d) = let rest = delete k d in if str_eq j k then rest else (j, w) ∷ rest

  pub get-set :
      (k j : Key) (v : V) (d : Dict V)
      → get j (set k v d) ≡ (if str_eq k j then some v else get j d)
  unfolding get set
  get-set k j v [] = refl
  get-set k j v ((i, w) ∷ d) =
      ground (arith, str_eq_iff k j, str_eq_iff i k, str_eq_iff i j, get-set k j v d)

  pub get-delete :
      (k j : Key) (d : Dict V) → get j (delete k d) ≡ (if str_eq k j then none else get j d)
  unfolding get delete
  get-delete k j [] = ground arith
  get-delete k j ((i, w) ∷ d) =
      ground (arith, str_eq_iff k j, str_eq_iff i k, str_eq_iff i j, get-delete k j d)

  pub get-set_self : (k : Key) (v : V) (d : Dict V) → get k (set k v d) ≡ some v
  get-set_self k v d = rw (get-set, str_eq_refl)

  pub get-delete_self : (k : Key) (d : Dict V) → get k (delete k d) ≡ none
  get-delete_self k d = rw (get-delete, str_eq_refl)

  pub get-set_other : (k j : Key) (v : V) (d : Dict V) → k ≢ j → get j (set k v d) ≡ get j d
  get-set_other k j v d h = rw (get-set) (ground (arith, str_eq_iff k j))

  pub get-delete_other : (k j : Key) (d : Dict V) → k ≢ j → get j (delete k d) ≡ get j d
  get-delete_other k j d h = rw (get-delete) (ground (arith, str_eq_iff k j))
