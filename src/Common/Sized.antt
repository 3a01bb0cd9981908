-- ===== src/Common/Sized.antt =====
-- Maps without a key twice, and the sum of the sizes of their values.
use Prim.Native.Nat.{ℕ, ◌+◌}
use mathlib.Core.Path.{◌≡◌, refl, sym, ap, ◌∙◌}
use mathlib.Core.Logic.{◌≢◌, inl, inr}
use mathlib.Core.Option.{Option, none, some}
use mathlib.Core.List.{[], ◌∷◌, ◌++◌}
use native.Mathlib.Omega.{arith}
use reticulum_js.Common.Tests.{Bool-cases}
use reticulum_js.Common.Dict
use reticulum_js.Common.Dict.{Key, Dict, str_eq, str_eq_iff, str_eq_refl}

abbrev pub Distinct : {V : Type 0} → Dict V → Type 0
Distinct [] = Unit {0}
Distinct ((k, v) ∷ d) = (Dict.get k d ≡ none) × Distinct d

module _ {V : Type 0} where
  pub absent-delete :
      (k j : Key) (d : Dict V) → Dict.get j d ≡ none → Dict.get j (Dict.delete k d) ≡ none
  absent-delete k j d h = rw (Dict.get-delete k j d) (ground (arith, h))

  pub delete_nothing : (k : Key) (d : Dict V) → Dict.get k d ≡ none → Dict.delete k d ≡ d
  unfolding Dict.get Dict.delete
  delete_nothing k [] h = refl
  delete_nothing k ((j, v) ∷ d) h = ground (arith, h, delete_nothing k d)

  pub Distinct-delete : (k : Key) (d : Dict V) → Distinct d → Distinct (Dict.delete k d)
  unfolding Dict.delete
  Distinct-delete k [] h = tt
  Distinct-delete k ((j, v) ∷ d) h = elim (Bool-cases (str_eq j k)) [
    | inl e ↦ rw e (Distinct-delete k d h.1)
    | inr e ↦ rw e (absent-delete k j d h.0, Distinct-delete k d h.1)
  ]

  pub Distinct-set : (k : Key) (v : V) (d : Dict V) → Distinct d → Distinct (Dict.set k v d)
  unfolding Dict.get Dict.set
  Distinct-set k v [] h = (refl, tt)
  Distinct-set k v ((j, w) ∷ d) h = elim (Bool-cases (str_eq j k)) [
    | inl is ↦ rw is h
    | inr isnt ↦ rw isnt (
      rw (Dict.get-set k j v d) (ground (arith, h.0, str_eq_iff k j, str_eq_iff j k, isnt)),
      Distinct-set k v d h.1,
    )
  ]

module _ {V : Type 0} (size : V → ℕ) where
  unfoldable pub sum_of : Dict V → ℕ
  sum_of [] = 0
  sum_of ((k, v) ∷ d) = size v + sum_of d

  pub sum-delete :
      (k : Key) (v : V) (d : Dict V)
      → Distinct d
      → Dict.get k d ≡ some v
      → size v + sum_of (Dict.delete k d) ≡ sum_of d
  unfolding Dict.get Dict.delete sum_of
  sum-delete k v [] h e = cc
  sum-delete k v ((j, w) ∷ d) h e = elim (Bool-cases (str_eq j k)) [
    | inl is ↦
        let jk : j ≡ k = (str_eq_iff j k).0 is in
        ground (arith, is, e, delete_nothing k d (rw (sym jk) h.0))
    | inr isnt ↦ ground (arith, isnt, sum-delete k v d h.1 (ground (arith, isnt, e)))
  ]

  -- A key that is not there.
  pub sum-set_new :
      (k : Key) (v : V) (d : Dict V)
      → Dict.get k d ≡ none
      → sum_of (Dict.set k v d) ≡ sum_of d + size v
  unfolding Dict.get Dict.set sum_of
  sum-set_new k v [] e = omega arith
  sum-set_new k v ((j, w) ∷ d) e = elim (Bool-cases (str_eq j k)) [
    | inl is ↦ ground (arith, is, e)
    | inr isnt ↦ ground (arith, isnt, sum-set_new k v d (ground (arith, isnt, e)))
  ]

  -- A value of the same size in the place of another.
  pub sum-set_same :
      (k : Key) (v w : V) (d : Dict V)
      → Dict.get k d ≡ some w
      → size v ≡ size w
      → sum_of (Dict.set k v d) ≡ sum_of d
  unfolding Dict.get Dict.set sum_of
  sum-set_same k v w [] e h = cc
  sum-set_same k v w ((j, x) ∷ d) e h = elim (Bool-cases (str_eq j k)) [
    | inl is ↦ ground (arith, is, e, h)
    | inr isnt ↦ ground (arith, isnt, sum-set_same k v w d (ground (arith, isnt, e)) h)
  ]

-- A key that is not there goes to the end.
module _ {V : Type 0} where
  pub set_fresh :
      (k : Key) (v : V) (d : Dict V) → Dict.get k d ≡ none → Dict.set k v d ≡ d ++ (k, v) ∷ []
  unfolding Dict.get Dict.set
  set_fresh k v [] e = refl
  set_fresh k v ((j, w) ∷ d) e = elim (Bool-cases (str_eq j k)) [
    | inl is ↦ ground (arith, is, e)
    | inr isnt ↦ ground (arith, isnt, set_fresh k v d (ground (arith, isnt, e)))
  ]

  pub get-append_none :
      (k j : Key) (v : V) (d : Dict V)
      → Dict.get k d ≡ none
      → j ≢ k
      → Dict.get k (d ++ (j, v) ∷ []) ≡ none
  unfolding Dict.get
  get-append_none k j v [] e h = ground (arith, str_eq_iff j k)
  get-append_none k j v ((i, w) ∷ d) e h =
      ground (arith, e, get-append_none k j v d (ground (arith, e)) h)

pub get_head : {V : Type 0} → (k : Key) (v : V) (d : Dict V) → Dict.get k ((k, v) ∷ d) ≡ some v
unfolding Dict.get
get_head k v d = rw (str_eq_refl k) refl

clash : {V : Type 0} → (o : Option V) (v : V) → o ≡ some v → o ≡ none → ⊥
clash o v e e' = cc

pub get_later :
    {V : Type 0}
    → (k j : Key) (v w : V) (d : Dict V) → Dict.get k d ≡ none
    → Dict.get j d ≡ some w
    → (k ≢ j) × (Dict.get j ((k, v) ∷ d) ≡ some w)
unfolding Dict.get
get_later k j v w d e e' = (
  λ same. clash (Dict.get j d) w e' (ap (λ (i : Key). Dict.get i d) (sym same) ∙ e),
  ground (arith, e', str_eq_iff k j, apart),
)
  where
    apart : k ≡ j → ⊥
    apart same = clash (Dict.get j d) w e' (ap (λ (i : Key). Dict.get i d) (sym same) ∙ e)
