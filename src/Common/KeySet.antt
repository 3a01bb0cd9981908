-- ===== src/Common/KeySet.antt =====
-- JavaScript's `Set` of strings: a list in insertion order.
use mathlib.Core.Path.{◌≡◌}
use mathlib.Core.Bool.{Bool, false, not, ◌&&◌, ◌||◌}
use mathlib.Core.List.{List, [], ◌∷◌}
use native.Mathlib.Omega.{arith}
use reticulum_js.Common.Tests.{if◌then◌else◌}
use reticulum_js.Common.Dict.{Key, str_eq, str_eq_iff}

unfoldable pub has : Key → List Key → Bool
has k [] = false
has k (j ∷ js) = str_eq j k || has k js

unfoldable pub add : Key → List Key → List Key
add k [] = k ∷ []
add k (j ∷ js) = if str_eq j k then j ∷ js else j ∷ add k js

unfoldable pub remove : Key → List Key → List Key
remove k [] = []
remove k (j ∷ js) = let rest = remove k js in if str_eq j k then rest else j ∷ rest

pub has-add : (k j : Key) (js : List Key) → has k (add j js) ≡ (str_eq j k || has k js)
unfolding add has
has-add k j [] = ground arith
has-add k j (i ∷ js) =
    ground (arith, has-add k j js, str_eq_iff i j, str_eq_iff i k, str_eq_iff j k)

pub has-remove : (k j : Key) (js : List Key) → has k (remove j js) ≡ (not (str_eq j k) && has k js)
unfolding remove has
has-remove k j [] = ground arith
has-remove k j (i ∷ js) =
    ground (arith, has-remove k j js, str_eq_iff i j, str_eq_iff i k, str_eq_iff j k)
