-- ===== src/Prelude/Sets.antt =====
-- The standard library's ordered sets, as their elements in ascending order.
use mathlib.Core.Bool.{Bool, true, false}
use mathlib.Core.List.{List, [], ◌∷◌}
use sider.Prelude.Tests.{if◌then◌else◌}

-- The insertion of a `BTreeSet`, and whether the element was new.
module _ {A : Type 0} (lt : A → A → Bool) where
  unfoldable pub set_insert : A → List A → List A × Bool
  set_insert x [] = (x ∷ [], true)
  set_insert x (y ∷ ys) =
      let rest = set_insert x ys in
      if lt y x
      then (y ∷ rest.0, rest.1)
      else if lt x y
      then (x ∷ (y ∷ ys), true)
      else (y ∷ ys, false)
