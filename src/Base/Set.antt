-- ===== src/Base/Set.antt =====
-- Python's `set` of texts, as a list.
use Prim.Native.String.{String}
use mathlib.Core.Path.{◌≡◌}
use mathlib.Core.Bool.{true, false}
use mathlib.Core.List.{List, [], ◌∷◌}
use native.Mathlib.Omega.{arith}
use text.Mathlib.Text.{◌==◌}
use text.Mathlib.TextEquality.{eq_iff}
use matterloop.Base.Tests.{if◌then◌else◌}
use matterloop.Base.Lists.{elem}

-- s.add(k)
unfoldable pub add : String → List String → List String
add k s = if elem k s then s else k ∷ s

-- s.discard(k)
unfoldable pub discard : String → List String → List String
discard k [] = []
discard k (x ∷ s) = let rest = discard k s in if k == x then rest else x ∷ rest

pub elem-add :
    (j k : String) (s : List String) → elem j (add k s) ≡ (if k == j then true else elem j s)
unfolding add
elem-add j k s = ground (arith, eq_iff j k, eq_iff k j)

pub elem-discard :
    (j k : String) (s : List String) → elem j (discard k s) ≡ (if k == j then false else elem j s)
unfolding discard
elem-discard j k [] = ground arith
elem-discard j k (x ∷ s) =
    ground (arith, eq_iff j k, eq_iff k j, eq_iff k x, eq_iff j x, elem-discard j k s)
