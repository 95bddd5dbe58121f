-- ===== src/Base/Sorting.antt =====
-- `sort.Strings`, and `reflect.DeepEqual` of two slices of strings.
pub mod Members
use Prim.Native.Nat.{Ordering}
use Prim.Native.String.{String, compare}
use mathlib.Core.Bool.{Bool, true, false, ◌&&◌}
use mathlib.Core.List.{List, [], ◌∷◌}
use resourceconsist.Base.Equality.{◌==◌, string_eq}

unfoldable pub insert_sorted : String → List String → List String
insert_sorted x [] = x ∷ []
insert_sorted x (y ∷ ys) =
    let rest = insert_sorted x ys in elim (compare x y) [ Ordering.gt ↦ y ∷ rest | _ ↦ x ∷ y ∷ ys ]

unfoldable pub sort_strings : List String → List String
unfolding insert_sorted
sort_strings [] = []
sort_strings (x ∷ xs) = insert_sorted x (sort_strings xs)

unfoldable pub deep_equal : List String → List String → Bool
deep_equal [] [] = true
deep_equal [] (y ∷ ys) = false
deep_equal (x ∷ xs) [] = false
deep_equal (x ∷ xs) (y ∷ ys) = x == y && deep_equal xs ys
