-- ===== src/Base/Sorting/Members.antt =====
-- Sorting keeps the members of a list.
use Prim.Native.String.{String}
use mathlib.Core.Path.{◌≡◌, refl, ap, ◌∙◌, sym}
use mathlib.Core.Bool.{true, ◌||◌}
use mathlib.Core.List.{List, [], ◌∷◌}
use native.Mathlib.Omega.{arith}
use resourceconsist.Base.Equality.{◌==◌, string_eq, contains}
use resourceconsist.Base.Sorting.{insert_sorted, sort_strings, deep_equal}

contains-insert_sorted :
    (x : String) (ys : List String) (n : String)
    → contains (insert_sorted x ys) n ≡ (x == n || contains ys n)
unfolding insert_sorted
contains-insert_sorted x [] n = refl
contains-insert_sorted x (y ∷ ys) n = ground (arith, contains-insert_sorted x ys n)

pub contains-sort_strings :
    (xs : List String) (n : String) → contains (sort_strings xs) n ≡ contains xs n
unfolding sort_strings
contains-sort_strings [] n = refl
contains-sort_strings (x ∷ xs) n =
    ground (arith, contains-insert_sorted x (sort_strings xs) n, contains-sort_strings xs n)

deep_equal-eq : (xs ys : List String) → deep_equal xs ys ≡ true → xs ≡ ys
unfolding deep_equal
deep_equal-eq [] [] h = refl
deep_equal-eq [] (y ∷ ys) h = cc
deep_equal-eq (x ∷ xs) [] h = cc
deep_equal-eq (x ∷ xs) (y ∷ ys) h = ground (arith, deep_equal-eq xs ys, h)

-- Two lists that are equal once they are sorted have the same members.
pub contains-deep_equal :
    (xs ys : List String) (n : String)
    → deep_equal (sort_strings xs) (sort_strings ys) ≡ true
    → contains xs n ≡ contains ys n
contains-deep_equal xs ys n h =
    sym (contains-sort_strings xs n)
    ∙ ap (λ zs. contains zs n) (deep_equal-eq (sort_strings xs) (sort_strings ys) h)
    ∙ contains-sort_strings ys n
