-- ===== src/Controller/Diff/Buckets.antt =====
-- What the maps and the four lists of a diff hold, told by looking an id up.
use resourceconsist.Base.{
  String, ◌≡◌, refl, ◌∙◌, Bool, Option, none, some, or_else, List, [], ◌∷◌, arith,
}
use resourceconsist.Base.{==_refl, ◌==◌, string_eq, if◌then◌else◌}
use resourceconsist.Base.{length, ◌≤◌, ◌+◌}
use resourceconsist.Base.GoMap.{GoMap, get, insert, get-insert, NodupKeys, insert-NodupKeys}
use resourceconsist.Base.GoMap.{length-insert}
use resourceconsist.Controller.Diff.{by_id, by_id_onto}

module _ {ℓ} {E : Type ℓ} (get_id : E → String) where
  -- The first element with an id.
  abbrev pub find : String → List E → Option E
  find k [] = none
  find k (x ∷ xs) = if get_id x == k then some x else find k xs

  pub eq_nil_of_find : (xs : List E) → ((k : String) → find k xs ≡ none) → xs ≡ []
  eq_nil_of_find [] h = refl
  eq_nil_of_find (x ∷ xs) h = ground (arith, h (get_id x), ==_refl (get_id x))

  -- The last element with an id.
  abbrev pub find_last : String → List E → Option E
  find_last k [] = none
  find_last k (x ∷ xs) = or_else (find_last k xs) (if get_id x == k then some x else none)

  abbrev pub NodupIds : List E → Type ℓ
  NodupIds [] = Unit
  NodupIds (x ∷ xs) = (find (get_id x) xs ≡ none) × NodupIds xs

  -- Each key is the id of its element.
  abbrev pub IsKeyed : GoMap E → Type ℓ
  IsKeyed m = (k : String) (x : E) → get k m ≡ some x → get_id x ≡ k

  get-by_id_onto :
      (m : GoMap E) (k : String) (xs : List E)
      → get k (by_id_onto get_id m xs) ≡ or_else (find_last k xs) (get k m)
  unfolding by_id_onto or_else
  get-by_id_onto m k [] = refl
  get-by_id_onto m k (x ∷ xs) =
      get-by_id_onto (insert (get_id x) x m) k xs ∙ ground (arith, get-insert k (get_id x) x m)

  pub get-by_id : (k : String) (xs : List E) → get k (by_id get_id xs) ≡ find_last k xs
  unfolding by_id or_else get
  get-by_id k xs = ground (arith, get-by_id_onto [] k xs)

  by_id_onto-NodupKeys :
      (m : GoMap E) (xs : List E) → NodupKeys m → NodupKeys (by_id_onto get_id m xs)
  unfolding by_id_onto
  by_id_onto-NodupKeys m [] u = u
  by_id_onto-NodupKeys m (x ∷ xs) u =
      by_id_onto-NodupKeys (insert (get_id x) x m) xs (insert-NodupKeys (get_id x) x m u)

  pub by_id-NodupKeys : (xs : List E) → NodupKeys (by_id get_id xs)
  unfolding by_id
  by_id-NodupKeys xs = by_id_onto-NodupKeys [] xs tt

  length-by_id_onto :
      (m : GoMap E) (xs : List E) → length (by_id_onto get_id m xs) ≤ length m + length xs
  unfolding by_id_onto
  length-by_id_onto m [] = omega arith
  length-by_id_onto m (x ∷ xs) =
      omega (arith, length-by_id_onto (insert (get_id x) x m) xs, length-insert (get_id x) x m)

  pub length-by_id : (xs : List E) → length (by_id get_id xs) ≤ length xs
  unfolding by_id
  length-by_id xs = omega (arith, length-by_id_onto [] xs)

  get_id-find_last : (k : String) (xs : List E) (x : E) → find_last k xs ≡ some x → get_id x ≡ k
  unfolding or_else
  get_id-find_last k [] x h = ground arith
  get_id-find_last k (y ∷ xs) x h = ground (arith, get_id-find_last k xs x)

  pub by_id-IsKeyed : (xs : List E) → IsKeyed (by_id get_id xs)
  by_id-IsKeyed xs k x h = ground (arith, get-by_id k xs, get_id-find_last k xs x)

  IsKeyed-tail :
      (j : String) (y : E) (m : GoMap E)
      → get j m ≡ none
      → IsKeyed ((j, y) ∷ m)
      → (get_id y ≡ j) × IsKeyed m
  unfolding get
  IsKeyed-tail j y m fresh keyed = (keyed j y (ground arith), λ k x h. keyed k x (ground arith))

module _ {ℓ} {E : Type ℓ} (pick : E → Option E → Bool) (other : GoMap E) where
  -- The elements of a map that belong to one bucket, told by the element and by what the other map
  -- has under its key.
  unfoldable pub picked : GoMap E → List E
  picked [] = []
  picked ((k, x) ∷ m) = let rest = picked m in if pick x (get k other) then x ∷ rest else rest

  abbrev pub kept : String → Option E → Option E
  kept k none = none
  kept k (some x) = if pick x (get k other) then some x else none

module _ {ℓ} {E : Type ℓ} (get_id : E → String) (pick : E → Option E → Bool) (other : GoMap E) where
  pub find-picked :
      (k : String) (m : GoMap E)
      → NodupKeys m
      → IsKeyed get_id m
      → find get_id k (picked pick other m) ≡ kept pick other k (get k m)
  unfolding picked get
  find-picked k [] u keyed = refl
  find-picked k ((j, x) ∷ m) (fresh, u) keyed =
      let (named, keyed') = IsKeyed-tail get_id j x m fresh keyed in
      ground (arith, named, find-picked k m u keyed')

  pub picked-NodupIds :
      (m : GoMap E) → NodupKeys m → IsKeyed get_id m → NodupIds get_id (picked pick other m)
  unfolding picked
  picked-NodupIds [] u keyed = tt
  picked-NodupIds ((j, x) ∷ m) (fresh, u) keyed =
      let (named, keyed') = IsKeyed-tail get_id j x m fresh keyed in
      ground (arith, named, fresh, find-picked (get_id x) m u keyed', picked-NodupIds m u keyed')
