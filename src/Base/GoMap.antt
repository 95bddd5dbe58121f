-- ===== src/Base/GoMap.antt =====
-- `map[string]V` as an association list that holds a key at most once. The order in which `range`
-- visits the entries is not specified by Go: it is a function with the laws of `IsRange`.
use Prim.Native.Nat.{◌+◌, ◌≤◌}
use Prim.Native.String.{String}
use mathlib.Core.Path.{◌≡◌, refl}
use mathlib.Core.Logic.{◌≢◌}
use mathlib.Core.Option.{Option, none, some}
use mathlib.Core.List.{List, [], ◌∷◌}
use native.Mathlib.Omega.{arith}
use resourceconsist.Base.Equality.{◌==◌, string_eq, if◌then◌else◌}
use resourceconsist.Base.Lists.{length}

abbrev pub GoMap {ℓ} : Type ℓ → Type ℓ
GoMap V = List (String × V)

module _ {ℓ} {V : Type ℓ} where
  -- `v, exist := m[k]`
  unfoldable pub get : String → GoMap V → Option V
  get k [] = none
  get k ((j, v) ∷ m) = if j == k then some v else get k m

  -- `m[k] = v`
  unfoldable pub insert : String → V → GoMap V → GoMap V
  insert k v [] = (k, v) ∷ []
  insert k v ((j, w) ∷ m) = if j == k then (k, v) ∷ m else (j, w) ∷ insert k v m

  -- `delete(m, k)`
  unfoldable pub erase : String → GoMap V → GoMap V
  erase k [] = []
  erase k ((j, w) ∷ m) = let rest = erase k m in if j == k then rest else (j, w) ∷ rest

  abbrev pub NodupKeys : GoMap V → Type ℓ
  NodupKeys [] = Unit
  NodupKeys ((k, _) ∷ m) = (get k m ≡ none) × NodupKeys m

  pub get-insert :
      (j k : String) (v : V) (m : GoMap V)
      → get j (insert k v m) ≡ (if k == j then some v else get j m)
  unfolding get insert
  get-insert j k v [] = refl
  get-insert j k v (_ ∷ m) = ground (arith, get-insert j k v m)

  pub get-erase :
      (j k : String) (m : GoMap V) → get j (erase k m) ≡ (if k == j then none else get j m)
  unfolding get erase
  get-erase j k [] = ground arith
  get-erase j k (_ ∷ m) = ground (arith, get-erase j k m)

  pub insert-NodupKeys : (k : String) (v : V) (m : GoMap V) → NodupKeys m → NodupKeys (insert k v m)
  unfolding insert get
  insert-NodupKeys k v [] _ = (refl, tt)
  insert-NodupKeys k v ((j, _) ∷ m) (fresh, u) =
      ground (arith, insert-NodupKeys k v m u, get-insert j k v m)

  pub length-insert : (k : String) (v : V) (m : GoMap V) → length (insert k v m) ≤ length m + 1
  unfolding insert
  length-insert k v [] = omega arith
  length-insert k v (_ ∷ m) = ground (arith, length-insert k v m)

  length-erase_le : (k : String) (m : GoMap V) → length (erase k m) ≤ length m
  unfolding erase
  length-erase_le k [] = omega arith
  length-erase_le k (_ ∷ m) = ground (arith, length-erase_le k m)

  length-erase : (k : String) (m : GoMap V) → get k m ≢ none → length (erase k m) + 1 ≤ length m
  unfolding get erase
  length-erase k [] h = ground arith
  length-erase k (_ ∷ m) h = ground (arith, length-erase k m, length-erase_le k m)

module _ {ℓ κ} {V : Type ℓ} {W : Type κ} where
  -- A map all of whose keys another map has is no longer than that map.
  pub length-le_of_keys :
      (a : GoMap V) (m : GoMap W)
      → NodupKeys a
      → ((k : String) → get k a ≢ none → get k m ≢ none)
      → length a ≤ length m
  unfolding get
  length-le_of_keys [] m u h = omega arith
  length-le_of_keys ((k, v) ∷ a) m (fresh, u) h = omega (
    arith,
    length-erase k m (h k (ground arith)),
    length-le_of_keys a (erase k m) u (λ j p. ground (arith, get-erase j k m, h j)),
  )

-- `for k, v := range m` visits each entry of `m` once.
pub record IsRange {ℓ} {V : Type ℓ} (visit : GoMap V → GoMap V) : Type ℓ where
  pub visit-NodupKeys : (m : GoMap V) → NodupKeys m → NodupKeys (visit m)
  pub get-visit : (k : String) (m : GoMap V) → NodupKeys m → get k (visit m) ≡ get k m
