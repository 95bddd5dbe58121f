-- ===== src/Controller/Diff/Bounds.antt =====
-- The loops of a diff stay inside the slices that they fill, so that a diff ends with a result
-- unless the comparison of two elements does not.
use resourceconsist.Base.{
  ◌+◌, ◌≤◌, String, ◌≡◌, refl, ◌≢◌, Bool, none, some, [], ◌∷◌, arith, string_eq,
}
use resourceconsist.Base.{length, length-append, ◌++◌, Outcome, ok, err, panic, ◌>>=◌}
use resourceconsist.Base.{IsOk}
use resourceconsist.Base.GoMap.{GoMap, get, NodupKeys, length-le_of_keys}
use resourceconsist.Base.Slice.{Slice}
use resourceconsist.Controller.Diff.{Buffers, place, compare_all, collect_deleted}

module _ {ℓ} {E : Type ℓ} (current : GoMap E) where
  -- The entries whose key the current map has too.
  pub shared : GoMap E → GoMap E
  shared [] = []
  shared ((k, x) ∷ xs) = elim (get k current) [ none ↦ shared xs | some _ ↦ (k, x) ∷ shared xs ]

  get-shared :
      (k : String) (xs : GoMap E)
      → get k (shared xs) ≢ none
      → (get k xs ≢ none) × (get k current ≢ none)
  unfolding shared get
  get-shared k [] h = absurd (h refl)
  get-shared k ((j, x) ∷ xs) h = ground (arith, get-shared k xs)

  shared-NodupKeys : (xs : GoMap E) → NodupKeys xs → NodupKeys (shared xs)
  unfolding shared
  shared-NodupKeys [] u = tt
  shared-NodupKeys ((j, x) ∷ xs) (fresh, u) = ground (arith, get-shared j xs, shared-NodupKeys xs u)

  pub length-shared_le : (xs : GoMap E) → NodupKeys xs → length (shared xs) ≤ length current
  length-shared_le xs u =
      length-le_of_keys (shared xs) current (shared-NodupKeys xs u) (λ k h. (get-shared k xs h).1)

  -- Room for all that a loop over `xs` may still write.
  pub record HasRoom (xs : GoMap E) (b : Buffers E) : Type ℓ where
    pub creates : length b.creates.items + length xs ≤ b.creates.room
    pub updates : length b.updates.items + length (shared xs) ≤ b.updates.room
    pub same : length b.same.items + length (shared xs) ≤ b.same.room

module _ {ℓ} {E : Type ℓ} (equal : E → E → Outcome Bool) where
  -- The comparison of the entries that the two maps have under one key ended in `o`.
  pub record Compared (current xs : GoMap E) (o : Outcome Bool) : Type ℓ where
    pub key : String
    pub expect : E
    pub now : E
    pub get-expect : get key xs ≡ some expect
    pub get-now : get key current ≡ some now
    pub outcome : equal expect now ≡ o

  abbrev pub Ends {κ} : {B : Type κ} → GoMap E → GoMap E → Outcome B → Type ℓ
  Ends current xs (ok b) = Unit
  Ends current xs (err e) = Compared current xs (err e)
  Ends current xs panic = Compared current xs panic

  Compared-cons :
      (current xs : GoMap E) (j : String) (x : E) (o : Outcome Bool)
      → get j xs ≡ none
      → Compared current xs o
      → Compared current ((j, x) ∷ xs) o
  unfolding get
  Compared-cons current xs j x o fresh c = record {
    key = c.key;
    expect = c.expect;
    now = c.now;
    get-expect = ground (arith, c.get-expect);
    get-now = c.get-now;
    outcome = c.outcome;
  }

  Ends-cons {κ} :
      {B : Type κ} (current xs : GoMap E) (j : String) (x : E) (o : Outcome B)
      → get j xs ≡ none
      → Ends current xs o
      → Ends current ((j, x) ∷ xs) o
  Ends-cons current xs j x (ok b) fresh c = tt
  Ends-cons current xs j x (err e) fresh c = Compared-cons current xs j x (err e) fresh c
  Ends-cons current xs j x panic fresh c = Compared-cons current xs j x panic fresh c

  -- After one round there is room for the rest, or the comparison did not end in a result.
  abbrev PlaceEnds : GoMap E → GoMap E → String → E → Outcome (Buffers E) → Type ℓ
  PlaceEnds current xs k x (ok b) = HasRoom current xs b
  PlaceEnds current xs k x (err e) = (c : E) × (get k current ≡ some c) × (equal x c ≡ err e)
  PlaceEnds current xs k x panic = (c : E) × (get k current ≡ some c) × (equal x c ≡ panic)

  place-PlaceEnds :
      (current xs : GoMap E) (k : String) (x : E) (b : Buffers E)
      → HasRoom current ((k, x) ∷ xs) b
      → PlaceEnds current xs k x (place equal (get k current) x b)
  unfolding place shared
  place-PlaceEnds current xs k x b room = ground (
    arith,
    length-append b.creates.items (x ∷ []),
    length-append b.updates.items (x ∷ []),
    length-append b.same.items (x ∷ []),
  )

  pub compare_all-Ends :
      (current xs : GoMap E) (b : Buffers E)
      → NodupKeys xs
      → HasRoom current xs b
      → Ends current xs (compare_all equal current xs b)
  unfolding compare_all get
  compare_all-Ends current [] b u room = tt
  compare_all-Ends current ((k, x) ∷ xs) b (fresh, u) room =
      go (place equal (get k current) x b) (place-PlaceEnds current xs k x b room)
        (λ c. compare_all-Ends current xs c u)
    where
      go :
          (m : Outcome (Buffers E))
          → PlaceEnds current xs k x m
          → ((c : Buffers E)
              → HasRoom current xs c
              → Ends current xs (compare_all equal current xs c))
          → Ends current ((k, x) ∷ xs) (m >>= compare_all equal current xs)
      go (ok c) p ih = Ends-cons current xs k x _ fresh (ih c p)
      go (err e) (c, now, failed) ih = record {
        key = k;
        expect = x;
        now = c;
        get-expect = ground arith;
        get-now = now;
        outcome = failed;
      }
      go panic (c, now, broke) ih = record {
        key = k;
        expect = x;
        now = c;
        get-expect = ground arith;
        get-now = now;
        outcome = broke;
      }

module _ {ℓ} {E : Type ℓ} where
  -- The loop over the current map ends with a result.
  pub collect_deleted-IsOk :
      (expected xs : GoMap E) (s : Slice E)
      → length s.items + length xs ≤ s.room
      → IsOk (collect_deleted expected xs s)
  unfolding collect_deleted
  collect_deleted-IsOk expected [] s room = tt
  collect_deleted-IsOk expected ((k, x) ∷ xs) s room = ground (
    arith,
    length-append s.items (x ∷ []),
    collect_deleted-IsOk expected xs s,
    collect_deleted-IsOk expected xs (record s { items = s.items ++ x ∷ [] }),
  )
