-- ===== src/Controller/Diff/Loops.antt =====
-- What the two loops of a diff write, whatever order they visit the maps in.
use resourceconsist.Base.{
  ◌≡◌, ◌∙◌, Bool, true, false, not, Option, none, some, List, [], ◌∷◌, ◌++◌, append_assoc,
  append-nil, arith,
}
use resourceconsist.Base.{if◌then◌else◌, is_none, Option-cases, inl, inr}
use resourceconsist.Base.{Outcome, ok, ◌>>=◌, >>=-eq-ok}
use resourceconsist.Base.GoMap.{GoMap, get}
use resourceconsist.Base.Slice.{Slice, write}
use resourceconsist.Controller.Diff.{Buffers, place, compare_all, collect_deleted}
use resourceconsist.Controller.Diff.Buckets.{picked}

module _ {ℓ} {E : Type ℓ} where
  append_if :
      (t : Bool) (x : E) (xs ys zs us : List E)
      → us ≡ xs ++ (if t then x ∷ [] else [])
      → zs ≡ us ++ ys
      → zs ≡ xs ++ (if t then x ∷ ys else ys)
  append_if true x xs ys zs us p q = q ∙ rw p (append_assoc xs (x ∷ []) ys)
  append_if false x xs ys zs us p q = q ∙ rw p (rw append-nil)

  -- The three buckets of the expected map, and the one of the current map.
  abbrev pub is_missing : E → Option E → Bool
  is_missing x o = is_none o

module _ {ℓ} {E : Type ℓ} (equal : E → E → Outcome Bool) where
  abbrev pub is_changed : E → Option E → Bool
  is_changed x none = false
  is_changed x (some c) = elim (equal x c) [ ok b ↦ not b | _ ↦ false ]

  abbrev pub is_same : E → Option E → Bool
  is_same x none = false
  is_same x (some c) = elim (equal x c) [ ok b ↦ b | _ ↦ false ]

  -- What `place` adds to each slice.
  record Placed (x : E) (o : Option E) (b b' : Buffers E) : Type ℓ where
    creates : b'.creates.items ≡ b.creates.items ++ (if is_missing x o then x ∷ [] else [])
    updates : b'.updates.items ≡ b.updates.items ++ (if is_changed x o then x ∷ [] else [])
    same : b'.same.items ≡ b.same.items ++ (if is_same x o then x ∷ [] else [])

  place-Placed :
      (o : Option E) (x : E) (b b' : Buffers E) → place equal o x b ≡ ok b' → Placed x o b b'
  unfolding place
  place-Placed none x b b' h = record {
    creates = ground arith;
    updates = ground (arith, append-nil b.updates.items);
    same = ground (arith, append-nil b.same.items);
  }
  place-Placed (some c) x b b' h = record {
    creates = ground (arith, append-nil b.creates.items);
    updates = ground (arith, append-nil b.updates.items);
    same = ground (arith, append-nil b.same.items);
  }

  -- What the loop over the expected map adds to each slice.
  pub record Sorted (current xs : GoMap E) (b b' : Buffers E) : Type ℓ where
    pub creates : b'.creates.items ≡ b.creates.items ++ picked is_missing current xs
    pub updates : b'.updates.items ≡ b.updates.items ++ picked is_changed current xs
    pub same : b'.same.items ≡ b.same.items ++ picked is_same current xs

  pub compare_all-Sorted :
      (current xs : GoMap E) (b b' : Buffers E)
      → compare_all equal current xs b ≡ ok b'
      → Sorted current xs b b'
  unfolding compare_all picked
  compare_all-Sorted current [] b b' h = record {
    creates = ground (arith, append-nil b.creates.items);
    updates = ground (arith, append-nil b.updates.items);
    same = ground (arith, append-nil b.same.items);
  }
  compare_all-Sorted current ((k, x) ∷ xs) b b' h =
      let (c, placed, rest) = >>=-eq-ok (place equal (get k current) x b) _ h in
      let p = place-Placed (get k current) x b c placed in
      let r = compare_all-Sorted current xs c b' rest in
      record {
        creates = append_if (is_missing x (get k current)) x _ _ _ _ p.creates r.creates;
        updates = append_if (is_changed x (get k current)) x _ _ _ _ p.updates r.updates;
        same = append_if (is_same x (get k current)) x _ _ _ _ p.same r.same;
      }

module _ {ℓ} {E : Type ℓ} where
  write-items : (s : Slice E) (x : E) (t : Slice E) → write s x ≡ ok t → t.items ≡ s.items ++ x ∷ []
  write-items s x t h = ground arith

  pub collect_deleted-picked :
      (expected xs : GoMap E) (s s' : Slice E)
      → collect_deleted expected xs s ≡ ok s'
      → s'.items ≡ s.items ++ picked is_missing expected xs
  unfolding collect_deleted picked
  collect_deleted-picked expected [] s s' h = ground (arith, append-nil s.items)
  collect_deleted-picked expected ((k, x) ∷ xs) s s' h = elim (Option-cases (get k expected)) [
    | inl gone ↦
        let (t, wrote, rest) = >>=-eq-ok (write s x) _ (step_none gone h) in
        rw gone (
          collect_deleted-picked expected xs t s' rest
          ∙ rw (write-items s x t wrote) (append_assoc s.items (x ∷ []) _))
    | inr (c, here) ↦ rw here (collect_deleted-picked expected xs s s' (step_some here h))
  ]
    where
      step_none :
          get k expected ≡ none
          → collect_deleted expected ((k, x) ∷ xs) s ≡ ok s'
          → (write s x >>= collect_deleted expected xs) ≡ ok s'
      step_none gone p = ground (arith, gone)

      step_some :
          {c : E}
          → get k expected ≡ some c
          → collect_deleted expected ((k, x) ∷ xs) s ≡ ok s'
          → collect_deleted expected xs s ≡ ok s'
      step_some here p = ground (arith, here)
