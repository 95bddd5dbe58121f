-- ===== src/Controller/Diff.antt =====
-- `diffEmployer` and `diffEmployees` of pkg/frame/controller/consister.go. The two functions are the
-- same code over `IEmployer` and over `IEmployee`: `diff` takes the two methods that the code calls,
-- `GetEmployerId`/`GetEmployeeId` and `EmployerEqual`/`EmployeeEqual`, as functions.
-- `visit_expected` and `visit_current` are the orders in which `range` visits the two maps.
pub mod Buckets
pub mod Loops
pub mod Bounds
pub mod Partition
pub mod Progress
pub mod Converge
pub mod Clean
mod Tests
use resourceconsist.Base.{ℕ, String, Bool, Option, none, some, List, [], ◌∷◌, if◌then◌else◌, length}
use resourceconsist.Base.{Outcome, ok, ◌>>=◌}
use resourceconsist.Base.GoMap.{GoMap, get, insert}
use resourceconsist.Base.Slice.{Slice, make, write}

-- `ToCUDEmployer`, `ToCUDEmployees`
pub record ToCud {ℓ} (E : Type ℓ) : Type ℓ where
  pub to_create : List E
  pub to_update : List E
  pub to_delete : List E
  pub unchanged : List E

-- The three slices that the loop over the expected map fills.
pub record Buffers {ℓ} (E : Type ℓ) : Type ℓ where
  pub creates : Slice E
  pub updates : Slice E
  pub same : Slice E

module _ {ℓ} {E : Type ℓ} (get_id : E → String) where
  by_id_onto : GoMap E → List E → GoMap E
  by_id_onto m [] = m
  by_id_onto m (x ∷ xs) = by_id_onto (insert (get_id x) x m) xs

  -- The map from ids to elements; of two elements with one id the later stays.
  pub by_id : List E → GoMap E
  unfolding by_id_onto
  by_id xs = by_id_onto [] xs

module _ {ℓ} {E : Type ℓ} (equal : E → E → Outcome Bool) where
  -- The body of the loop over the expected map.
  pub place : Option E → E → Buffers E → Outcome (Buffers E)
  place none expect b = do creates ← write b.creates expect; ok (record b { creates = creates })
  place (some current) expect b = do
    equals ← equal expect current
    if equals
        then (do same ← write b.same expect; ok (record b { same = same }))
        else (do updates ← write b.updates expect; ok (record b { updates = updates }))

  pub compare_all : GoMap E → GoMap E → Buffers E → Outcome (Buffers E)
  compare_all current [] b = ok b
  compare_all current ((id, expect) ∷ rest) b = do
    b' ← place (get id current) expect b
    compare_all current rest b'

module _ {ℓ} {E : Type ℓ} where
  -- The loop over the current map.
  pub collect_deleted : GoMap E → GoMap E → Slice E → Outcome (Slice E)
  collect_deleted expected [] s = ok s
  collect_deleted expected ((id, current) ∷ rest) s = elim (get id expected) [
    | none ↦ (do s' ← write s current; collect_deleted expected rest s')
    | some _ ↦ collect_deleted expected rest s
  ]

abbrev pub new_buffers {ℓ} : {E : Type ℓ} → ℕ → ℕ → Buffers E
new_buffers expects currents = record {
  creates = make expects;
  updates = make currents;
  same = make currents;
}

module _ {ℓ} {E : Type ℓ} (get_id : E → String) (equal : E → E → Outcome Bool)
    (visit_expected visit_current : GoMap E → GoMap E) where
  unfoldable pub diff : List E → List E → Outcome (ToCud E)
  unfolding compare_all place collect_deleted by_id
  diff expects currents = do
    let expected = by_id get_id expects
    let current = by_id get_id currents
    b ←
        compare_all equal current (visit_expected expected)
          (new_buffers (length expects) (length currents))
    deletes ← collect_deleted expected (visit_current current) (make (length currents))
    ok (record {
      to_create = b.creates.items;
      to_update = b.updates.items;
      to_delete = deletes.items;
      unchanged = b.same.items;
    })
