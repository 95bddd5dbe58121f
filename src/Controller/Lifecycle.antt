-- ===== src/Controller/Lifecycle.antt =====
-- `getToAddDeleteLifecycleFlzEmployees` of pkg/frame/controller/consister.go.
pub mod Names
mod Tests
use resourceconsist.Base.{
  ℕ, ◌+◌, String, Bool, true, false, not, ◌&&◌, ◌||◌, Option, none, some, List, [], ◌∷◌, ◌++◌,
  if◌then◌else◌, length, Outcome, ok, ◌>>=◌,
}
use resourceconsist.Base.Slice.{Slice, make, write}
use resourceconsist.Controller.Types.{
  PodEmployeeStatuses, IEmployee, AdapterOptions, LifecycleOptions,
}

-- The options say that the employees are no pods that follow PodOpsLifecycle.
abbrev pub opts_out : AdapterOptions → Bool
opts_out o =
    elim o.lifecycle [ none ↦ false | some l ↦ not l.follow_pod_ops_life_cycle ]
    || elim o.new_employee_is_pod [ none ↦ false | some is_pod ↦ not is_pod ]

-- The two slices of names, `toAddLifecycleFlz` and `toDeleteLifecycleFlz`.
pub record NameSlices : Type 0 where
  pub adds : Slice String
  pub deletes : Slice String

module _ {X E : Type 0} (i : IEmployee X E) where
  -- The loops over `succCreate` and over `succDelete`.
  pub write_names : List E → Slice String → Outcome (Slice String)
  write_names [] s = ok s
  write_names (e ∷ es) s = do s' ← write s (i.get_employee_name e); write_names es s'

  pub write_by_status : Option (PodEmployeeStatuses X) → String → NameSlices → Outcome NameSlices
  write_by_status none name s = ok s
  write_by_status (some statuses) name s =
      if statuses.lifecycle_ready
      then (do adds ← write s.adds name; ok (record s { adds = adds }))
      else (do deletes ← write s.deletes name; ok (record s { deletes = deletes }))

  -- The loops over `succUpdate` and over `unchanged`.
  pub write_by_readiness : List E → NameSlices → Outcome NameSlices
  write_by_readiness [] s = ok s
  write_by_readiness (e ∷ es) s = do
    s' ← write_by_status (i.get_employee_statuses e) (i.get_employee_name e) s
    write_by_readiness es s'

  unfoldable pub get_to_add_delete_lifecycle_flz_employees :
      AdapterOptions → List E → List E → List E → List E → Outcome (List String × List String)
  unfolding write_names write_by_readiness write_by_status
  get_to_add_delete_lifecycle_flz_employees options succ_create succ_delete succ_update unchanged =
      if opts_out options then ok ([], []) else do
        adds ←
            write_names succ_create
              (make (length succ_create + length succ_update + length unchanged))
        s ← write_by_readiness succ_update (record {
          adds = adds;
          deletes = make (length succ_delete + length succ_update + length unchanged);
        })
        deletes ← write_names succ_delete s.deletes
        t ← write_by_readiness unchanged (record s { deletes = deletes })
        ok (t.adds.items, t.deletes.items)
