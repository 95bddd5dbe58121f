-- ===== src/Controller/Lifecycle/Names.antt =====
-- Which employees are to have the lifecycle finalizer, and which are not.
use mathlib.Core.List.{map}
use resourceconsist.Base.{
  ℕ, ◌+◌, ◌≤◌, String, ◌≡◌, refl, Bool, true, false, Option, none, some, List, [], ◌∷◌, ◌++◌,
  append_assoc, append-nil, if◌then◌else◌, length, ok, arith, length-append, ap, suc, Bool-cases,
  inl, inr,
}
use resourceconsist.Base.Slice.{Slice, make}
use resourceconsist.Controller.Types.{PodEmployeeStatuses, IEmployee, AdapterOptions}
use resourceconsist.Controller.Lifecycle.{
  NameSlices, opts_out, write_names, write_by_status, write_by_readiness,
  get_to_add_delete_lifecycle_flz_employees,
}
use resourceconsist.Base.{not}

module _ {X E : Type 0} (i : IEmployee X E) where
  -- The employees whose statuses are those of a pod, with the given readiness.
  abbrev pub has_readiness : Bool → Option (PodEmployeeStatuses X) → Bool
  has_readiness b none = false
  has_readiness true (some statuses) = statuses.lifecycle_ready
  has_readiness false (some statuses) = not statuses.lifecycle_ready

  abbrev pub names : List E → List String
  names = map i.get_employee_name

  -- The names of the employees with the given readiness, in order.
  abbrev pub names_by_readiness : Bool → List E → List String
  names_by_readiness b [] = []
  names_by_readiness b (e ∷ es) =
      let rest = names_by_readiness b es in
      if has_readiness b (i.get_employee_statuses e) then i.get_employee_name e ∷ rest else rest

  write_names-names :
      (es : List E) (s : Slice String)
      → length s.items + length es ≤ s.room
      → write_names i es s ≡ ok (record s { items = s.items ++ names es })
  unfolding write_names
  write_names-names [] s room = ground (arith, append-nil s.items)
  write_names-names (e ∷ es) s room = ground (
    arith,
    write_names-names es (record s { items = s.items ++ i.get_employee_name e ∷ [] }),
    length-append s.items (i.get_employee_name e ∷ []),
    append_assoc s.items (i.get_employee_name e ∷ []) (names es),
  )

  abbrev extended : List E → NameSlices → NameSlices
  extended es s = record {
    adds = record s.adds { items = s.adds.items ++ names_by_readiness true es };
    deletes = record s.deletes { items = s.deletes.items ++ names_by_readiness false es };
  }

  write_by_readiness-names :
      (es : List E) (s : NameSlices)
      → length s.adds.items + length es ≤ s.adds.room
      → length s.deletes.items + length es ≤ s.deletes.room
      → write_by_readiness i es s ≡ ok (extended es s)
  unfolding write_by_readiness write_by_status
  write_by_readiness-names [] s p q =
      ground (arith, append-nil s.adds.items, append-nil s.deletes.items)
  write_by_readiness-names (e ∷ es) s p q =
      let name = i.get_employee_name e in
      ground (
        arith,
        length-append s.adds.items (name ∷ []),
        length-append s.deletes.items (name ∷ []),
        append_assoc s.adds.items (name ∷ []) (names_by_readiness true es),
        append_assoc s.deletes.items (name ∷ []) (names_by_readiness false es),
        write_by_readiness-names es s,
        write_by_readiness-names es
            (record s { adds = record s.adds { items = s.adds.items ++ name ∷ [] } }),
        write_by_readiness-names es
            (record s { deletes = record s.deletes { items = s.deletes.items ++ name ∷ [] } }),
      )

  length-names : (es : List E) → length (names es) ≡ length es
  length-names [] = refl
  length-names (e ∷ es) = ap suc (length-names es)

  length-names_by_readiness :
      (b : Bool) (es : List E) → length (names_by_readiness b es) ≤ length es
  length-names_by_readiness b [] = omega arith
  length-names_by_readiness b (e ∷ es) = ground (arith, length-names_by_readiness b es)

  -- The writes stay inside the two slices. Employees that the adapter opts out of get nothing.
  -- Otherwise the names to add are those that were created, those that were updated and are ready,
  -- and those that are unchanged and ready; the names to delete are those that were updated and are
  -- not ready, those that were deleted, and those that are unchanged and not ready.
  pub get_to_add_delete-names :
      (options : AdapterOptions) (created deleted updated unchanged : List E)
      → get_to_add_delete_lifecycle_flz_employees i options created deleted updated unchanged
        ≡ ok (
            if opts_out options then ([], []) else (
              names created
                  ++ (names_by_readiness true updated ++ names_by_readiness true unchanged),
              names_by_readiness false updated
                  ++ (names deleted ++ names_by_readiness false unchanged),
            ))
  unfolding get_to_add_delete_lifecycle_flz_employees
  get_to_add_delete-names options created deleted updated unchanged =
      elim (Bool-cases (opts_out options)) [
        | inl out ↦ rw out
        | inr follows ↦
            rw
              (
                follows,
                write_names-names created (make add_room) (omega arith),
                write_by_readiness-names updated
                    (record { adds = slice add_room (names created); deletes = make delete_room })
                    (omega (arith, length-names created)) (omega arith),
                write_names-names deleted (slice delete_room (names_by_readiness false updated))
                    (omega (arith, length-names_by_readiness false updated)),
                write_by_readiness-names unchanged
                    (record {
                      adds = slice add_room (names created ++ names_by_readiness true updated);
                      deletes =
                          slice delete_room (names_by_readiness false updated ++ names deleted);
                    })
                    (omega (
                      arith,
                      length-append (names created) (names_by_readiness true updated),
                      length-names created,
                      length-names_by_readiness true updated,
                    ))
                    (omega (
                      arith,
                      length-append (names_by_readiness false updated) (names deleted),
                      length-names deleted,
                      length-names_by_readiness false updated,
                    )),
                append_assoc (names created),
                append_assoc (names_by_readiness false updated),
              )
              refl
      ]
    where
      add_room : ℕ
      add_room = length created + length updated + length unchanged

      delete_room : ℕ
      delete_room = length deleted + length updated + length unchanged

      slice : ℕ → List String → Slice String
      slice room items = record { room = room; items = items }
