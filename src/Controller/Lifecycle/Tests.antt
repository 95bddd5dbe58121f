-- ===== src/Controller/Lifecycle/Tests.antt =====
-- The names that a run hands to the lifecycle finalizer.
use resourceconsist.Base.{String, ◌≡◌, refl, Bool, true, false, none, some, [], ◌∷◌, ok}
use resourceconsist.Controller.Types.{IEmployee, AdapterOptions}
use resourceconsist.Controller.Lifecycle.{get_to_add_delete_lifecycle_flz_employees}
use resourceconsist.Controller.Lifecycle.Names.{get_to_add_delete-names}

-- An employee is a pod's name and its readiness.
abbrev pods : IEmployee (Unit {0}) (String × Bool)
pods = record {
  get_employee_id = λ e. e.0;
  get_employee_name = λ e. e.0;
  get_employee_statuses =
      λ e. some (record { ip = ""; ipv6 = ""; lifecycle_ready = e.1; extra_status = tt });
  employee_equal = λ a b. ok true;
}

abbrev follows : AdapterOptions
follows = record {
  lifecycle = some (record {
    follow_pod_ops_life_cycle = true;
    need_record_lifecycle_finalizer_condition = false;
  });
  new_employee_is_pod = none;
  multi_cluster = none;
  need_record_expected_finalizer_condition = none;
}

runs :
    get_to_add_delete_lifecycle_flz_employees pods follows
      (("a", false) ∷ [])
      (("b", true) ∷ [])
      (("c", true) ∷ ("d", false) ∷ [])
      (("e", false) ∷ [])
    ≡ ok ("a" ∷ "c" ∷ [], "d" ∷ "b" ∷ "e" ∷ [])
unfolding get_to_add_delete_lifecycle_flz_employees
runs = refl

get_to_add_delete-names_example :
    get_to_add_delete_lifecycle_flz_employees pods follows
      (("a", false) ∷ [])
      (("b", true) ∷ [])
      (("c", true) ∷ ("d", false) ∷ [])
      (("e", false) ∷ [])
    ≡ ok ("a" ∷ "c" ∷ [], "d" ∷ "b" ∷ "e" ∷ [])
get_to_add_delete-names_example =
    get_to_add_delete-names pods follows (("a", false) ∷ []) (("b", true) ∷ [])
      (("c", true) ∷ ("d", false) ∷ []) (("e", false) ∷ [])
