-- ===== src/Controller/Sync/Tests.antt =====
-- A run of `syncEmployees` over pods in memory.
use mathlib.Core.List.Perm
use resourceconsist.Base.{
  ℕ, String, ◌≡◌, ◌≢◌, refl, Bool, true, false, Option, none, some, List, [], ◌∷◌, ◌++◌, string_eq,
  contains, Outcome, ok,
}
use resourceconsist.Base.GoMap.{get, insert}
use resourceconsist.Base.Steps.{◌>>=◌}
use resourceconsist.Base.Text.{split, join}
use resourceconsist.Controller.Types.{Pod}
use resourceconsist.Controller.Client.{Employer, route, employer_context}
use resourceconsist.Controller.Client.Memory.{
  Memory, memory, memory-IsPodStore, memory-ReadsOwn, memory-IsPodPatch, context_eq,
}
use resourceconsist.Controller.KubeApi.{KubeApi}
use resourceconsist.Controller.KubeApi.Table.{table_api}
use resourceconsist.Controller.Adapter.{Adapter}
use resourceconsist.Controller.Diff.{ToCud, diff}
use resourceconsist.Controller.Lifecycle.{get_to_add_delete_lifecycle_flz_employees}
use resourceconsist.Controller.Finalizer.{ensure_lifecycle_finalizer}
use resourceconsist.Controller.Finalizer.Single.{IsEnsured}
use resourceconsist.Controller.ExpectedFinalizer.{
  lifecycle_finalizer_recorded_anno_key, lifecycle_finalizer,
}
use resourceconsist.Controller.Sync.{
  Visits, Synced, names_to_forget, ensure_employees, record_employees, record_update,
  sync_employees,
}
use resourceconsist.Base.Text.Rounds.{CommaFree}
use resourceconsist.Controller.Sync.Record.{recorded_names, sync_employees-recorded_names}
use resourceconsist.Controller.Sync.Parts.{Forgets, after_cud, ready_names}
use resourceconsist.Controller.Sync.Lifecycle.{sync_employees-IsEnsured}
use resourceconsist.Utils.Names.{generate_lifecycle_finalizer}
use resourceconsist.Utils.Batch.{slow_start_batch}

abbrev api : KubeApi
api = table_api "Service/ns/web" "flz"

abbrev in_order : List ℕ → List ℕ
in_order is = is

-- An employee is a pod's name and its readiness.
abbrev Employee : Type 0
Employee = String × Bool

abbrev visits : Visits Employee
visits = record { expected = λ m. m; current = λ m. m }

abbrev none_of : (A : Type 0) → Employer → Memory → Outcome (List A) × Memory
none_of A e w = (ok [], w)

abbrev all_well : (A : Type 0) → List A → Employer → Memory → Outcome (List A × List A) × Memory
all_well A xs e w = (ok (xs, []), w)

abbrev adapter : Adapter Memory String (Unit {0}) Employee
adapter = record {
  options = record {
    lifecycle = some (record {
      follow_pod_ops_life_cycle = true;
      need_record_lifecycle_finalizer_condition = true;
    });
    new_employee_is_pod = none;
    multi_cluster = none;
    need_record_expected_finalizer_condition = none;
  };
  employer_methods = record { get_employer_id = λ x. x; employer_equal = λ x y. ok true };
  employee_methods = record {
    get_employee_id = λ x. x.0;
    get_employee_name = λ x. x.0;
    get_employee_statuses =
        λ x. some (record { ip = ""; ipv6 = ""; lifecycle_ready = x.1; extra_status = tt });
    employee_equal = λ x y. ok true;
  };
  get_selected_employee_names = λ e w. (ok ("a" ∷ []), w);
  get_expected_employer = none_of String;
  get_current_employer = none_of String;
  create_employer = all_well String;
  update_employer = all_well String;
  delete_employer = all_well String;
  get_expected_employee = none_of Employee;
  get_current_employee = none_of Employee;
  create_employees = all_well Employee;
  update_employees = all_well Employee;
  delete_employees = all_well Employee;
  status_record = none;
  requeue_interval = none;
}

-- The pod "c" is recorded and not selected any more.
abbrev employer : Employer
employer = record {
  kind = "Service";
  meta = record {
    name = "web";
    namespace = "ns";
    labels = none;
    annotations = some ((lifecycle_finalizer_recorded_anno_key, "a,c") ∷ []);
    finalizers = [];
    deleting = false;
  };
  selector = [];
}

abbrev pod : String → Pod
pod name = record {
  meta = record {
    name = name;
    namespace = "ns";
    labels = none;
    annotations = none;
    finalizers = lifecycle_finalizer api "web" ∷ [];
    deleting = false;
  };
  conditions = [];
  pod_ip = "";
  pod_ips = [];
}

abbrev start : Memory
start = record { pods = λ c ns n. some (pod n); employers = λ c ns n. some employer }

-- "a" is to be created, "b" is to be deleted.
abbrev ran : Outcome (Synced Employee) × (Employer × Memory)
ran =
    sync_employees memory api in_order adapter visits (("a", true) ∷ []) (("b", true) ∷ [])
      (employer, start)

abbrev synced : Synced Employee
synced = record {
  is_clean = false;
  failed_exist = false;
  results = record {
    succ_created = ("a", true) ∷ [];
    fail_created = [];
    succ_updated = [];
    fail_updated = [];
    succ_deleted = ("b", true) ∷ [];
    fail_deleted = [];
    unchanged = [];
  };
}

ran_well : ran ≡ (ok synced, ran.1)
unfolding sync_employees ◌>>=◌ diff get_to_add_delete_lifecycle_flz_employees names_to_forget
    ensure_employees record_employees record_update ensure_lifecycle_finalizer slow_start_batch
    string_eq context_eq route split join get insert employer_context generate_lifecycle_finalizer
ran_well = refl

not_local : ◌≢◌ {A = Option Bool} none (some false)
not_local h = cc h

sync_employees-IsEnsured_example :
    (cud : ToCud Employee) × (diff
        (λ x. x.0)
        (λ x y. ok true)
        visits.expected
        visits.current
        (("a", true) ∷ [])
        (("b", true) ∷ [])
      ≡ ok cud)
    × (forget : List String) × Forgets memory api in_order adapter employer
        (after_cud memory api in_order adapter cud (employer, start)).1
        forget
    × IsEnsured memory memory-IsPodStore none "ns"
        (lifecycle_finalizer api "web")
        not_local
        in_order
        Perm.refl
        memory-ReadsOwn
        ("a" ∷ [])
        (("b" ∷ []) ++ forget)
        ran.1.1
sync_employees-IsEnsured_example =
    sync_employees-IsEnsured memory memory-IsPodStore memory-IsPodPatch api in_order Perm.refl
      adapter not_local memory-ReadsOwn visits (("a", true) ∷ []) (("b", true) ∷ []) employer start
      synced ran.1 refl ran_well

CommaFree-a : CommaFree "a"
unfolding split
CommaFree-a = refl

a_ready : contains (ready_names memory api in_order adapter synced) "a" ≡ true
unfolding string_eq
a_ready = refl

sync_employees-recorded_names_example : contains (recorded_names ran.1.0) "a" ≡ true
sync_employees-recorded_names_example =
    sync_employees-recorded_names memory api in_order adapter visits (("a", true) ∷ [])
      (("b", true) ∷ []) employer start synced ran.1 "a" refl refl ran_well CommaFree-a a_ready
