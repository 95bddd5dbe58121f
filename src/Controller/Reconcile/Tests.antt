-- ===== src/Controller/Reconcile/Tests.antt =====
-- Runs of `Reconcile` over an employer in memory, with an adapter whose backend holds nothing.
use mathlib.Core.List.Perm
use resourceconsist.Base.{
  ℕ, String, ◌≡◌, refl, Bool, true, false, Option, none, some, List, [], ◌∷◌, contains, string_eq,
  ◌⊎◌, ◌≢◌, Outcome, ok, panic,
}
use resourceconsist.Base.GoMap.{get}
use resourceconsist.Controller.Types.{LifecycleOptions}
use resourceconsist.Controller.Client.{Employer, failed, plain, employer_context}
use resourceconsist.Controller.Client.Memory.{
  Memory, memory, context_eq, not_found, memory-IsEmployerPatch,
}
use resourceconsist.Controller.KubeApi.{KubeApi}
use resourceconsist.Controller.KubeApi.Table.{table_api}
use resourceconsist.Controller.Adapter.{Adapter}
use resourceconsist.Controller.Employer.{clean_finalizer}
use resourceconsist.Controller.Sync.{Visits}
use resourceconsist.Controller.Sync.Clean.{IsVisits}
use resourceconsist.Controller.Sync.Keeps.{AdapterWrites}
use resourceconsist.Base.Steps.{◌>>=◌}
use resourceconsist.Base.Text.{split, join}
use resourceconsist.Utils.Batch.{slow_start_batch}
use resourceconsist.Controller.Diff.{diff}
use resourceconsist.Controller.Lifecycle.{get_to_add_delete_lifecycle_flz_employees}
use resourceconsist.Controller.Finalizer.{ensure_lifecycle_finalizer}
use resourceconsist.Controller.Employer.{ensure_employer_clean_flz, clean_employer_clean_finalizer}
use resourceconsist.Controller.ExpectedFinalizer.{ensure_expected_finalizer}
use resourceconsist.Controller.Sync.{
  sync_employer, sync_employees, names_to_forget, ensure_employees, record_employees, record_update,
}
use resourceconsist.Controller.Reconcile.{
  Syncs, sync_all, reconcile, reconcile_fetched, finish, requeue, reconcile_found, ensure_clean_flz,
  unless_updated, reconcile_ensured, ensure_expected, clean_if_done, record_statuses,
}
use resourceconsist.Controller.Reconcile.Early.{is_guarded, reconcile-unguarded, reconcile-panics}
use resourceconsist.Controller.Reconcile.Guard.{HasCleanFlz}
use resourceconsist.Controller.Reconcile.Clean.{IsAllCleared, reconcile-guard_clean}

abbrev api : KubeApi
api = table_api "Service/ns/web" "flz"

abbrev in_order : List ℕ → List ℕ
in_order is = is

abbrev visits : Visits String
visits = record { expected = λ m. m; current = λ m. m }

visits-IsVisits : IsVisits visits
visits-IsVisits = record {
  expected = record { visit-NodupKeys = λ m u. u; get-visit = λ k m u. refl };
  current = record { visit-NodupKeys = λ m u. u; get-visit = λ k m u. refl };
}

abbrev nothing : Employer → Memory → Outcome (List String) × Memory
nothing e w = (ok [], w)

abbrev all_well : List String → Employer → Memory → Outcome (List String × List String) × Memory
all_well xs e w = (ok (xs, []), w)

abbrev adapter : Option LifecycleOptions → Adapter Memory String Bool String
adapter lifecycle = record {
  options = record {
    lifecycle = lifecycle;
    new_employee_is_pod = none;
    multi_cluster = none;
    need_record_expected_finalizer_condition = none;
  };
  employer_methods = record { get_employer_id = λ x. x; employer_equal = λ x y. ok true };
  employee_methods = record {
    get_employee_id = λ x. x;
    get_employee_name = λ x. x;
    get_employee_statuses = λ x. none;
    employee_equal = λ x y. ok true;
  };
  get_selected_employee_names = nothing;
  get_expected_employer = nothing;
  get_current_employer = nothing;
  create_employer = all_well;
  update_employer = all_well;
  delete_employer = all_well;
  get_expected_employee = nothing;
  get_current_employee = nothing;
  create_employees = all_well;
  update_employees = all_well;
  delete_employees = all_well;
  status_record = none;
  requeue_interval = none;
}

abbrev not_following : Option LifecycleOptions
not_following = some (record {
  follow_pod_ops_life_cycle = false;
  need_record_lifecycle_finalizer_condition = false;
})

adapter-AdapterWrites :
    (lifecycle : Option LifecycleOptions) (P : Memory → Type 0)
    → AdapterWrites (adapter lifecycle) P
adapter-AdapterWrites lifecycle P = record {
  selected = λ e w h. h;
  expected_employer = λ e w h. h;
  current_employer = λ e w h. h;
  create_employer = λ xs e w h. h;
  update_employer = λ xs e w h. h;
  delete_employer = λ xs e w h. h;
  expected_employee = λ e w h. h;
  current_employee = λ e w h. h;
  create_employees = λ xs e w h. h;
  update_employees = λ xs e w h. h;
  delete_employees = λ xs e w h. h;
  statuses = λ o r s e w missing h. cc (missing);
  error_conditions = λ o x e w missing h. cc (missing);
}

abbrev employer : Bool → List String → Employer
employer deleting finalizers = record {
  kind = "Service";
  meta = record {
    name = "web";
    namespace = "ns";
    labels = none;
    annotations = none;
    finalizers = finalizers;
    deleting = deleting;
  };
  selector = [];
}

abbrev holding : Employer → Memory
holding e = record { pods = λ c ns n. none; employers = λ c ns n. some e }

abbrev guarded : Employer
guarded = employer false (clean_finalizer ∷ [])

abbrev fresh : Employer
fresh = employer false []

abbrev dying : Employer
dying = employer true (clean_finalizer ∷ [])

fresh_unguarded : is_guarded fresh ≡ false
unfolding string_eq
fresh_unguarded = refl

reconcile-unguarded_example :
    reconcile memory api in_order (adapter none) visits visits "ns" "web" (holding fresh) ≡ (
      ok (record { requeue_after = none }),
      (memory.update_employer plain guarded (holding fresh)).1,
    )
unfolding employer_context
reconcile-unguarded_example =
    reconcile-unguarded memory api in_order (adapter none) visits visits "ns" "web" (holding fresh)
      fresh refl fresh_unguarded

is_guarded-guarded : is_guarded guarded ≡ true
unfolding string_eq
is_guarded-guarded = refl

not_false : ◌≢◌ {A = Option Bool} none (some false)
not_false h = cc h

reconcile-panics_example :
    reconcile memory api in_order (adapter none) visits visits "ns" "web" (holding guarded)
    ≡ (panic, holding guarded)
reconcile-panics_example =
    reconcile-panics memory api in_order (adapter none) visits visits "ns" "web" (holding guarded)
      guarded refl is_guarded-guarded refl not_false

guarded_has : contains guarded.finalizers clean_finalizer ≡ true
unfolding string_eq
guarded_has = refl

reconcile-guard_clean_example :
    HasCleanFlz memory none "ns" "web"
      (reconcile memory api in_order
        (adapter not_following)
        visits
        visits
        "ns"
        "web"
        (holding guarded)).1
    ⊎ ((syncs : Syncs String String) × (t : Employer × Memory) × (sync_all memory api in_order
            (adapter not_following)
            visits
            visits
            (guarded, holding guarded)
          ≡ (ok syncs, t))
        × (t.0.deleting ≡ true)
        × IsAllCleared memory api in_order
            (adapter not_following)
            visits
            visits
            (guarded, holding guarded)
            syncs
            t)
reconcile-guard_clean_example =
    reconcile-guard_clean memory memory-IsEmployerPatch api in_order Perm.refl
      (adapter not_following) visits visits visits-IsVisits visits-IsVisits "ns" "web"
      (holding guarded) guarded
      (adapter-AdapterWrites not_following (HasCleanFlz memory none "ns" "web")) refl guarded_has

-- The backend holds nothing, so the clean finalizer of an employer that is being deleted goes, and
-- with it the employer.
reconcile_ends :
    memory.get_employer plain "ns" "web"
      (reconcile memory api in_order
        (adapter not_following)
        visits
        visits
        "ns"
        "web"
        (holding dying)).1
    ≡ failed not_found
unfolding reconcile reconcile_fetched finish requeue reconcile_found ◌>>=◌ ensure_clean_flz
    unless_updated reconcile_ensured sync_all ensure_expected sync_employer sync_employees
    names_to_forget ensure_employees record_employees record_update clean_if_done record_statuses
    diff get_to_add_delete_lifecycle_flz_employees ensure_lifecycle_finalizer
    ensure_expected_finalizer ensure_employer_clean_flz clean_employer_clean_finalizer
    slow_start_batch string_eq context_eq employer_context get split join
reconcile_ends = refl
