-- ===== src/Adapters/Slb/Tests.antt =====
-- A sync of a Service with one pod behind its load balancer, and the employers of a pod.
use mathlib.Core.List.Perm
use resourceconsist.Base.{
  ℕ, String, ◌≡◌, ◌↔◌, refl, Bool, true, false, none, some, List, [], ◌∷◌, map, string_eq, bool_eq,
  contains, Outcome, ok, GoError, or_else, not, ◌&&◌, arith, ◌⊎◌, inr,
}
use resourceconsist.Base.GoMap.{GoMap, get, insert}
use resourceconsist.Base.Steps.{◌>>=◌}
use resourceconsist.Base.Text.{split, join}
use resourceconsist.Controller.Types.{Pod, pod_ready, status_true}
use resourceconsist.Controller.PodStatus.{
  is_pod_lifecycle_ready, get_pod_ipv6_address, get_common_pod_employee_status,
}
use resourceconsist.Controller.Client.{Employer, route, employer_context}
use resourceconsist.Controller.Client.Memory.{
  Memory, memory, memory-IsPodStore, memory-ReadsOwn, memory-IsPodPatch, context_eq,
}
use resourceconsist.Controller.KubeApi.{KubeApi}
use resourceconsist.Controller.KubeApi.Table.{table_api}
use resourceconsist.Controller.Diff.{ToCud, diff}
use resourceconsist.Controller.Lifecycle.{get_to_add_delete_lifecycle_flz_employees}
use resourceconsist.Controller.Finalizer.{ensure_lifecycle_finalizer}
use resourceconsist.Controller.ExpectedFinalizer.{lifecycle_finalizer}
use resourceconsist.Controller.Events.{pod_event}
use resourceconsist.Controller.Events.Selected.{names_of}
use resourceconsist.Controller.Sync.{
  Visits, Synced, names_to_forget, ensure_employees, record_employees, record_update,
  sync_employees,
}
use resourceconsist.Controller.Sync.Clean.{IsVisits}
use resourceconsist.Utils.Names.{generate_lifecycle_finalizer}
use resourceconsist.Utils.Batch.{slow_start_batch}
use resourceconsist.Adapters.Slb.{
  AlibabaSlbPodStatus, SlbApi, alibaba_cloud_slb_lb_id_label_key, employee_equal, extra_eq,
  selected_pods, labelled_servers, get_backend_servers, server_ips, exist_under_slb,
  expected_statuses, current_statuses, get_expected_employee, get_current_employee,
  slb_controller_adapter, get_employers_by_employee,
}
use resourceconsist.Adapters.Slb.Equal.{Same, employee_equal-Same}
use resourceconsist.Adapters.Slb.Traffic.{id_of, status_of, IsTrafficDiff, slb_diff-IsTrafficDiff}
use resourceconsist.Adapters.Slb.Serving.{Serves, slb_sync_clean-no_pods}
use resourceconsist.Adapters.Slb.Synced.{Guarded, Forgotten, slb_sync-Guarded}
use resourceconsist.Adapters.Slb.Employers.{get_employers-agrees}

abbrev api : KubeApi
api = table_api "Service/ns/web" "flz"

abbrev in_order : List ℕ → List ℕ
in_order is = is

abbrev every_ip : String → Bool
every_ip s = true

abbrev visits : Visits AlibabaSlbPodStatus
visits = record { expected = λ m. m; current = λ m. m }

ranges : IsVisits visits
ranges = record {
  expected = record { visit-NodupKeys = λ m u. u; get-visit = λ k m u. refl };
  current = record { visit-NodupKeys = λ m u. u; get-visit = λ k m u. refl };
}

abbrev employer : Employer
employer = record {
  kind = "Service";
  meta = record {
    name = "web";
    namespace = "ns";
    labels = some ((alibaba_cloud_slb_lb_id_label_key, "lb") ∷ ("control", "true") ∷ []);
    annotations = none;
    finalizers = [];
    deleting = true;
  };
  selector = [];
}

abbrev pod : Pod
pod = record {
  meta = record {
    name = "a";
    namespace = "ns";
    labels = some [];
    annotations = none;
    finalizers = lifecycle_finalizer api "web" ∷ [];
    deleting = false;
  };
  conditions = record { type = pod_ready; status = status_true } ∷ [];
  pod_ip = "10.0.0.1";
  pod_ips = [];
}

abbrev start : Memory
start = record { pods = λ c ns n. some pod; employers = λ c ns n. some employer }

-- The Service selects these pods, and one server is behind the load balancer.
abbrev api_of : List Pod → SlbApi Memory
api_of pods = record {
  list_pods = λ ns selector w. inr pods;
  describe_health_status = λ id w. inr (some (some "10.0.0.1" ∷ []));
}

abbrev status : AlibabaSlbPodStatus
status = status_of every_ip true pod

employee_equal-Same_example :
    (b : Bool) × (employee_equal status status ≡ ok b) × ((b ≡ true) ↔ Same status status)
employee_equal-Same_example = employee_equal-Same status status

listed : (pods : List Pod) → selected_pods every_ip (api_of pods) employer start ≡ ok pods
unfolding selected_pods string_eq
listed pods = refl

labelled :
    (pods : List Pod)
    → labelled_servers every_ip (api_of pods) employer start ≡ ok ("10.0.0.1" ∷ [])
unfolding labelled_servers get_backend_servers server_ips string_eq get
labelled pods = refl

slb_diff-IsTrafficDiff_example :
    (xs ys : List AlibabaSlbPodStatus) × (r : ToCud AlibabaSlbPodStatus) × (get_expected_employee
        every_ip
        (api_of (pod ∷ []))
        employer
        start
      ≡ ok xs)
    × (get_current_employee every_ip (api_of (pod ∷ [])) employer start ≡ ok ys)
    × (diff id_of employee_equal (λ m. m) (λ m. m) xs ys ≡ ok r)
    × IsTrafficDiff every_ip ("10.0.0.1" ∷ []) (pod ∷ []) r
slb_diff-IsTrafficDiff_example =
    slb_diff-IsTrafficDiff every_ip (λ m. m) (λ m. m) ranges.expected ranges.current
      ("10.0.0.1" ∷ []) (pod ∷ []) (api_of (pod ∷ [])) employer start (listed (pod ∷ []))
      (labelled (pod ∷ []))

expected : get_expected_employee every_ip (api_of (pod ∷ [])) employer start ≡ ok (status ∷ [])
unfolding get_expected_employee selected_pods expected_statuses status_of string_eq
    get_common_pod_employee_status is_pod_lifecycle_ready
expected = refl

current : get_current_employee every_ip (api_of (pod ∷ [])) employer start ≡ ok (status ∷ [])
unfolding get_current_employee selected_pods labelled_servers get_backend_servers server_ips
    exist_under_slb current_statuses status_of string_eq get insert get_common_pod_employee_status
    is_pod_lifecycle_ready
current = refl

abbrev ran :
    List Pod → List AlibabaSlbPodStatus → Outcome (Synced AlibabaSlbPodStatus) × (Employer × Memory)
ran pods xs =
    sync_employees memory api in_order (slb_controller_adapter every_ip (api_of pods)) visits xs xs
      (employer, start)

abbrev synced : Bool → List AlibabaSlbPodStatus → Synced AlibabaSlbPodStatus
synced clean xs = record {
  is_clean = clean;
  failed_exist = false;
  results = record {
    succ_created = [];
    fail_created = [];
    succ_updated = [];
    fail_updated = [];
    succ_deleted = [];
    fail_deleted = [];
    unchanged = xs;
  };
}

ran_well :
    ran (pod ∷ []) (status ∷ [])
    ≡ (ok (synced false (status ∷ [])), (ran (pod ∷ []) (status ∷ [])).1)
unfolding sync_employees ◌>>=◌ diff get_to_add_delete_lifecycle_flz_employees names_to_forget
    ensure_employees record_employees record_update ensure_lifecycle_finalizer slow_start_batch
    string_eq context_eq route split join get insert employer_context generate_lifecycle_finalizer
    employee_equal bool_eq extra_eq status_of is_pod_lifecycle_ready get_pod_ipv6_address
ran_well = refl

none_expected : get_expected_employee every_ip (api_of []) employer start ≡ ok []
unfolding get_expected_employee selected_pods expected_statuses string_eq
none_expected = refl

none_current : get_current_employee every_ip (api_of []) employer start ≡ ok []
unfolding get_current_employee selected_pods labelled_servers get_backend_servers server_ips
    exist_under_slb current_statuses string_eq get insert
none_current = refl

ran_clean : ran [] [] ≡ (ok (synced true []), (ran [] []).1)
unfolding sync_employees ◌>>=◌ diff get_to_add_delete_lifecycle_flz_employees names_to_forget
    ensure_employees record_employees record_update ensure_lifecycle_finalizer slow_start_batch
    string_eq context_eq route split join get insert employer_context generate_lifecycle_finalizer
ran_clean = refl

slb_sync_clean-no_pods_example : ◌≡◌ {A = List Pod} [] []
slb_sync_clean-no_pods_example =
    slb_sync_clean-no_pods memory api in_order every_ip (api_of []) visits ranges employer start []
      ("10.0.0.1" ∷ []) [] [] (synced true []) (ran [] []).1 (listed []) (labelled []) none_expected
      none_current ran_clean refl

abbrev list_services : String → Memory → GoError ⊎ List Employer
list_services ns w = inr (employer ∷ [])

abbrev all_match : GoMap String → GoMap String → Bool
all_match selector labels = true

get_employers-agrees_example :
    (es : List Employer) × (get_employers_by_employee "control" list_services all_match pod start
      ≡ ok es)
    × (names_of (pod_event memory "control" list_services all_match pod.meta start)
        ≡ map (λ svc. svc.name) es)
get_employers-agrees_example =
    get_employers-agrees memory "control" list_services all_match pod [] start (employer ∷ []) refl
      refl (refl, tt)

serves : Serves every_ip ("10.0.0.1" ∷ []) (pod ∷ []) true "a"
unfolding string_eq or_else is_pod_lifecycle_ready
serves = (pod, refl, refl, refl, refl)

once : (c : Bool) → Serves every_ip ("10.0.0.1" ∷ []) (pod ∷ []) c "a" → c ≡ true
unfolding or_else is_pod_lifecycle_ready
once c (p, last, named, ready, behind) = ground (arith, last, behind)

slb_sync-Guarded_example :
    (forget : List String) × Forgotten memory memory-IsPodStore memory-IsPodPatch api in_order
      Perm.refl every_ip
      (api_of (pod ∷ []))
      visits
      ranges
      memory-ReadsOwn
      employer
      start
      forget
    × Guarded memory memory-IsPodStore memory-IsPodPatch api in_order Perm.refl every_ip
        (api_of (pod ∷ []))
        visits
        ranges
        memory-ReadsOwn
        employer
        (true && not (contains forget "a"))
        "a"
        (ran (pod ∷ []) (status ∷ [])).1.1
slb_sync-Guarded_example =
    slb_sync-Guarded memory memory-IsPodStore memory-IsPodPatch api in_order Perm.refl every_ip
      (api_of (pod ∷ [])) visits ranges memory-ReadsOwn employer start (pod ∷ []) ("10.0.0.1" ∷ [])
      (status ∷ []) (status ∷ []) (synced false (status ∷ [])) (ran (pod ∷ []) (status ∷ [])).1 true
      "a" (listed (pod ∷ [])) (labelled (pod ∷ [])) expected current ran_well serves once
