-- ===== src/Adapters/Slb.antt =====
-- pkg/adapters/alibabacloudslb: the adapter for Services behind an SLB of Alibaba Cloud. It only reads:
-- another controller puts the servers behind the load balancer.
pub mod Equal
pub mod Traffic
pub mod Guard
pub mod Serving
pub mod Synced
pub mod Employers
mod Tests
use resourceconsist.Base.{
  ℕ, String, Bool, true, false, not, ◌&&◌, ◌||◌, Option, none, some, List, [], ◌∷◌, map,
  if◌then◌else◌, GoError, errorf, wrap, ◌==◌, Eq, string_eq, bool_eq, Outcome, ok, err, panic, ◌⊎◌,
  inl, inr, ◌>>=◌,
}
use resourceconsist.Base.GoMap.{GoMap, get, insert}
use resourceconsist.Controller.Types.{
  Pod, PodEmployeeStatuses, IEmployer, IEmployee, AdapterOptions, LifecycleOptions,
}
use resourceconsist.Controller.PodStatus.{get_common_pod_employee_status}
use resourceconsist.Controller.Client.{Employer}
use resourceconsist.Controller.KubeApi.{entries, annotation}
use resourceconsist.Controller.Adapter.{Adapter}
use resourceconsist.Webhook.{WebhookAdapter}

pub record PodExtraStatus : Type 0 where
  pub traffic_on : Bool

-- What is stored in `ExtraStatus`; `none` is the nil interface.
abbrev pub ExtraStatus : Type 0
ExtraStatus = Option PodExtraStatus

pub record AlibabaSlbPodStatus : Type 0 where
  pub employee_id : String
  pub employee_name : String
  pub employee_statuses : PodEmployeeStatuses ExtraStatus

ExtraStatus-discrete : Discrete ExtraStatus
ExtraStatus-discrete = hlevel bool_eq.dec

-- `reflect.DeepEqual` of two extra statuses.
instance unfoldable pub extra_eq : Eq ExtraStatus
unfolding ExtraStatus-discrete
extra_eq = record { dec = ExtraStatus-discrete }

-- `EmployeeEqual` with an employee of any type, of which the name and the statuses are given.
pub employee_equal_to :
    AlibabaSlbPodStatus → String → Option (PodEmployeeStatuses ExtraStatus) → Outcome Bool
employee_equal_to a name other = if not (a.employee_name == name) then ok false else elim other [
  | none ↦ err (errorf "employee to diff is not Pod Employee status")
  | some s ↦
      let mine = a.employee_statuses in
      if not (mine.ip == s.ip)
        || (not (mine.lifecycle_ready == s.lifecycle_ready) || not (mine.ipv6 == s.ipv6))
      then ok false
      else ok (mine.extra_status == s.extra_status)
]

unfoldable pub employee_equal : AlibabaSlbPodStatus → AlibabaSlbPodStatus → Outcome Bool
unfolding employee_equal_to
employee_equal a b = employee_equal_to a b.employee_name (some b.employee_statuses)

-- The methods of `AlibabaSlbPodStatus`.
abbrev pub employee_methods : IEmployee ExtraStatus AlibabaSlbPodStatus
employee_methods = record {
  get_employee_id = λ s. s.employee_id;
  get_employee_name = λ s. s.employee_name;
  get_employee_statuses = λ s. some s.employee_statuses;
  employee_equal = employee_equal;
}

abbrev pub alibaba_cloud_slb_lb_id_label_key : String
alibaba_cloud_slb_lb_id_label_key = "service.k8s.alibaba/loadbalancer-id"

-- What is used of the client of the API server and of `slb20140515.Client`. `list_pods` is `List` of
-- the pods of a namespace that a selector matches. `describe_health_status` gives the addresses of the
-- servers behind a load balancer, `none` where the answer or a part of it is nil; the address of a
-- server is `none` where it is nil.
pub record SlbApi (W : Type 0) : Type 0 where
  pub list_pods : String → GoMap String → W → GoError ⊎ List Pod
  pub describe_health_status : String → W → GoError ⊎ Option (List (Option String))

-- The loop of `GetBackendServers`.
pub server_ips : List (Option String) → Outcome (List String)
server_ips [] = ok []
server_ips (none ∷ servers) = panic
server_ips (some ip ∷ servers) = do ips ← server_ips servers; ok (ip ∷ ips)

abbrev pub from_described : GoError ⊎ Option (List (Option String)) → Outcome (List String)
from_described (inl e) = err e
from_described (inr none) = err (errorf "get backend servers list faield, resp is nil")
from_described (inr (some servers)) = server_ips servers

-- The map `bsExistUnderSlb`.
pub exist_under_slb : List String → GoMap Bool
exist_under_slb [] = []
exist_under_slb (bs ∷ rest) = insert bs true (exist_under_slb rest)

abbrev pub value_or_false : Option Bool → Bool
value_or_false none = false
value_or_false (some b) = b

abbrev pub wrap_backend : Outcome (List String) → Outcome (List String)
wrap_backend (ok servers) = ok servers
wrap_backend (err e) = err (wrap "get backend servers of slb failed, err: " e)
wrap_backend panic = panic

module _ (is_ip : String → Bool) where
  -- An employee, with the extra status that `traffic` gives for its readiness.
  abbrev pub pod_status : (Bool → Bool) → Pod → Outcome AlibabaSlbPodStatus
  pod_status traffic pod = do
    statuses ← get_common_pod_employee_status is_ip {X = ExtraStatus} none (some pod)
    ok (record {
      employee_id = pod.pod_ip;
      employee_name = pod.name;
      employee_statuses = record statuses {
        extra_status = some (record { traffic_on = traffic statuses.lifecycle_ready });
      };
    })

  -- The loop of `GetExpectedEmployee`.
  pub expected_statuses : List Pod → Outcome (List AlibabaSlbPodStatus)
  expected_statuses [] = ok []
  expected_statuses (pod ∷ pods) = do
    status ← pod_status (λ ready. ready) pod
    rest ← expected_statuses pods
    ok (status ∷ rest)

  -- The loop of `GetCurrentEmployee`.
  pub current_statuses : GoMap Bool → List Pod → Outcome (List AlibabaSlbPodStatus)
  current_statuses exist [] = ok []
  current_statuses exist (pod ∷ pods) = do
    status ← pod_status (λ _. value_or_false (get pod.pod_ip exist)) pod
    rest ← current_statuses exist pods
    ok (status ∷ rest)

  module _ {W : Type 0} (slb : SlbApi W) where
    -- The pods that the Service selects; the assertion that it is a Service comes first. The kind of an
    -- employer names the Go type of the object, `Service` that of `*corev1.Service`.
    pub selected_pods : Employer → W → Outcome (List Pod)
    selected_pods employer w =
        if employer.kind == "Service"
        then elim (slb.list_pods employer.namespace employer.selector w) [
          | inl e ↦ err e
          | inr pods ↦ ok pods
        ]
        else err (errorf "expect employer kind is Service")

    pub get_backend_servers : String → W → Outcome (List String)
    get_backend_servers lb_id w = from_described (slb.describe_health_status lb_id w)

    pub get_selected_employee_names : Employer → W → Outcome (List String)
    get_selected_employee_names employer w = do
      pods ← selected_pods employer w
      ok (map (λ pod. pod.name) pods)

    unfoldable pub get_expected_employee : Employer → W → Outcome (List AlibabaSlbPodStatus)
    get_expected_employee employer w = do pods ← selected_pods employer w; expected_statuses pods

    -- The backend servers of the load balancer that the Service's label names, if it names one.
    pub labelled_servers : Employer → W → Outcome (List String)
    labelled_servers employer w =
        let lb_id = annotation alibaba_cloud_slb_lb_id_label_key employer.labels in
        if lb_id == "" then ok [] else wrap_backend (get_backend_servers lb_id w)

    unfoldable pub get_current_employee : Employer → W → Outcome (List AlibabaSlbPodStatus)
    get_current_employee employer w = do
      pods ← selected_pods employer w
      servers ← labelled_servers employer w
      current_statuses (exist_under_slb servers) pods

    -- `SlbControllerAdapter`. There are no employers: the type has no value.
    abbrev pub slb_controller_adapter : Adapter W ⊥ ExtraStatus AlibabaSlbPodStatus
    slb_controller_adapter = record {
      options = record {
        lifecycle = some (record {
          follow_pod_ops_life_cycle = true;
          need_record_lifecycle_finalizer_condition = true;
        });
        new_employee_is_pod = none;
        multi_cluster = none;
        need_record_expected_finalizer_condition = none;
      };
      employer_methods = record {
        get_employer_id = λ r. absurd r;
        employer_equal = λ r s. absurd r;
      };
      employee_methods = employee_methods;
      get_selected_employee_names = λ e w. (get_selected_employee_names e w, w);
      get_expected_employer = λ e w. (ok [], w);
      get_current_employer = λ e w. (ok [], w);
      create_employer = λ rs e w. (ok ([], []), w);
      update_employer = λ rs e w. (ok ([], []), w);
      delete_employer = λ rs e w. (ok ([], []), w);
      get_expected_employee = λ e w. (get_expected_employee e w, w);
      get_current_employee = λ e w. (get_current_employee e w, w);
      create_employees = λ es e w. (ok ([], es), w);
      update_employees = λ es e w. (ok ([], es), w);
      delete_employees = λ es e w. (ok ([], es), w);
      status_record = none;
      requeue_interval = some 100;
    }

module _ {W : Type 0} (controlled_key : String)
    (list_services : String → W → GoError ⊎ List Employer)
    (matches : GoMap String → GoMap String → Bool) where
  -- The loop of `GetEmployersByEmployee` of the webhook adapter.
  pub controlled_employers : GoMap String → List Employer → List Employer
  controlled_employers labels [] = []
  controlled_employers labels (service ∷ services) =
      let rest = controlled_employers labels services in
      if annotation controlled_key service.labels == "true" && matches service.selector labels
      then service ∷ rest
      else rest

  pub get_employers_by_employee : Pod → W → Outcome (List Employer)
  get_employers_by_employee pod w = elim (list_services pod.namespace w) [
    | inl e ↦ if e.is_not_found then ok [] else err e
    | inr services ↦ ok (controlled_employers (entries pod.labels) services)
  ]

  -- `SlbWebhookAdapter`
  abbrev pub slb_webhook_adapter : WebhookAdapter W
  slb_webhook_adapter = record {
    name = "alibaba-cloud-slb--webhook";
    get_employers_by_employee = λ pod w. (get_employers_by_employee pod w, w);
  }
