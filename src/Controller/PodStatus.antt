-- ===== src/Controller/PodStatus.antt =====
-- `isPodLifecycleReady`, `getPodIpv6Address` and `GetCommonPodEmployeeStatus` of
-- pkg/frame/controller/utils.go. `net.ParseIP(s) != nil` is the parameter `is_ip`.
pub mod Ready
mod Tests
use Prim.Native.Char.{Char, code}
use Prim.Native.Nat.{compare, Ordering}
use resourceconsist.Base.{
  String, Bool, true, false, not, ◌&&◌, ◌||◌, Option, none, some, List, [], ◌∷◌, if◌then◌else◌,
  Outcome, ok, err, errorf,
}
use resourceconsist.Controller.Types.{
  ConditionType, pod_ready, readiness_gate_pod_service_ready, other_type, ConditionStatus,
  status_true, PodCondition, Pod, PodEmployeeStatuses,
}

abbrev pub is_pod_ready : ConditionType → Bool
is_pod_ready pod_ready = true
is_pod_ready _ = false

abbrev pub is_readiness_gate : ConditionType → Bool
is_readiness_gate readiness_gate_pod_service_ready = true
is_readiness_gate _ = false

abbrev pub is_true : ConditionStatus → Bool
is_true status_true = true
is_true _ = false

-- The local variables of the loop over the conditions.
pub record Scan : Type 0 where
  pub ready : Bool
  pub gate_ready : Bool
  pub ready_checked : Bool
  pub gate_checked : Bool

abbrev pub scan_start : Scan
scan_start = record {
  ready = false;
  gate_ready = true;
  ready_checked = false;
  gate_checked = false;
}

pub scan_conditions : Scan → List PodCondition → Scan
scan_conditions s [] = s
scan_conditions s (c ∷ cs) =
    let ready = scan_conditions (record s { ready = true; ready_checked = true }) cs in
    let gated = scan_conditions (record s { gate_checked = true }) cs in
    let skipped = scan_conditions s cs in
    if s.ready_checked && s.gate_checked
    then s
    else if is_pod_ready c.type
    then (if is_true c.status then ready else record s { ready_checked = true })
    else if is_readiness_gate c.type
    then (if is_true c.status then gated else record s { gate_ready = false; gate_checked = true })
    else skipped

unfoldable pub is_pod_lifecycle_ready : Pod → Bool
unfolding scan_conditions
is_pod_lifecycle_ready pod =
    let s = scan_conditions scan_start pod.conditions in
    if pod.deleting then false else s.ready && s.gate_ready

-- `strings.Contains(s, ":")`
contains_colon : String → Bool
contains_colon String.[] = false
contains_colon (String.◌∷◌ c s) = elim (compare (code c) b':') [
  | Ordering.eq ↦ true
  | _ ↦ contains_colon s
]

module _ (is_ip : String → Bool) where
  first_ipv6 : List String → String
  first_ipv6 [] = ""
  first_ipv6 (ip ∷ ips) = if is_ip ip && contains_colon ip then ip else first_ipv6 ips

  -- A nil pod is `none`.
  unfoldable pub get_pod_ipv6_address : Option Pod → String
  unfolding contains_colon first_ipv6
  get_pod_ipv6_address none = ""
  get_pod_ipv6_address (some pod) = first_ipv6 pod.pod_ips

  -- `nil_extra` is the nil interface that `ExtraStatus` is left at.
  unfoldable pub get_common_pod_employee_status :
      {X : Type 0} → X → Option Pod → Outcome (PodEmployeeStatuses X)
  unfolding get_pod_ipv6_address is_pod_lifecycle_ready
  get_common_pod_employee_status nil_extra none =
      err (errorf "GetCommonPodEmployeeStatus failed, pod is nil")
  get_common_pod_employee_status nil_extra (some pod) = ok (record {
    ip = pod.pod_ip;
    ipv6 = get_pod_ipv6_address (some pod);
    lifecycle_ready = is_pod_lifecycle_ready pod;
    extra_status = nil_extra;
  })
