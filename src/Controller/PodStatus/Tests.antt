-- ===== src/Controller/PodStatus/Tests.antt =====
-- Pods whose readiness is known.
use resourceconsist.Base.{◌≡◌, refl, true, false, none, [], ◌∷◌, not, ◌&&◌}
use resourceconsist.Controller.Types.{
  Pod, PodCondition, pod_ready, readiness_gate_pod_service_ready, other_type, status_true,
  status_false,
}
use resourceconsist.Controller.PodStatus.{
  is_pod_lifecycle_ready, get_pod_ipv6_address, is_pod_ready, is_readiness_gate,
}
use resourceconsist.Controller.PodStatus.Ready.{holds, fails, is_pod_lifecycle_ready-holds}
use resourceconsist.Base.{List, some}

abbrev pod : List PodCondition → Pod
pod conditions = record {
  meta = record {
    name = "web-0";
    namespace = "default";
    labels = none;
    annotations = none;
    finalizers = [];
    deleting = false;
  };
  conditions = conditions;
  pod_ip = "10.0.0.1";
  pod_ips = "10.0.0.1" ∷ "fe80::1" ∷ [];
}

abbrev gated : List PodCondition
gated =
    record { type = other_type "Initialized"; status = status_true }
    ∷ record { type = pod_ready; status = status_true }
    ∷ record { type = readiness_gate_pod_service_ready; status = status_false }
    ∷ []

gated_is_not_ready : is_pod_lifecycle_ready (pod gated) ≡ false
unfolding is_pod_lifecycle_ready
gated_is_not_ready = refl

ipv6 : get_pod_ipv6_address (λ s. true) (some (pod gated)) ≡ "fe80::1"
unfolding get_pod_ipv6_address
ipv6 = refl

is_pod_lifecycle_ready-holds_example : is_pod_lifecycle_ready (pod gated) ≡ (
    not (pod gated).deleting
    && (holds is_pod_ready (pod gated).conditions
        && not (fails is_readiness_gate (pod gated).conditions)))
is_pod_lifecycle_ready-holds_example = is_pod_lifecycle_ready-holds (pod gated) refl refl
