-- ===== src/Controller/PodStatus/Ready.antt =====
-- When a pod counts as ready for traffic.
use resourceconsist.Base.{
  ◌≡◌, refl, Bool, true, false, not, ◌&&◌, List, [], ◌∷◌, if◌then◌else◌, arith,
}
use resourceconsist.Controller.Types.{ConditionType, PodCondition}
use resourceconsist.Controller.PodStatus.{is_true, Scan, scan_conditions}
use resourceconsist.Controller.PodStatus.{is_pod_lifecycle_ready}
use resourceconsist.Controller.PodStatus.{is_pod_ready}
use resourceconsist.Controller.PodStatus.{is_readiness_gate}
use resourceconsist.Controller.PodStatus.{scan_start}
use resourceconsist.Controller.PodStatus.{Pod}

-- Some condition whose type passes the test has status True.
abbrev pub holds : (ConditionType → Bool) → List PodCondition → Bool
holds is [] = false
holds is (c ∷ cs) = if is c.type then is_true c.status else holds is cs

-- Some condition whose type passes the test has a status other than True.
abbrev pub fails : (ConditionType → Bool) → List PodCondition → Bool
fails is [] = false
fails is (c ∷ cs) = if is c.type then not (is_true c.status) else fails is cs

abbrev pub is_absent : (ConditionType → Bool) → List PodCondition → Bool
is_absent is [] = true
is_absent is (c ∷ cs) = not (is c.type) && is_absent is cs

-- At most one condition has a type that passes the test.
abbrev pub is_unique : (ConditionType → Bool) → List PodCondition → Bool
is_unique is [] = true
is_unique is (c ∷ cs) = if is c.type then is_absent is cs else is_unique is cs

absent-holds :
    (is : ConditionType → Bool) (cs : List PodCondition)
    → is_absent is cs ≡ true
    → (holds is cs ≡ false) × (fails is cs ≡ false)
absent-holds is [] h = (refl, refl)
absent-holds is (c ∷ cs) h = ground (arith, absent-holds is cs)

-- After both have been seen, the rest is not read.
scan-checked :
    (s : Scan) (cs : List PodCondition)
    → s.ready_checked ≡ true
    → s.gate_checked ≡ true
    → scan_conditions s cs ≡ s
unfolding scan_conditions
scan-checked s [] p q = refl
scan-checked s (c ∷ cs) p q = ground arith

abbrev verdict : Scan → List PodCondition → Bool
verdict s cs = (scan_conditions s cs).ready && (scan_conditions s cs).gate_ready

abbrev seen_ready : Scan
seen_ready = record scan_start { ready = true; ready_checked = true }

abbrev seen_gate : Scan
seen_gate = record scan_start { gate_checked = true }

verdict-seen_ready :
    (cs : List PodCondition)
    → is_absent is_pod_ready cs ≡ true
    → verdict seen_ready cs ≡ not (fails is_readiness_gate cs)
unfolding scan_conditions
verdict-seen_ready [] h = refl
verdict-seen_ready (c ∷ cs) h =
    ground
      (arith, verdict-seen_ready cs, scan-checked (record seen_ready { gate_checked = true }) cs)

verdict-seen_gate :
    (cs : List PodCondition)
    → is_absent is_readiness_gate cs ≡ true
    → verdict seen_gate cs ≡ holds is_pod_ready cs
unfolding scan_conditions
verdict-seen_gate [] h = refl
verdict-seen_gate (c ∷ cs) h =
    ground
      (arith, verdict-seen_gate cs, scan-checked (record seen_ready { gate_checked = true }) cs)

verdict-start :
    (cs : List PodCondition)
    → is_unique is_pod_ready cs ≡ true
    → is_unique is_readiness_gate cs ≡ true
    → verdict scan_start cs ≡ (holds is_pod_ready cs && not (fails is_readiness_gate cs))
unfolding scan_conditions
verdict-start [] h g = refl
verdict-start (c ∷ cs) h g =
    ground (arith, verdict-start cs, verdict-seen_ready cs, verdict-seen_gate cs)

-- For a pod that has at most one PodReady condition and at most one readiness gate condition: it is
-- ready exactly if it is not being deleted, its PodReady condition is True, and its gate condition is
-- True or absent. The order of the conditions does not matter.
pub is_pod_lifecycle_ready-holds :
    (pod : Pod)
    → is_unique is_pod_ready pod.conditions ≡ true
    → is_unique is_readiness_gate pod.conditions ≡ true
    → is_pod_lifecycle_ready pod ≡ (
        not pod.deleting
        && (holds is_pod_ready pod.conditions && not (fails is_readiness_gate pod.conditions)))
unfolding is_pod_lifecycle_ready
is_pod_lifecycle_ready-holds pod h g = ground (arith, verdict-start pod.conditions h g)
