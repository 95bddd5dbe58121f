-- ===== src/Adapters/Slb/Traffic.antt =====
-- What the adapter reports as expected and as current, and what a diff of the two asks for.
use mathlib.Core.Path.{◌∙◌, sym, subst₂}
use resourceconsist.Base.{
  String, ◌≡◌, refl, Bool, true, not, Option, none, some, List, [], ◌∷◌, map, arith, if◌then◌else◌,
  ◌==◌, string_eq, bool_eq, Outcome, ok, err, panic, contains, or_else,
}
use resourceconsist.Base.GoMap.{GoMap, get, get-insert, IsRange}
use resourceconsist.Controller.Types.{Pod}
use resourceconsist.Controller.PodStatus.{
  is_pod_lifecycle_ready, get_pod_ipv6_address, get_common_pod_employee_status,
}
use resourceconsist.Controller.Client.{Employer}
use resourceconsist.Controller.Diff.{ToCud, diff}
use resourceconsist.Controller.Diff.Buckets.{NodupIds, find, find_last, eq_nil_of_find}
use resourceconsist.Controller.Diff.Loops.{is_missing, is_changed, is_same}
use resourceconsist.Controller.Diff.Partition.{select, IsPartition, diff-IsPartition}
use resourceconsist.Controller.Diff.Progress.{EqualEnds, DiffEnds, diff-DiffEnds}
use resourceconsist.Adapters.Slb.Equal.{employee_equal-Same}
use resourceconsist.Adapters.Slb.{
  extra_eq, AlibabaSlbPodStatus, employee_equal, employee_equal_to, exist_under_slb, value_or_false,
  expected_statuses, current_statuses, SlbApi, selected_pods, labelled_servers,
  get_expected_employee, get_current_employee,
}

get-exist_under_slb :
    (servers : List String) (ip : String)
    → value_or_false (get ip (exist_under_slb servers)) ≡ contains servers ip
unfolding exist_under_slb get
get-exist_under_slb [] ip = refl
get-exist_under_slb (s ∷ servers) ip =
    ground (arith, get-exist_under_slb servers ip, get-insert ip s true (exist_under_slb servers))

abbrev pub id_of : AlibabaSlbPodStatus → String
id_of s = s.employee_id

module _ (is_ip : String → Bool) where
  -- An employee for a pod, which gets traffic or does not.
  unfoldable pub status_of : Bool → Pod → AlibabaSlbPodStatus
  status_of traffic pod = record {
    employee_id = pod.pod_ip;
    employee_name = pod.name;
    employee_statuses = record {
      ip = pod.pod_ip;
      ipv6 = get_pod_ipv6_address is_ip (some pod);
      lifecycle_ready = is_pod_lifecycle_ready pod;
      extra_status = some (record { traffic_on = traffic });
    };
  }

  abbrev pub expected_of : Pod → AlibabaSlbPodStatus
  expected_of pod = status_of (is_pod_lifecycle_ready pod) pod

  abbrev pub current_of : List String → Pod → AlibabaSlbPodStatus
  current_of servers pod = status_of (contains servers pod.pod_ip) pod

  expected_statuses-map :
      (pods : List Pod) → expected_statuses is_ip pods ≡ ok (map expected_of pods)
  unfolding expected_statuses get_common_pod_employee_status status_of
  expected_statuses-map [] = refl
  expected_statuses-map (pod ∷ pods) = rw (expected_statuses-map pods) refl

  current_statuses-map :
      (servers : List String) (pods : List Pod)
      → current_statuses is_ip (exist_under_slb servers) pods ≡ ok (map (current_of servers) pods)
  unfolding current_statuses get_common_pod_employee_status status_of
  current_statuses-map servers [] = refl
  current_statuses-map servers (pod ∷ pods) =
      rw (current_statuses-map servers pods, get-exist_under_slb servers pod.pod_ip) refl

  -- The pod is ready exactly if it is behind the load balancer.
  abbrev pub is_settled : List String → Pod → Bool
  is_settled servers pod = is_pod_lifecycle_ready pod == contains servers pod.pod_ip

  employee_equal-status_of :
      (servers : List String) (pod : Pod)
      → employee_equal (expected_of pod) (current_of servers pod) ≡ ok (is_settled servers pod)
  unfolding employee_equal employee_equal_to status_of
  employee_equal-status_of servers pod = ground arith

  abbrev pub mapped : (Pod → AlibabaSlbPodStatus) → Option Pod → Option AlibabaSlbPodStatus
  mapped f none = none
  mapped f (some pod) = some (f pod)

  -- The last of the pods with this address.
  abbrev pub last_with : String → List Pod → Option Pod
  last_with ip pods = find_last (λ (p : Pod). p.pod_ip) ip pods

  find_last-map :
      (traffic : Pod → Bool) (ip : String) (pods : List Pod)
      → find_last id_of ip (map (λ p. status_of (traffic p) p) pods)
        ≡ mapped (λ p. status_of (traffic p) p) (last_with ip pods)
  unfolding or_else status_of
  find_last-map traffic ip [] = refl
  find_last-map traffic ip (pod ∷ pods) = ground (arith, find_last-map traffic ip pods)

  -- What is picked of a pod, if there is one.
  abbrev pub picked_of : (Pod → Bool) → Option Pod → Option AlibabaSlbPodStatus
  picked_of pick none = none
  picked_of pick (some pod) = if pick pod then some (expected_of pod) else none

  -- A diff asks for nothing to be created or deleted. Of the pods with one address the last counts:
  -- it is unchanged if it is settled, and is to be updated otherwise.
  pub record IsTrafficDiff (servers : List String) (pods : List Pod) (r : ToCud AlibabaSlbPodStatus)
      : Type 0 where
    pub creates : r.to_create ≡ []
    pub deletes : r.to_delete ≡ []
    pub same :
        (ip : String)
        → find id_of ip r.unchanged ≡ picked_of (is_settled servers) (last_with ip pods)
    pub updates :
        (ip : String)
        → find id_of ip r.to_update
          ≡ picked_of (λ p. not (is_settled servers p)) (last_with ip pods)
    pub same-NodupIds : NodupIds id_of r.unchanged

  module _ (visit_expected visit_current : GoMap AlibabaSlbPodStatus → GoMap AlibabaSlbPodStatus)
      (range_expected : IsRange visit_expected) (range_current : IsRange visit_current)
      (servers : List String) (pods : List Pod) where
    abbrev expects : List AlibabaSlbPodStatus
    expects = map expected_of pods

    abbrev currents : List AlibabaSlbPodStatus
    currents = map (current_of servers) pods

    -- What the four lists of a diff select of an expected and a current employee.
    abbrev Selected : Option AlibabaSlbPodStatus → Option AlibabaSlbPodStatus → Option Pod → Type 0
    Selected x y o =
        (select id_of is_missing x y ≡ none)
        × (select id_of is_missing y x ≡ none)
        × (select id_of (is_same employee_equal) x y ≡ picked_of (is_settled servers) o)
        × (select id_of (is_changed employee_equal) x y
            ≡ picked_of (λ p. not (is_settled servers p)) o)

    mapped-Selected :
        (o : Option Pod) → Selected (mapped expected_of o) (mapped (current_of servers) o) o
    mapped-Selected none = (refl, refl, refl, refl)
    mapped-Selected (some pod) =
        let compared = employee_equal-status_of servers pod in
        (refl, refl, rw (compared, is_same) refl, rw (compared, is_changed) refl)

    find_last-Selected :
        (ip : String)
        → Selected (find_last id_of ip expects) (find_last id_of ip currents) (last_with ip pods)
    find_last-Selected ip =
        subst₂ (λ x y. Selected x y (last_with ip pods))
          (sym (find_last-map is_pod_lifecycle_ready ip pods))
          (sym (find_last-map (λ p. contains servers p.pod_ip) ip pods))
          (mapped-Selected (last_with ip pods))

    partition-IsTrafficDiff :
        (r : ToCud AlibabaSlbPodStatus)
        → IsPartition id_of employee_equal expects currents r
        → IsTrafficDiff servers pods r
    partition-IsTrafficDiff r p = record {
      creates = eq_nil_of_find id_of r.to_create (λ ip. p.creates ip ∙ (find_last-Selected ip).0);
      deletes = eq_nil_of_find id_of r.to_delete (λ ip. p.deletes ip ∙ (find_last-Selected ip).1);
      same = λ ip. p.same ip ∙ (find_last-Selected ip).2;
      updates = λ ip. p.updates ip ∙ (find_last-Selected ip).3;
      same-NodupIds = p.same-NodupIds;
    }

    DiffEnds-ok :
        (m : Outcome (ToCud AlibabaSlbPodStatus))
        → DiffEnds id_of employee_equal expects currents m
        → (r : ToCud AlibabaSlbPodStatus) × (m ≡ ok r)
    DiffEnds-ok (ok r) h = (r, refl)
    DiffEnds-ok (err e) h = absurd (never_err h)
      where
        never_err : EqualEnds id_of employee_equal expects currents (err e) → ⊥
        never_err h =
            let (b, ended, _) = employee_equal-Same h.expect h.now in cc (ended, h.outcome)
    DiffEnds-ok panic h = absurd (never_panics h)
      where
        never_panics : EqualEnds id_of employee_equal expects currents panic → ⊥
        never_panics h =
            let (b, ended, _) = employee_equal-Same h.expect h.now in cc (ended, h.outcome)

    module _ {W : Type 0} (slb : SlbApi W) where
      -- Once the pods can be listed and the servers behind the load balancer be read, GetExpectedEmployee
      -- and GetCurrentEmployee return lists, and a diff of the two ends well, whatever the orders in
      -- which its maps are ranged over. Nothing is to be created or deleted. Of the pods with one
      -- address the last counts: it is unchanged if it is ready and behind the load balancer or neither,
      -- and is to be updated otherwise.
      pub slb_diff-IsTrafficDiff :
          (e : Employer) (w : W)
          → selected_pods is_ip slb e w ≡ ok pods
          → labelled_servers is_ip slb e w ≡ ok servers
          → (xs ys : List AlibabaSlbPodStatus) × (r : ToCud AlibabaSlbPodStatus)
            × (get_expected_employee is_ip slb e w ≡ ok xs)
            × (get_current_employee is_ip slb e w ≡ ok ys)
            × (diff id_of employee_equal visit_expected visit_current xs ys ≡ ok r)
            × IsTrafficDiff servers pods r
      unfolding get_expected_employee get_current_employee
      slb_diff-IsTrafficDiff e w listed labelled =
          let (r, diffed) =
            DiffEnds-ok (diff id_of employee_equal visit_expected visit_current expects currents) (
              diff-DiffEnds id_of employee_equal visit_expected visit_current range_expected
                range_current expects currents) in
          (
            expects,
            currents,
            r,
            rw listed (expected_statuses-map pods),
            rw (listed, labelled) (current_statuses-map servers pods),
            diffed,
            partition-IsTrafficDiff r (
                diff-IsPartition id_of employee_equal visit_expected visit_current range_expected
                  range_current expects currents r diffed),
          )
