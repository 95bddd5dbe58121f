-- ===== src/Adapters/Slb/Serving.antt =====
-- What a sync of the SLB adapter does with the pods that it reads.
use mathlib.Core.Path.{◌∙◌, sym, subst}
use resourceconsist.Base.{
  ℕ, String, ◌≡◌, ◌↔◌, refl, ap, Bool, true, false, not, Option, none, some, List, [], ◌∷◌, arith,
  string_eq, bool_eq, ok, contains, is_empty, Bool-cases, inl, inr,
}
use resourceconsist.Controller.Types.{Pod}
use resourceconsist.Controller.PodStatus.{is_pod_lifecycle_ready}
use resourceconsist.Controller.Client.{Client, Employer}
use resourceconsist.Controller.KubeApi.{KubeApi}
use resourceconsist.Controller.Diff.{ToCud}
use resourceconsist.Controller.Diff.Buckets.{find}
use resourceconsist.Controller.Diff.Clean.{eq_nil_of_find_last}
use resourceconsist.Controller.Sync.{Visits, Synced, sync_employees}
use resourceconsist.Controller.Sync.Clean.{IsVisits}
use resourceconsist.Controller.Sync.Parts.{ready_names, unready_names}
use resourceconsist.Adapters.Slb.{
  AlibabaSlbPodStatus, SlbApi, selected_pods, labelled_servers, get_expected_employee,
  get_current_employee, slb_controller_adapter,
}
use resourceconsist.Adapters.Slb.Traffic.{
  id_of, status_of, expected_of, last_with, is_settled, picked_of, IsTrafficDiff,
  slb_diff-IsTrafficDiff,
}
use resourceconsist.Adapters.Slb.Guard.{
  SlbRun, sync-SlbRun, names_with, contains-Named, Named-contains,
}

module _ (is_ip : String → Bool) (servers : List String) (pods : List Pod) where
  -- A pod of this name, the last with its address, is ready and behind the load balancer, or neither.
  abbrev pub Serves : Bool → String → Type 0
  Serves b n =
      (pod : Pod) × (last_with is_ip pod.pod_ip pods ≡ some pod)
      × (pod.name ≡ n)
      × (is_pod_lifecycle_ready pod ≡ b)
      × (contains servers pod.pod_ip ≡ b)

  abbrev picked : Option Pod → Option AlibabaSlbPodStatus
  picked = picked_of is_ip (is_settled is_ip servers)

  Serves-picked :
      (b : Bool) (n : String) (x : AlibabaSlbPodStatus) (o : Option Pod)
      → last_with is_ip x.employee_id pods ≡ o
      → picked o ≡ some x
      → x.employee_name ≡ n
      → x.employee_statuses.lifecycle_ready ≡ b
      → Serves b n
  unfolding status_of
  Serves-picked b n x none last h named ready = cc
  Serves-picked b n x (some pod) last h named ready =
      elim (Bool-cases (is_settled is_ip servers pod)) [
        | inr unsettled ↦ cc (rw unsettled at h)
        | inl settled ↦
            let same : expected_of is_ip pod ≡ x = cc (rw settled at h) in
            let is_ready = ap (λ z. z.employee_statuses.lifecycle_ready) same ∙ ready in
            (
              pod,
              ap (λ z. last_with is_ip z.employee_id pods) same ∙ last,
              ap (λ z. z.employee_name) same ∙ named,
              is_ready,
              ground (arith, settled, is_ready),
            )
      ]

  module _ (r : ToCud AlibabaSlbPodStatus) (d : IsTrafficDiff is_ip servers pods r) where
    contains-Serves :
        (b : Bool) (n : String) → (contains (names_with b r.unchanged) n ≡ true) ↔ Serves b n
    unfolding status_of
    contains-Serves b n = (
      λ h.
          let (x, there, named, ready) = contains-Named b r.unchanged n d.same-NodupIds h in
          Serves-picked b n x (last_with is_ip x.employee_id pods) refl
            (sym (d.same x.employee_id) ∙ there) named ready,
      λ (pod, last, named, ready, behind). Named-contains b r.unchanged n (
        expected_of is_ip pod,
        d.same pod.pod_ip ∙ (ap picked last ∙ ground (arith, ready, behind)),
        named,
        ready,
      ),
    )

    none_last :
        (o : Option Pod)
        → picked o ≡ none
        → picked_of is_ip (λ p. not (is_settled is_ip servers p)) o ≡ none
        → o ≡ none
    none_last none p q = refl
    none_last (some pod) p q = elim (Bool-cases (is_settled is_ip servers pod)) [
      | inl settled ↦ cc (rw settled at p)
      | inr unsettled ↦ cc (rw unsettled at q)
    ]

    no_pods : r.unchanged ≡ [] → r.to_update ≡ [] → pods ≡ []
    no_pods same updates =
        eq_nil_of_find_last (λ (p : Pod). p.pod_ip) pods
          (λ ip.
            none_last (last_with is_ip ip pods) (sym (d.same ip) ∙ ap (find id_of ip) same)
              (sym (d.updates ip) ∙ ap (find id_of ip) updates))

module _ (k : Client) (api : KubeApi) (schedule : List ℕ → List ℕ) (is_ip : String → Bool)
    (slb : SlbApi k.World) (visits : Visits AlibabaSlbPodStatus) (ranges : IsVisits visits) where
  -- The diff of a sync of what the adapter has read.
  run-IsTrafficDiff :
      (e : Employer) (w : k.World) (pods : List Pod) (servers : List String)
      (xs ys : List AlibabaSlbPodStatus) (r : Synced AlibabaSlbPodStatus)
      → selected_pods is_ip slb e w ≡ ok pods
      → labelled_servers is_ip slb e w ≡ ok servers
      → get_expected_employee is_ip slb e w ≡ ok xs
      → get_current_employee is_ip slb e w ≡ ok ys
      → (run : SlbRun k api schedule is_ip slb visits xs ys r)
      → IsTrafficDiff is_ip servers pods run.cud
  run-IsTrafficDiff e w pods servers xs ys r listed labelled expected current run =
      let (xs', ys', cud, expected', current', diffed, d) =
        slb_diff-IsTrafficDiff is_ip visits.expected visits.current ranges.expected ranges.current
          servers pods slb e w listed labelled in
      let same_xs : xs' ≡ xs = cc (expected, expected') in
      let same_ys : ys' ≡ ys = cc (current, current') in
      let same : cud ≡ run.cud = cc (diffed, run.diffed, same_xs, same_ys) in
      subst (IsTrafficDiff is_ip servers pods) same d

  module _ (e : Employer) (w : k.World) (pods : List Pod) (servers : List String)
      (xs ys : List AlibabaSlbPodStatus) (r : Synced AlibabaSlbPodStatus) (t : Employer × k.World)
      (listed : selected_pods is_ip slb e w ≡ ok pods)
      (labelled : labelled_servers is_ip slb e w ≡ ok servers)
      (expected : get_expected_employee is_ip slb e w ≡ ok xs)
      (current : get_current_employee is_ip slb e w ≡ ok ys)
      (synced : sync_employees k api schedule (slb_controller_adapter is_ip slb) visits xs ys (e, w)
        ≡ (ok r, t)) where
    abbrev run : SlbRun k api schedule is_ip slb visits xs ys r
    run = sync-SlbRun k api schedule is_ip slb visits xs ys (e, w) t r synced

    abbrev diff_of : IsTrafficDiff is_ip servers pods run.cud
    diff_of = run-IsTrafficDiff e w pods servers xs ys r listed labelled expected current run

    -- The ready and the unready names of the results of a sync of what the adapter has read, as pods:
    -- those that are ready and behind the load balancer, and those that are neither.
    pub slb_sync-Serves :
        (n : String)
        → ((contains (ready_names k api schedule (slb_controller_adapter is_ip slb) r) n ≡ true)
            ↔ Serves is_ip servers pods true n)
          × ((contains (unready_names k api schedule (slb_controller_adapter is_ip slb) r) n ≡ true)
              ↔ Serves is_ip servers pods false n)
    slb_sync-Serves n =
        let p = run in
        let ready : contains (ready_names k api schedule (slb_controller_adapter is_ip slb) r) n
            ≡ contains (names_with true p.cud.unchanged) n =
          rw (p.created, p.updated, p.unchanged) refl in
        let unready : contains (unready_names k api schedule (slb_controller_adapter is_ip slb) r) n
            ≡ contains (names_with false p.cud.unchanged) n =
          rw (p.deleted, p.updated, p.unchanged) refl in
        let (to, from) = contains-Serves is_ip servers pods p.cud diff_of true n in
        let (to', from') = contains-Serves is_ip servers pods p.cud diff_of false n in
        (
          (λ h. to (sym ready ∙ h), λ s. ready ∙ from s),
          (λ h. to' (sym unready ∙ h), λ s. unready ∙ from' s),
        )

    -- A sync of what the adapter has read is clean only if the Service selects no pod at all, whether
    -- it is being deleted or not.
    pub slb_sync_clean-no_pods : r.is_clean ≡ true → pods ≡ []
    slb_sync_clean-no_pods h =
        let p = run in
        no_pods is_ip servers pods p.cud diff_of
          (eq_nil p.cud.unchanged (ground (arith, h, p.clean)))
          (eq_nil p.cud.to_update (ground (arith, h, p.clean)))
      where
        eq_nil : (xs : List AlibabaSlbPodStatus) → is_empty xs ≡ true → xs ≡ []
        eq_nil [] h = refl
        eq_nil (x ∷ xs) h = cc
