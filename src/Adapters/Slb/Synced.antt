-- ===== src/Adapters/Slb/Synced.antt =====
-- Which pods have the lifecycle finalizer after a sync of the SLB adapter.
use mathlib.Core.List.{Perm}
use mathlib.Core.Path.{◌∙◌, subst}
use resourceconsist.Base.{
  ℕ, String, ◌≡◌, ◌≢◌, refl, Bool, false, not, ◌&&◌, Option, none, some, List, arith, ok, contains,
  string_eq, Bool-cases, inl, inr,
}
use resourceconsist.Base.Text.Rounds.{contains-append}
use resourceconsist.Controller.Types.{Pod}
use resourceconsist.Controller.Client.{Client, ReadsOwn, IsPodStore, IsPodPatch, Employer}
use resourceconsist.Controller.KubeApi.{KubeApi}
use resourceconsist.Controller.Finalizer.Effect.{HasFlz}
use resourceconsist.Controller.ExpectedFinalizer.{lifecycle_finalizer}
use resourceconsist.Controller.Sync.{Visits, Synced, sync_employees}
use resourceconsist.Controller.Sync.Clean.{IsVisits}
use resourceconsist.Controller.Sync.Parts.{Forgets, unready_names}
use resourceconsist.Controller.Sync.Lifecycle.{sync_employees-IsEnsured}
use resourceconsist.Adapters.Slb.{
  AlibabaSlbPodStatus, SlbApi, selected_pods, labelled_servers, get_expected_employee,
  get_current_employee, slb_controller_adapter,
}
use resourceconsist.Adapters.Slb.Serving.{Serves, slb_sync-Serves}

pub one_cluster : ◌≢◌ {A = Option Bool} none (some false)
one_cluster h = cc h

module _ (k : Client) (store : IsPodStore k) (patches : IsPodPatch k) (api : KubeApi)
    (schedule : List ℕ → List ℕ) (fair : (is : List ℕ) → Perm (schedule is) is)
    (is_ip : String → Bool) (slb : SlbApi k.World) (visits : Visits AlibabaSlbPodStatus)
    (ranges : IsVisits visits) (own : ReadsOwn k) where
  -- The pod of this name, if there is one, has the lifecycle finalizer, or does not have it.
  abbrev pub Guarded : Employer → Bool → String → k.World → Type 0
  Guarded e b n w =
      HasFlz k store none e.namespace (lifecycle_finalizer api e.name) one_cluster b n w

  -- The names that are recorded and that the Service does not select in the state `w`.
  abbrev pub Forgotten : Employer → k.World → List String → Type 0
  Forgotten e w forget = Forgets k api schedule (slb_controller_adapter is_ip slb) e w forget

  -- If a sync of what the adapter has read ends well, then a pod that is ready and behind the load
  -- balancer has the lifecycle finalizer afterwards, unless its name is recorded and not selected any
  -- more, and a pod that is neither does not have it. Of several pods with one address the last
  -- counts, and no two of these that have one name differ in this. The selected names are those of the
  -- state in which the sync began. Each call that takes the finalizer off a pod reads its own `err`.
  pub slb_sync-Guarded :
      (e : Employer) (w : k.World) (pods : List Pod) (servers : List String)
      (xs ys : List AlibabaSlbPodStatus) (r : Synced AlibabaSlbPodStatus) (t : Employer × k.World)
      (b : Bool) (n : String)
      → selected_pods is_ip slb e w ≡ ok pods
      → labelled_servers is_ip slb e w ≡ ok servers
      → get_expected_employee is_ip slb e w ≡ ok xs
      → get_current_employee is_ip slb e w ≡ ok ys
      → sync_employees k api schedule (slb_controller_adapter is_ip slb) visits xs ys (e, w)
        ≡ (ok r, t)
      → Serves is_ip servers pods b n
      → ((c : Bool) → Serves is_ip servers pods c n → c ≡ b)
      → (forget : List String) × Forgotten e w forget
        × Guarded e (b && not (contains forget n)) n t.1
  slb_sync-Guarded e w pods servers xs ys r t b n listed labelled expected current synced there
        one =
      let a = slb_controller_adapter is_ip slb in
      let (cud, diffed, forget, forgets, i) =
        sync_employees-IsEnsured k store patches api schedule fair a one_cluster own visits xs ys e
          w r t refl synced in
      let (ready, unready) =
        slb_sync-Serves k api schedule is_ip slb visits ranges e w pods servers xs ys r t listed
          labelled expected current synced n in
      let names = unready_names k api schedule a r in
      (
        forget,
        forgets,
        elim (Bool-cases (contains forget n)) [
          | inl forgotten ↦
              subst (λ c. Guarded e c n t.1) (ground (arith, forgotten))
                (i.deleted n (contains-append names forget n ∙ ground (arith, forgotten)))
          | inr kept ↦ elim (Bool-cases b) [
            | inl both ↦
                subst (λ c. Guarded e c n t.1) (ground (arith, both, kept))
                  (i.added n (ready.1 (subst (λ c. Serves is_ip servers pods c n) both there))
                    (elim (Bool-cases (contains names n)) [
                      | inl asked ↦ cc (one false (unready.0 asked), both)
                      | inr other ↦ contains-append names forget n ∙ ground (arith, other, kept)
                    ]))
            | inr neither ↦
                subst (λ c. Guarded e c n t.1) (ground (arith, neither))
                  (i.deleted n (
                    contains-append names forget n
                    ∙ ground (
                      arith,
                      unready.1 (subst (λ c. Serves is_ip servers pods c n) neither there),
                    )))
          ]
        ],
      )
