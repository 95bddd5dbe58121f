-- ===== src/Adapters/Slb/Guard.antt =====
-- Which lifecycle finalizers a sync of the SLB adapter asks for.
use mathlib.Core.Path.{◌∙◌, sym}
use resourceconsist.Base.{
  ℕ, String, ◌≡◌, refl, ap, Bool, true, false, ◌&&◌, ◌||◌, none, some, List, [], ◌∷◌, arith, ◌==◌,
  string_eq, bool_eq, Outcome, ok, contains, is_empty, Bool-cases, inl, inr,
}
use resourceconsist.Base.Steps.{outcome-ok, >>=-ends, wrap_error, wrap_error-ok}
use resourceconsist.Controller.Client.{Client, Employer}
use resourceconsist.Controller.KubeApi.{KubeApi}
use resourceconsist.Controller.Diff.{ToCud, diff}
use resourceconsist.Controller.Diff.Buckets.{find, NodupIds}
use resourceconsist.Controller.Lifecycle.Names.{names_by_readiness}
use resourceconsist.Controller.Sync.{Visits, Synced, call, sync_employees}
use resourceconsist.Adapters.Slb.{
  AlibabaSlbPodStatus, SlbApi, employee_equal, employee_methods, slb_controller_adapter,
}
use resourceconsist.Adapters.Slb.Traffic.{id_of}

module _ (k : Client) (api : KubeApi) (schedule : List ℕ → List ℕ) (is_ip : String → Bool)
    (slb : SlbApi k.World) (visits : Visits AlibabaSlbPodStatus) where
  -- What a sync that has ended well made of the diff: this adapter lets every call fail.
  pub record SlbRun (xs ys : List AlibabaSlbPodStatus) (r : Synced AlibabaSlbPodStatus)
      : Type 0 where
    pub cud : ToCud AlibabaSlbPodStatus
    pub diffed : diff id_of employee_equal visits.expected visits.current xs ys ≡ ok cud
    pub created : r.results.succ_created ≡ []
    pub updated : r.results.succ_updated ≡ []
    pub deleted : r.results.succ_deleted ≡ []
    pub unchanged : r.results.unchanged ≡ cud.unchanged
    pub clean : r.is_clean ≡ (
        is_empty cud.to_create
        && (is_empty cud.to_update && (is_empty cud.unchanged && is_empty cud.to_delete)))

  call-ended :
      (f : Employer
        → k.World
        → Outcome (List AlibabaSlbPodStatus × List AlibabaSlbPodStatus) × k.World)
      (prefix : String) (s t : Employer × k.World)
      (r q : List AlibabaSlbPodStatus × List AlibabaSlbPodStatus)
      → wrap_error prefix (call k api schedule f) s ≡ (ok r, t)
      → (f s.0 s.1).0 ≡ ok q
      → r ≡ q
  call-ended f prefix s t r q h gave =
      ok-same (sym (ap (λ p. p.0) (wrap_error-ok prefix (call k api schedule f) s t r h)) ∙ gave)
    where
      ok-same : {A : Type 0} {x y : A} → ok x ≡ ok y → x ≡ y
      ok-same h = cc

  pub sync-SlbRun :
      (xs ys : List AlibabaSlbPodStatus) (s t : Employer × k.World) (r : Synced AlibabaSlbPodStatus)
      → sync_employees k api schedule (slb_controller_adapter is_ip slb) visits xs ys s ≡ (ok r, t)
      → SlbRun xs ys r
  unfolding sync_employees
  sync-SlbRun xs ys s t r h =
      let a = slb_controller_adapter is_ip slb in
      >>=-ends _ _ s Run
        (λ cud s₁ diffed. >>=-ends _ _ s₁ Run (λ created s₂ e₂.
          >>=-ends _ _ s₂ Run (λ updated s₃ e₃. >>=-ends _ _ s₃ Run (λ deleted s₄ e₄.
            >>=-ends _ _ s₄ Run (λ flz s₅ e₅. >>=-ends _ _ s₅ Run (λ forget s₆ e₆.
              >>=-ends _ _ s₆ Run (λ u s₇ e₇. >>=-ends _ _ s₇ Run (λ v s₈ e₈ r t h₈.
                let p₂ =
                  call-ended (a.create_employees cud.to_create) "syncCreate failed, err: " s₁ s₂
                    created ([], cud.to_create) e₂ refl in
                let p₃ =
                  call-ended (a.update_employees cud.to_update) "syncUpdate failed, err: " s₂ s₃
                    updated ([], cud.to_update) e₃ refl in
                let p₄ =
                  call-ended (a.delete_employees cud.to_delete) "syncDelete failed, err: " s₃ s₄
                    deleted ([], cud.to_delete) e₄ refl in
                let same = outcome-ok h₈ in
                record {
                  cud = cud;
                  diffed = ap (λ q. q.0) diffed;
                  created = sym (ap (λ q. q.results.succ_created) same) ∙ ap (λ q. q.0) p₂;
                  updated = sym (ap (λ q. q.results.succ_updated) same) ∙ ap (λ q. q.0) p₃;
                  deleted = sym (ap (λ q. q.results.succ_deleted) same) ∙ ap (λ q. q.0) p₄;
                  unchanged = sym (ap (λ q. q.results.unchanged) same);
                  clean =
                      sym (ap (λ q. q.is_clean) same)
                      ∙ ap
                          (λ q.
                            is_empty cud.to_create
                            && (is_empty cud.to_update && (is_empty cud.unchanged && is_empty q.1)))
                          p₄;
                }))))))))
        r t h
    where
      Run : Synced AlibabaSlbPodStatus → Employer × k.World → Type 0
      Run r t = SlbRun xs ys r

-- An employee with this name and readiness is found under its id.
abbrev pub Named : Bool → List AlibabaSlbPodStatus → String → Type 0
Named b xs n =
    (x : AlibabaSlbPodStatus) × (find id_of x.employee_id xs ≡ some x)
    × (x.employee_name ≡ n)
    × (x.employee_statuses.lifecycle_ready ≡ b)

Named-tail :
    (b : Bool) (x : AlibabaSlbPodStatus) (xs : List AlibabaSlbPodStatus) (n : String)
    → find id_of x.employee_id xs ≡ none
    → Named b xs n
    → Named b (x ∷ xs) n
Named-tail b x xs n fresh (y, there, named, ready) =
    elim (string_eq.dec x.employee_id y.employee_id) [
      | yes same ↦ cc (fresh, ap (λ id. find id_of id xs) same, there)
      | no other ↦ (y, ground (arith, other, there), named, ready)
    ]

abbrev pub names_with : Bool → List AlibabaSlbPodStatus → List String
names_with = names_by_readiness employee_methods

contains-names_cons :
    (b : Bool) (x : AlibabaSlbPodStatus) (xs : List AlibabaSlbPodStatus) (n : String)
    → contains (names_with b (x ∷ xs)) n ≡ (
        (x.employee_statuses.lifecycle_ready == b) && (x.employee_name == n)
        || contains (names_with b xs) n)
contains-names_cons true x xs n = ground arith
contains-names_cons false x xs n = ground arith

pub contains-Named :
    (b : Bool) (xs : List AlibabaSlbPodStatus) (n : String)
    → NodupIds id_of xs
    → contains (names_with b xs) n ≡ true
    → Named b xs n
contains-Named b [] n u h = cc
contains-Named b (x ∷ xs) n (fresh, u) h =
    elim (Bool-cases ((x.employee_statuses.lifecycle_ready == b) && (x.employee_name == n))) [
      | inl here ↦ (x, ground arith, ground (arith, here), ground (arith, here))
      | inr other ↦
          Named-tail b x xs n fresh
            (contains-Named b xs n u (ground (arith, h, contains-names_cons b x xs n, other)))
    ]

pub Named-contains :
    (b : Bool) (xs : List AlibabaSlbPodStatus) (n : String)
    → Named b xs n
    → contains (names_with b xs) n ≡ true
Named-contains b [] n (y, there, named, ready) = cc
Named-contains b (x ∷ xs) n (y, there, named, ready) =
    elim (string_eq.dec x.employee_id y.employee_id) [
      | yes same ↦
          let here : x ≡ y = ground (arith, there, same) in
          contains-names_cons b x xs n
          ∙ ground (
            arith,
            ap (λ z. z.employee_name) here ∙ named,
            ap (λ z. z.employee_statuses.lifecycle_ready) here ∙ ready,
          )
      | no other ↦
          contains-names_cons b x xs n
          ∙ ground (arith, Named-contains b xs n (y, ground (arith, there, other), named, ready))
    ]
