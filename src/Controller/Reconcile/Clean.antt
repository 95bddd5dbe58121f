-- ===== src/Controller/Reconcile/Clean.antt =====
-- What holds when `Reconcile` takes the clean finalizer away.
use mathlib.Core.List.{Perm}
use mathlib.Core.Path.{◌∙◌, subst₂}
use resourceconsist.Base.{
  ℕ, String, ◌≡◌, ap, Bool, true, ◌&&◌, List, arith, ◌⊎◌, inl, inr, contains, string_eq, ok,
}
use resourceconsist.Base.Steps.{outcome-ok, >>=-ends}
use resourceconsist.Controller.Client.{Client, IsEmployerPatch, Employer, found, employer_context}
use resourceconsist.Controller.KubeApi.{KubeApi}
use resourceconsist.Controller.Adapter.{Adapter}
use resourceconsist.Controller.Employer.{clean_finalizer}
use resourceconsist.Controller.Sync.{Visits, Synced, call, sync_employer, sync_employees}
use resourceconsist.Controller.Sync.Clean.{
  IsVisits, IsGone, sync_employer-IsGone, sync_employees-IsGone,
}
use resourceconsist.Controller.Sync.Keeps.{AdapterWrites}
use resourceconsist.Controller.Reconcile.{Syncs, is_all_clean, ensure_expected, sync_all, reconcile}
use resourceconsist.Controller.Reconcile.Guard.{HasCleanFlz, reconcile-HasCleanFlz}

module _ (k : Client) (api : KubeApi) (schedule : List ℕ → List ℕ) {R X E : Type 0}
    (a : Adapter k.World R X E) (employer_visits : Visits R) (employee_visits : Visits E) where
  -- The run of `sync_all` from `s` to `t`, in which every sync was clean: the expected finalizers of
  -- the pods are reported gone, and the adapter, asked in the states that the run passes through, has
  -- expected nothing, and had all that it reported as current deleted without a failure.
  pub record IsAllCleared (s : Employer × k.World) (syncs : Syncs R E) (t : Employer × k.World)
      : Type 0 where
    pub all_clean : is_all_clean syncs ≡ true
    pub s₁ : Employer × k.World
    pub expected_finalizers :
        ensure_expected k api schedule a employer_visits employee_visits s ≡ (ok true, s₁)
    pub s₂ : Employer × k.World
    pub expects : List R
    pub expected_employer : call k api schedule a.get_expected_employer s₁ ≡ (ok expects, s₂)
    pub s₃ : Employer × k.World
    pub currents : List R
    pub current_employer : call k api schedule a.get_current_employer s₂ ≡ (ok currents, s₃)
    pub employers_gone :
        IsGone a.employer_methods.get_employer_id a.employer_methods.employer_equal employer_visits
          a.create_employer a.update_employer a.delete_employer expects currents s₃ syncs.employer
    pub s₄ : Employer × k.World
    pub employer_synced :
        sync_employer k api schedule a employer_visits expects currents s₃ ≡ (ok syncs.employer, s₄)
    pub s₅ : Employer × k.World
    pub expects' : List E
    pub expected_employees : call k api schedule a.get_expected_employee s₄ ≡ (ok expects', s₅)
    pub s₆ : Employer × k.World
    pub currents' : List E
    pub current_employees : call k api schedule a.get_current_employee s₅ ≡ (ok currents', s₆)
    pub employees_gone :
        IsGone a.employee_methods.get_employee_id a.employee_methods.employee_equal employee_visits
          a.create_employees a.update_employees a.delete_employees expects' currents' s₆
          syncs.employees
    pub employees_synced :
        sync_employees k api schedule a employee_visits expects' currents' s₆
        ≡ (ok syncs.employees, t)

  all_cleared :
      IsVisits employer_visits
      → IsVisits employee_visits
      → (s s₁ s₂ s₃ s₄ s₅ s₆ t : Employer × k.World) (expected_clean : Bool) (er cr : List R)
        (r : Synced R) (ee ce : List E) (q : Synced E)
      → (r.is_clean && (q.is_clean && expected_clean)) ≡ true
      → ensure_expected k api schedule a employer_visits employee_visits s ≡ (ok expected_clean, s₁)
      → call k api schedule a.get_expected_employer s₁ ≡ (ok er, s₂)
      → call k api schedule a.get_current_employer s₂ ≡ (ok cr, s₃)
      → sync_employer k api schedule a employer_visits er cr s₃ ≡ (ok r, s₄)
      → call k api schedule a.get_expected_employee s₄ ≡ (ok ee, s₅)
      → call k api schedule a.get_current_employee s₅ ≡ (ok ce, s₆)
      → sync_employees k api schedule a employee_visits ee ce s₆ ≡ (ok q, t)
      → IsAllCleared s
          (record { is_expected_clean = expected_clean; employer = r; employees = q })
          t
  all_cleared employer_ranges employee_ranges s s₁ s₂ s₃ s₄ s₅ s₆ t expected_clean er cr r ee ce q
        clean e₁ e₂ e₃ e₄ e₅ e₆ e₇ =
      record {
        all_clean = clean;
        s₁ = s₁;
        expected_finalizers = e₁ ∙ ap (λ b. (ok b, s₁)) (ground (arith, clean));
        s₂ = s₂;
        expects = er;
        expected_employer = e₂;
        s₃ = s₃;
        currents = cr;
        current_employer = e₃;
        employers_gone =
            sync_employer-IsGone k api schedule a employer_visits employer_ranges er cr s₃ s₄ r e₄
              (ground (arith, clean));
        s₄ = s₄;
        employer_synced = e₄;
        s₅ = s₅;
        expects' = ee;
        expected_employees = e₅;
        s₆ = s₆;
        currents' = ce;
        current_employees = e₆;
        employees_gone =
            sync_employees-IsGone k api schedule a employee_visits employee_ranges ee ce s₆ t q e₇
              (ground (arith, clean));
        employees_synced = e₇;
      }

  sync_all-IsAllCleared :
      IsVisits employer_visits
      → IsVisits employee_visits
      → (s t : Employer × k.World) (syncs : Syncs R E)
      → sync_all k api schedule a employer_visits employee_visits s ≡ (ok syncs, t)
      → is_all_clean syncs ≡ true
      → IsAllCleared s syncs t
  unfolding sync_all
  sync_all-IsAllCleared employer_ranges employee_ranges s t syncs h clean =
      >>=-ends _ _ s Cleared
        (λ expected_clean s₁ e₁. >>=-ends _ _ s₁ Cleared (λ er s₂ e₂.
          >>=-ends _ _ s₂ Cleared (λ cr s₃ e₃. >>=-ends _ _ s₃ Cleared (λ r s₄ e₄.
            >>=-ends _ _ s₄ Cleared (λ ee s₅ e₅. >>=-ends _ _ s₅ Cleared (λ ce s₆ e₆.
              >>=-ends _ _ s₆ Cleared (λ q s₇ e₇ syncs t h₇ clean.
                subst₂ (IsAllCleared s) (outcome-ok h₇) (ap (λ o. o.1) h₇) (
                  all_cleared employer_ranges employee_ranges s s₁ s₂ s₃ s₄ s₅ s₆ s₇ expected_clean
                    er cr r ee ce q (ap is_all_clean (outcome-ok h₇) ∙ clean) e₁ e₂ e₃ e₄ e₅ e₆
                    e₇))))))))
        syncs t h clean
    where
      Cleared : Syncs R E → Employer × k.World → Type 0
      Cleared syncs t = is_all_clean syncs ≡ true → IsAllCleared s syncs t

-- If the stored employer has the clean finalizer, then it still has it after `Reconcile`, unless the
-- syncs of this run have ended without an error and all clean, and the employer is being deleted. In
-- such a run the expected finalizers of the pods are reported gone, the adapter expects no employers
-- and no employees when it is asked, and all those that it then reports as current, of several with
-- one id the last, are asked to be deleted without a failure. No call of the adapter takes the
-- finalizer away from the stored employer.
pub reconcile-guard_clean :
    (k : Client)
    → IsEmployerPatch k
    → (api : KubeApi) (schedule : List ℕ → List ℕ) → ((is : List ℕ) → Perm (schedule is) is)
    → {R X E : Type 0} (a : Adapter k.World R X E) (employer_visits : Visits R)
      (employee_visits : Visits E)
    → IsVisits employer_visits
    → IsVisits employee_visits
    → (ns name : String) (w : k.World) (e : Employer)
    → AdapterWrites a (HasCleanFlz k a.options.multi_cluster ns name)
    → k.get_employer (employer_context a.options.multi_cluster) ns name w ≡ found e
    → contains e.finalizers clean_finalizer ≡ true
    → HasCleanFlz k a.options.multi_cluster ns name
        (reconcile k api schedule a employer_visits employee_visits ns name w).1
      ⊎ ((syncs : Syncs R E) × (t : Employer × k.World) × (sync_all k api schedule a employer_visits
              employee_visits
              (e, w)
            ≡ (ok syncs, t))
          × (t.0.deleting ≡ true)
          × IsAllCleared k api schedule a employer_visits employee_visits (e, w) syncs t)
reconcile-guard_clean k patches api schedule fair a employer_visits employee_visits employer_ranges
      employee_ranges ns name w e adapter h has =
    elim (reconcile-HasCleanFlz k patches api schedule fair a employer_visits employee_visits ns
      name w e adapter h has) [
        | inl kept ↦ inl kept
        | inr (syncs, t, ended, clean, dying) ↦ inr (
          syncs,
          t,
          ended,
          dying,
          sync_all-IsAllCleared k api schedule a employer_visits employee_visits employer_ranges
              employee_ranges (e, w) t syncs ended clean,
        )
      ]
