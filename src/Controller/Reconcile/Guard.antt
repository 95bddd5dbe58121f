-- ===== src/Controller/Reconcile/Guard.antt =====
-- What `Reconcile` keeps up to the removal of the clean finalizer.
use mathlib.Core.List.{Perm}
use mathlib.Core.Path.{subst, sym}
use resourceconsist.Base.{
  ℕ, String, ◌≡◌, refl, ap, Bool, true, false, ◌&&◌, Option, none, some, List, GoError, contains,
  string_eq, Outcome, ok, err, panic, ◌∙◌, if_false, ◌⊎◌, inl, inr, Bool-cases, arith,
}
use resourceconsist.Base.Steps.{Keeps, Keeps->>=, >>=-keeps}
use resourceconsist.Controller.Client.{Client, IsEmployerPatch, Employer, found, employer_context}
use resourceconsist.Controller.KubeApi.{KubeApi}
use resourceconsist.Controller.Adapter.{Adapter, StatusRecordOptions}
use resourceconsist.Controller.Employer.{clean_finalizer}
use resourceconsist.Controller.ExpectedFinalizer.{set_annotation}
use resourceconsist.Controller.ExpectedFinalizer.Keeps.{Writes, ensure_expected_finalizer-Keeps}
use resourceconsist.Controller.Sync.{Visits}
use resourceconsist.Controller.Sync.Keeps.{AdapterWrites, sync_employer-Keeps, sync_employees-Keeps}
use resourceconsist.Controller.Reconcile.{
  Syncs, is_all_clean, ensure_expected, sync_all, clean_if_done, record_statuses, reconcile_ensured,
  finish, record_error, reconcile,
}
use resourceconsist.Controller.Reconcile.Early.{is_guarded, reconcile-guarded}

-- The stored employer of this name has the clean finalizer.
abbrev pub HasCleanFlz : (k : Client) → Option Bool → String → String → k.World → Type 0
HasCleanFlz k multi_cluster ns name w =
    (e : Employer) × (k.get_employer (employer_context multi_cluster) ns name w ≡ found e)
    × (contains e.finalizers clean_finalizer ≡ true)

-- A step has one result.
same_result :
    {R E : Type 0} {S : Type 0} {syncs syncs' : Syncs R E} {t t' : Employer × S}
    → ◌≡◌ {A = Outcome (Syncs R E) × (Employer × S)} (ok syncs', t') (ok syncs, t)
    → (is_all_clean syncs && t.0.deleting) ≡ false
    → (is_all_clean syncs' && t'.0.deleting) ≡ false
same_result {R} {E} {S} q h =
    ap
      (λ (r : Outcome (Syncs R E) × (Employer × S)). elim r.0 [
        | ok s ↦ is_all_clean s && r.1.0.deleting
        | err x ↦ false
        | panic ↦ false
      ])
      q
    ∙ h

&&-true : {b c : Bool} → (b && c) ≡ true → (b ≡ true) × (c ≡ true)
&&-true {b} {c} h = (ground arith, ground arith)

module _ (k : Client) (api : KubeApi) (schedule : List ℕ → List ℕ)
    (fair : (is : List ℕ) → Perm (schedule is) is) {R X E : Type 0} (a : Adapter k.World R X E)
    (employer_visits : Visits R) (employee_visits : Visits E) (P : k.World → Type 0)
    (writes : Writes k P) (adapter : AdapterWrites a P) where
  sync_all-Keeps : Keeps (λ s. P s.1) (sync_all k api schedule a employer_visits employee_visits)
  unfolding sync_all ensure_expected
  sync_all-Keeps =
      Keeps->>= (λ s. P s.1) _ _
        (λ s h.
          ensure_expected_finalizer-Keeps k api a.options.multi_cluster schedule fair P writes
            a.options a.get_selected_employee_names adapter.selected s.0 s.1 h)
        (λ clean.
          Keeps->>= (λ s. P s.1) _ _ (λ s h. adapter.expected_employer s.0 s.1 h)
            (λ er.
              Keeps->>= (λ s. P s.1) _ _ (λ s h. adapter.current_employer s.0 s.1 h)
                (λ cr.
                  Keeps->>= (λ s. P s.1) _ _
                    (sync_employer-Keeps k api schedule fair a P writes adapter employer_visits er
                      cr)
                    (λ r.
                      Keeps->>= (λ s. P s.1) _ _ (λ s h. adapter.expected_employee s.0 s.1 h)
                        (λ ee.
                          Keeps->>= (λ s. P s.1) _ _ (λ s h. adapter.current_employee s.0 s.1 h)
                            (λ ce.
                              Keeps->>= (λ s. P s.1) _ _
                                (sync_employees-Keeps k api schedule fair a P writes adapter
                                  employee_visits ee ce)
                                (λ r s h. h)))))))

  record_statuses-Keeps :
      (o : Option (StatusRecordOptions k.World R E)) (syncs : Syncs R E)
      → a.status_record ≡ o
      → Keeps
          (λ s. P s.1)
          (record_statuses k api schedule a employer_visits employee_visits o syncs)
  unfolding record_statuses
  record_statuses-Keeps none syncs q s h = h
  record_statuses-Keeps (some o) syncs q s h =
      adapter.statuses o syncs.employer.results syncs.employees.results s.0 s.1 q h

  record_error-Keeps :
      (o : Option (StatusRecordOptions k.World R E)) (x : GoError) (s : Employer × k.World)
      → a.status_record ≡ o
      → P s.1
      → P (record_error k api schedule a employer_visits employee_visits o x s)
  unfolding record_error
  record_error-Keeps none x (e, w) q h = h
  record_error-Keeps (some o) x (e, w) q h = adapter.error_conditions o x e w q h

  finish-Keeps :
      (r : Outcome Bool × (Employer × k.World))
      → P r.1.1
      → P (finish k api schedule a employer_visits employee_visits r).1
  unfolding finish
  finish-Keeps (ok b, (e, w)) h = h
  finish-Keeps (err x, s) h = record_error-Keeps a.status_record x s refl h
  finish-Keeps (panic, (e, w)) h = h

  clean_if_done-Keeps :
      (all_clean : Bool) (s : Employer × k.World)
      → (all_clean && s.0.deleting) ≡ false
      → P s.1
      → P (clean_if_done k api schedule a employer_visits employee_visits all_clean s).1.1
  unfolding clean_if_done
  clean_if_done-Keeps all_clean (e, w) not_done h =
      subst (λ (q : Option GoError × (Employer × k.World)). P q.1.1)
        (sym (if_false (all_clean && e.deleting) _ _ not_done)) h

  -- All syncs have ended well and found everything clean, and the employer is being deleted.
  abbrev pub IsReleased : Employer × k.World → Type 0
  IsReleased s =
      (syncs : Syncs R E) × (t : Employer × k.World) × (sync_all k api schedule a employer_visits
          employee_visits s
        ≡ (ok syncs, t))
      × (is_all_clean syncs ≡ true)
      × (t.0.deleting ≡ true)

  after_syncs-Keeps :
      (s : Employer × k.World)
      → ((syncs : Syncs R E) (t : Employer × k.World)
          → sync_all k api schedule a employer_visits employee_visits s ≡ (ok syncs, t)
          → (is_all_clean syncs && t.0.deleting) ≡ false)
      → P s.1
      → P (reconcile_ensured k api schedule a employer_visits employee_visits s).1.1
  unfolding reconcile_ensured
  after_syncs-Keeps s blocked h =
      >>=-keeps (sync_all k api schedule a employer_visits employee_visits) _ s (λ s. P s.1)
        (sync_all-Keeps s h)
        (λ syncs t synced p.
          >>=-keeps
            (clean_if_done k api schedule a employer_visits employee_visits (is_all_clean syncs)) _
            t (λ s. P s.1) (clean_if_done-Keeps (is_all_clean syncs) t (blocked syncs t synced) p)
            (λ u t' cleaned p'.
              >>=-keeps
                (record_statuses k api schedule a employer_visits employee_visits a.status_record
                  syncs)
                _ t' (λ s. P s.1) (record_statuses-Keeps a.status_record syncs refl t' p')
                (λ v t'' recorded p''. p'')))

  pub reconcile_ensured-guard :
      (s : Employer × k.World)
      → P s.1
      → P (reconcile_ensured k api schedule a employer_visits employee_visits s).1.1 ⊎ IsReleased s
  reconcile_ensured-guard s h =
      by_syncs (sync_all k api schedule a employer_visits employee_visits s) refl
    where
      by_syncs :
          (r : Outcome (Syncs R E) × (Employer × k.World))
          → sync_all k api schedule a employer_visits employee_visits s ≡ r
          → P (reconcile_ensured k api schedule a employer_visits employee_visits s).1.1
            ⊎ IsReleased s
      by_syncs (err x, t) q = inl (after_syncs-Keeps s (λ syncs t' q'. cc (q, q')) h)
      by_syncs (panic, t) q = inl (after_syncs-Keeps s (λ syncs t' q'. cc (q, q')) h)
      by_syncs (ok syncs, t) q = elim (Bool-cases (is_all_clean syncs && t.0.deleting)) [
        | inl over ↦ let (clean, dying) = &&-true over in inr (syncs, t, q, clean, dying)
        | inr not_over ↦
            inl (after_syncs-Keeps s (λ syncs' t' q'. same_result (sym q' ∙ q) not_over) h)
      ]

  pub reconcile-guard :
      (ns name : String) (w : k.World) (e : Employer)
      → k.get_employer (employer_context a.options.multi_cluster) ns name w ≡ found e
      → is_guarded e ≡ true
      → P w
      → P (reconcile k api schedule a employer_visits employee_visits ns name w).1
        ⊎ IsReleased (e, w)
  reconcile-guard ns name w e h guarded p = elim (reconcile_ensured-guard (e, w) p) [
    | inr over ↦ inr over
    | inl kept ↦ inl (
        subst (λ r. P r.1)
          (sym (
            reconcile-guarded k api schedule a employer_visits employee_visits ns name w e h
              guarded))
          (finish-Keeps _ kept))
  ]

module _ (k : Client) (patches : IsEmployerPatch k) (m : Option Bool) (ns name : String) where
  HasCleanFlz-Writes : Writes k (HasCleanFlz k m ns name)
  HasCleanFlz-Writes = record {
    update_pod = λ c p w (e, at, has).
        (e, patches.employer-update_pod c (employer_context m) p ns name w ∙ at, has);
    patch_pod = λ c p base w (e, at, has).
        (e, patches.employer-patch_pod c (employer_context m) p base ns name w ∙ at, has);
    patch_employer = λ c e key text w (f, at, has).
        let (g, at', same) =
          patches.employer-patch_employer c (employer_context m) (set_annotation key text e) e f ns
            name w refl at in
        (g, at', ap (λ fs. contains fs clean_finalizer) same ∙ has);
  }

-- If the stored employer has the clean finalizer, then it still has it after `Reconcile`, or it is
-- being deleted, all the syncs have ended without an error, and each of them was clean. No call of the
-- adapter takes the finalizer away from the stored employer.
pub reconcile-HasCleanFlz :
    (k : Client)
    → IsEmployerPatch k
    → (api : KubeApi) (schedule : List ℕ → List ℕ) → ((is : List ℕ) → Perm (schedule is) is)
    → {R X E : Type 0} (a : Adapter k.World R X E) (employer_visits : Visits R)
      (employee_visits : Visits E) (ns name : String) (w : k.World) (e : Employer)
    → AdapterWrites a (HasCleanFlz k a.options.multi_cluster ns name)
    → k.get_employer (employer_context a.options.multi_cluster) ns name w ≡ found e
    → contains e.finalizers clean_finalizer ≡ true
    → HasCleanFlz k a.options.multi_cluster ns name
        (reconcile k api schedule a employer_visits employee_visits ns name w).1
      ⊎ ((syncs : Syncs R E) × (t : Employer × k.World) × (sync_all k api schedule a employer_visits
              employee_visits
              (e, w)
            ≡ (ok syncs, t))
          × (is_all_clean syncs ≡ true)
          × (t.0.deleting ≡ true))
reconcile-HasCleanFlz k patches api schedule fair a employer_visits employee_visits ns name w e
      adapter h has =
    reconcile-guard k api schedule fair a employer_visits employee_visits
      (HasCleanFlz k a.options.multi_cluster ns name)
      (HasCleanFlz-Writes k patches a.options.multi_cluster ns name) adapter ns name w e h
      (ground (arith, has)) (e, h, has)
