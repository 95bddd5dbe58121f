-- ===== src/Controller/Sync/Parts.antt =====
-- A run of `syncEmployees` that has ended well, in its parts.
use mathlib.Core.Path.{sym, ◌∙◌, subst, subst₂}
use resourceconsist.Base.{
  ℕ, String, ◌≡◌, refl, ap, Bool, true, false, not, ◌&&◌, Option, none, some, List, [], ◌++◌,
  GoError, ◌⊎◌, Outcome, ok, err, ◌==◌, string_eq, if_true, if_false, Bool-cases, inl, inr,
}
use resourceconsist.Base.Text.{split}
use resourceconsist.Base.Steps.{outcome-ok, >>=-ends, wrap_error, wrap_error-ok}
use resourceconsist.Controller.Client.{Client, Employer}
use resourceconsist.Controller.KubeApi.{KubeApi, annotation}
use resourceconsist.Controller.Adapter.{Adapter}
use resourceconsist.Controller.Diff.{ToCud, diff}
use resourceconsist.Controller.Lifecycle.{opts_out}
use resourceconsist.Controller.Lifecycle.Names.{names, names_by_readiness, get_to_add_delete-names}
use resourceconsist.Controller.ExpectedFinalizer.{
  lifecycle_finalizer_recorded_anno_key, names_outside,
}
use resourceconsist.Controller.Sync.Run.{after_call, after_updates, after-call, after-updates}
use resourceconsist.Controller.Sync.{
  Visits, Synced, need_record_employees, call, step_error, names_to_forget, ensure_employees,
  record_employees, sync_employees,
}

pub step_error-ok :
    {S : Type 0} (prefix : String) (f : S → Option GoError × S) (s t : S) (u : Unit {0})
    → wrap_error prefix (step_error f) s ≡ (ok u, t)
    → ((f s).0 ≡ none) × ((f s).1 ≡ t)
step_error-ok {S} prefix f s t u h = ended (f s) (wrap_error-ok prefix (step_error f) s t u h)
  where
    ended :
        (r : Option GoError × S)
        → ◌≡◌ {A = Outcome (Unit {0}) × S}
            (elim r.0 [ none ↦ ok tt | some e ↦ err e ], r.1)
            (ok u, t)
        → (r.0 ≡ none) × (r.1 ≡ t)
    ended (none, w) h = (refl, ap (λ q. q.1) h)
    ended (some e, w) h = cc

ok-injective : {A : Type 0} {x y : A} → ok x ≡ ok y → x ≡ y
ok-injective h = cc

module _ (k : Client) (api : KubeApi) (schedule : List ℕ → List ℕ) {R X E : Type 0}
    (a : Adapter k.World R X E) where
  -- The adapter asks for a record, and there is one.
  abbrev pub has_record : Employer → Bool
  has_record e =
      need_record_employees a.options
      && not (annotation lifecycle_finalizer_recorded_anno_key e.annotations == "")

  -- `forget` has the names that are recorded and that the adapter, asked in the state `w`, does not
  -- select any more.
  pub Forgets : Employer → k.World → List String → Type 0
  Forgets e w forget =
      ((has_record e ≡ false) × (forget ≡ []))
      ⊎ ((selected : List String) × (has_record e ≡ true)
          × ((a.get_selected_employee_names e w).0 ≡ ok selected)
          × (forget
              ≡ names_outside (api.set_has selected)
                  (split b',' (annotation lifecycle_finalizer_recorded_anno_key e.annotations))))

  names_to_forget-Forgets :
      (s t : Employer × k.World) (forget : List String)
      → names_to_forget k api schedule a s ≡ (ok forget, t)
      → (t.0 ≡ s.0) × Forgets s.0 s.1 forget
  unfolding names_to_forget Forgets
  names_to_forget-Forgets (e, w) t forget h =
      let text = annotation lifecycle_finalizer_recorded_anno_key e.annotations in
      elim (Bool-cases (need_record_employees a.options && not (text == ""))) [
        | inl needed ↦
            >>=-ends
              (wrap_error "GetSelectedEmployeeNames failed, err: "
                (call k api schedule a.get_selected_employee_names))
              _ (e, w) Result
              (λ selected s₁ e₁ names t h₁. (
                sym (ap (λ q. q.1.0) e₁ ∙ ap (λ q. q.1.0) h₁),
                inr (
                  selected,
                  needed,
                  ap (λ q. q.0)
                      (wrap_error-ok "GetSelectedEmployeeNames failed, err: "
                        (call k api schedule a.get_selected_employee_names) (e, w) s₁ selected e₁),
                  sym (outcome-ok h₁),
                ),
              ))
              forget t (sym (if_true _ _ _ needed) ∙ h)
        | inr other ↦ (
          sym (ap (λ q. q.1.0) (sym (if_false _ _ _ other) ∙ h)),
          inl (other, sym (outcome-ok (sym (if_false _ _ _ other) ∙ h))),
        )
      ]
    where
      Result : List String → Employer × k.World → Type 0
      Result forget t = (t.0 ≡ e) × Forgets e w forget

  -- The names of the employees that are to have the finalizer, of those that a sync returns.
  abbrev pub ready_names : Synced E → List String
  ready_names r =
      names a.employee_methods r.results.succ_created
      ++ (names_by_readiness a.employee_methods true r.results.succ_updated
          ++ names_by_readiness a.employee_methods true r.results.unchanged)

  abbrev pub unready_names : Synced E → List String
  unready_names r =
      names_by_readiness a.employee_methods false r.results.succ_updated
      ++ (names a.employee_methods r.results.succ_deleted
          ++ names_by_readiness a.employee_methods false r.results.unchanged)

  -- The state that the creates, the updates and the deletes of a diff leave.
  abbrev pub after_cud : ToCud E → Employer × k.World → Employer × k.World
  after_cud cud s =
      after_call a.delete_employees cud.to_delete
        (after_updates a.create_employees a.update_employees cud s)

  -- The parts of a sync that has ended well, from `ensureLifecycleFinalizer` on.
  pub record Parts (visits : Visits E) (expects currents : List E) (e : Employer) (w : k.World)
      (r : Synced E) (t : Employer × k.World) : Type 0 where
    pub cud : ToCud E
    pub diffed :
        diff a.employee_methods.get_employee_id a.employee_methods.employee_equal visits.expected
          visits.current expects currents
        ≡ ok cud
    pub forget : List String
    pub forgets : Forgets e (after_cud cud (e, w)).1 forget
    pub before : Employer × k.World
    pub same_employer : before.0 ≡ e
    pub after : Employer × k.World
    pub ensured :
        ensure_employees k api schedule a (ready_names r) (unready_names r ++ forget) before
        ≡ (ok tt, after)
    pub recorded : record_employees k api schedule a (ready_names r) after ≡ (ok tt, t)

  pub sync_employees-Parts :
      (visits : Visits E) (expects currents : List E) (e : Employer) (w : k.World) (r : Synced E)
      (t : Employer × k.World)
      → opts_out a.options ≡ false
      → sync_employees k api schedule a visits expects currents (e, w) ≡ (ok r, t)
      → Parts visits expects currents e w r t
  unfolding sync_employees
  sync_employees-Parts visits expects currents e w r t follows h =
      >>=-ends _ _ (e, w) (Parts visits expects currents e w)
        (λ cud s₁ diffed. >>=-ends _ _ s₁ (Parts visits expects currents e w) (λ created s₂ e₂.
          >>=-ends _ _ s₂ (Parts visits expects currents e w) (λ updated s₃ e₃.
            >>=-ends _ _ s₃ (Parts visits expects currents e w) (λ deleted s₄ e₄.
              >>=-ends _ _ s₄ (Parts visits expects currents e w) (λ flz s₅ e₅.
                >>=-ends _ _ s₅ (Parts visits expects currents e w) (λ forget s₆ e₆.
                  >>=-ends _ _ s₆ (Parts visits expects currents e w) (λ u s₇ e₇.
                    >>=-ends _ _ s₇ (Parts visits expects currents e w) (λ v s₈ e₈ r t h₈.
                      let (kept, forgets) = names_to_forget-Forgets s₅ s₆ forget e₆ in
                      let at_e : s₅.0 ≡ e = sym (
                        ap (λ q. q.1.0) diffed
                        ∙ ap (λ q. q.1.0) e₂
                        ∙ ap (λ q. q.1.0) e₃
                        ∙ ap (λ q. q.1.0) e₄
                        ∙ ap (λ q. q.1.0) e₅) in
                      let run : after_cud cud (e, w) ≡ s₅ =
                        ap (after_cud cud) (ap (λ q. q.1) diffed)
                        ∙ ap (after_call a.delete_employees cud.to_delete) (
                            after-updates k api schedule a.create_employees a.update_employees cud _
                              _ s₁ s₂ s₃ created updated e₂ e₃)
                        ∙ after-call k api schedule a.delete_employees cud.to_delete _ s₃ s₄ deleted
                            e₄
                        ∙ ap (λ q. q.1) e₅ in
                      let named =
                        sym (if_false _ _ _ follows)
                        ∙ ok-injective (
                            sym (
                              get_to_add_delete-names a.employee_methods a.options created.0
                                deleted.0 updated.0 cud.unchanged)
                            ∙ ap (λ q. q.0) e₅) in
                      subst₂ (Parts visits expects currents e w) (outcome-ok h₈) (ap (λ q. q.1) h₈)
                        (record {
                          forget = forget;
                          cud = cud;
                          diffed = ap (λ q. q.0) diffed;
                          forgets = subst (λ s. Forgets s.0 s.1 forget) (sym run) forgets;
                          before = s₆;
                          same_employer = kept ∙ at_e;
                          after = s₇;
                          ensured =
                              subst
                                (λ l.
                                  ensure_employees k api schedule a l.0 (l.1 ++ forget) s₆
                                  ≡ (ok tt, s₇))
                                (sym named) e₇;
                          recorded =
                              subst (λ l. record_employees k api schedule a l.0 s₇ ≡ (ok tt, s₈))
                                (sym named) e₈;
                        })))))))))
        r t h
