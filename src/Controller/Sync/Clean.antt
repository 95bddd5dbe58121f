-- ===== src/Controller/Sync/Clean.antt =====
-- What a sync that is clean has seen and has asked for.
use mathlib.Core.Path.{sym, ◌∙◌}
use resourceconsist.Base.{
  ℕ, String, ◌≡◌, ap, Bool, true, ◌&&◌, Option, none, some, List, [], refl, arith, is_empty,
  Outcome, ok,
}
use resourceconsist.Base.GoMap.{IsRange}
use resourceconsist.Base.Steps.{outcome-ok, >>=-ends, lift, wrap_error, wrap_error-ok}
use resourceconsist.Controller.Client.{Client, Employer}
use resourceconsist.Controller.KubeApi.{KubeApi}
use resourceconsist.Controller.Adapter.{Adapter}
use resourceconsist.Controller.Diff.{ToCud, diff}
use resourceconsist.Controller.Diff.Buckets.{find, find_last}
use resourceconsist.Controller.Diff.Clean.{diff-expects_nil}
use resourceconsist.Controller.Diff.Partition.{diff-IsPartition, select}
use resourceconsist.Controller.Diff.Loops.{is_missing}
use resourceconsist.Controller.Sync.Run.{Cud, after_updates, after-updates}
use resourceconsist.Controller.Sync.{Visits, Synced, call, sync_employer, sync_employees}

eq_nil_of_is_empty : {A : Type 0} (xs : List A) → is_empty xs ≡ true → xs ≡ []
eq_nil_of_is_empty xs h = ground arith

pub record IsVisits {E : Type 0} (visits : Visits E) : Type 0 where
  pub expected : IsRange visits.expected
  pub current : IsRange visits.current

module _ {W E : Type 0} (get_id : E → String) (equal : E → E → Outcome Bool) (visits : Visits E)
    (create update delete : Cud W E) where
  -- Nothing is expected. The diff asks for deletes alone, of all that there is, and the deletes, asked
  -- for in the state that the empty creates and updates leave of `s`, have not failed.
  pub record IsGone (expects currents : List E) (s : Employer × W) (r : Synced E) : Type 0 where
    pub none_expected : expects ≡ []
    pub cud : ToCud E
    pub diffed : diff get_id equal visits.expected visits.current expects currents ≡ ok cud
    pub none_created : cud.to_create ≡ []
    pub none_updated : cud.to_update ≡ []
    pub all_deleted : (id : String) → find get_id id cud.to_delete ≡ find_last get_id id currents
    pub none_failed :
        let t = after_updates create update cud s in
        (delete cud.to_delete t.0 t.1).0 ≡ ok (r.results.succ_deleted, [])

module _ {E : Type 0} (get_id : E → String) (equal : E → E → Outcome Bool) (visits : Visits E)
    (ranges : IsVisits visits) where
  select-missing : (o : Option E) → select get_id is_missing o none ≡ o
  select-missing none = refl
  select-missing (some x) = refl

  diff-none_expected :
      (expects currents : List E) (cud : ToCud E)
      → diff get_id equal visits.expected visits.current expects currents ≡ ok cud
      → (is_empty cud.unchanged && (is_empty cud.to_create && is_empty cud.to_update)) ≡ true
      → (expects ≡ [])
        × ((id : String) → find get_id id cud.to_delete ≡ find_last get_id id currents)
  diff-none_expected expects currents cud h clean =
      let nil =
        (diff-expects_nil equal get_id visits.expected visits.current ranges.expected ranges.current
            expects currents cud h).0
          (
            eq_nil_of_is_empty cud.to_create (ground arith),
            eq_nil_of_is_empty cud.to_update (ground arith),
            eq_nil_of_is_empty cud.unchanged (ground arith),
          ) in
      let none_else : (id : String)
          → expects ≡ []
          → select get_id is_missing (find_last get_id id currents) (find_last get_id id expects)
            ≡ find_last get_id id currents =
        λ id none_expected.
          ap
            (λ es. select get_id is_missing (find_last get_id id currents) (find_last get_id id es))
            none_expected
          ∙ select-missing (find_last get_id id currents) in
      let p =
        diff-IsPartition get_id equal visits.expected visits.current ranges.expected ranges.current
          expects currents cud h in
      (nil, λ id. p.deletes id ∙ none_else id nil)

  gone :
      {W : Type 0} (create update delete : Cud W E) (expects currents : List E) (cud : ToCud E)
      (deleted : List E × List E) (s t : Employer × W) (r : Synced E)
      → diff get_id equal visits.expected visits.current expects currents ≡ ok cud
      → after_updates create update cud s ≡ t
      → (delete cud.to_delete t.0 t.1).0 ≡ ok deleted
      → r.results.succ_deleted ≡ deleted.0
      → (is_empty cud.unchanged && (is_empty cud.to_create && is_empty cud.to_update)) ≡ true
      → is_empty deleted.1 ≡ true
      → IsGone get_id equal visits create update delete expects currents s r
  gone create update delete expects currents cud (succeeded, failed) s t r diffed run asked same
        clean no_failure =
      let (nil, all) = diff-none_expected expects currents cud diffed clean in
      record {
        none_expected = nil;
        cud = cud;
        diffed = diffed;
        none_created = eq_nil_of_is_empty cud.to_create (ground (arith, clean));
        none_updated = eq_nil_of_is_empty cud.to_update (ground (arith, clean));
        all_deleted = all;
        none_failed =
            ap (λ q. (delete cud.to_delete q.0 q.1).0) run
            ∙ ground (arith, asked, same, eq_nil_of_is_empty failed no_failure);
      }

module _ (k : Client) (api : KubeApi) (schedule : List ℕ → List ℕ) {R X E : Type 0}
    (a : Adapter k.World R X E) where
  call-ok :
      {A : Type 0} (f : Employer → k.World → Outcome A × k.World) (prefix : String)
      (s t : Employer × k.World) (r : A)
      → wrap_error prefix (call k api schedule f) s ≡ (ok r, t)
      → (f s.0 s.1).0 ≡ ok r
  call-ok f prefix s t r h = ap (λ q. q.0) (wrap_error-ok prefix (call k api schedule f) s t r h)

  pub sync_employer-IsGone :
      (visits : Visits R)
      → IsVisits visits
      → (expects currents : List R) (s t : Employer × k.World) (r : Synced R)
      → sync_employer k api schedule a visits expects currents s ≡ (ok r, t)
      → r.is_clean ≡ true
      → IsGone a.employer_methods.get_employer_id a.employer_methods.employer_equal visits
          a.create_employer a.update_employer a.delete_employer expects currents s r
  unfolding sync_employer
  sync_employer-IsGone visits ranges expects currents s t r h clean =
      >>=-ends _ _ s Gone
        (λ cud s₁ diffed. >>=-ends _ _ s₁ Gone (λ created s₂ e₂.
          >>=-ends _ _ s₂ Gone (λ updated s₃ e₃. >>=-ends _ _ s₃ Gone (λ deleted s₄ e₄ r t h₄ clean.
            let same = outcome-ok h₄ in
            let clean' = ap (λ q. q.is_clean) same ∙ clean in
            gone a.employer_methods.get_employer_id a.employer_methods.employer_equal visits ranges
              a.create_employer a.update_employer a.delete_employer expects currents cud deleted s
              s₃ r
              (ap (λ q. q.0)
                (wrap_error-ok "diff employer failed, err: "
                  (lift (
                    diff a.employer_methods.get_employer_id a.employer_methods.employer_equal
                      visits.expected visits.current expects currents))
                  s s₁ cud diffed))
              (ap (after_updates a.create_employer a.update_employer cud) (ap (λ q. q.1) diffed)
                ∙ after-updates k api schedule a.create_employer a.update_employer cud _ _ s₁ s₂ s₃
                    created updated e₂ e₃)
              (call-ok (a.delete_employer cud.to_delete) _ s₃ s₄ deleted e₄)
              (sym (ap (λ q. q.results.succ_deleted) same)) (ground (arith, clean'))
              (ground (arith, clean'))))))
        r t h clean
    where
      Gone : Synced R → Employer × k.World → Type 0
      Gone r t =
          r.is_clean ≡ true
          → IsGone a.employer_methods.get_employer_id a.employer_methods.employer_equal visits
              a.create_employer a.update_employer a.delete_employer expects currents s r

  pub sync_employees-IsGone :
      (visits : Visits E)
      → IsVisits visits
      → (expects currents : List E) (s t : Employer × k.World) (r : Synced E)
      → sync_employees k api schedule a visits expects currents s ≡ (ok r, t)
      → r.is_clean ≡ true
      → IsGone a.employee_methods.get_employee_id a.employee_methods.employee_equal visits
          a.create_employees a.update_employees a.delete_employees expects currents s r
  unfolding sync_employees
  sync_employees-IsGone visits ranges expects currents s t r h clean =
      >>=-ends _ _ s Gone
        (λ cud s₁ diffed. >>=-ends _ _ s₁ Gone (λ created s₂ e₂.
          >>=-ends _ _ s₂ Gone (λ updated s₃ e₃. >>=-ends _ _ s₃ Gone (λ deleted s₄ e₄.
            >>=-ends _ _ s₄ Gone (λ flz s₅ e₅. >>=-ends _ _ s₅ Gone (λ forget s₆ e₆.
              >>=-ends _ _ s₆ Gone (λ u s₇ e₇. >>=-ends _ _ s₇ Gone (λ v s₈ e₈ r t h₈ clean.
                let same = outcome-ok h₈ in
                let clean' = ap (λ q. q.is_clean) same ∙ clean in
                gone a.employee_methods.get_employee_id a.employee_methods.employee_equal visits
                  ranges a.create_employees a.update_employees a.delete_employees expects currents
                  cud deleted s s₃ r (ap (λ q. q.0) diffed)
                  (ap (after_updates a.create_employees a.update_employees cud)
                      (ap (λ q. q.1) diffed)
                    ∙ after-updates k api schedule a.create_employees a.update_employees cud _ _ s₁
                        s₂ s₃ created updated e₂ e₃)
                  (call-ok (a.delete_employees cud.to_delete) _ s₃ s₄ deleted e₄)
                  (sym (ap (λ q. q.results.succ_deleted) same)) (ground (arith, clean'))
                  (ground (arith, clean'))))))))))
        r t h clean
    where
      Gone : Synced E → Employer × k.World → Type 0
      Gone r t =
          r.is_clean ≡ true
          → IsGone a.employee_methods.get_employee_id a.employee_methods.employee_equal visits
              a.create_employees a.update_employees a.delete_employees expects currents s r
