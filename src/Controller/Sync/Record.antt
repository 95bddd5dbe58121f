-- ===== src/Controller/Sync/Record.antt =====
-- The record of employees whose pods have the lifecycle finalizer, after `syncEmployees`.
use mathlib.Core.Path.{sym, ◌∙◌, subst}
use resourceconsist.Base.{
  ℕ, String, ◌≡◌, refl, ap, true, false, ◌&&◌, Option, List, [], ◌∷◌, arith, GoError, ok, ◌==◌,
  string_eq, if◌then◌else◌, if_true, if_false, Bool-cases, inl, inr, contains, is_empty, length,
  eqb,
}
use resourceconsist.Base.Sorting.{sort_strings, deep_equal}
use resourceconsist.Base.Sorting.Members.{contains-deep_equal, contains-sort_strings}
use resourceconsist.Base.Text.{split, join}
use resourceconsist.Base.Text.Rounds.{CommaFree, contains-split-join}
use resourceconsist.Controller.Client.{Client, Employer}
use resourceconsist.Controller.KubeApi.{KubeApi, annotation}
use resourceconsist.Controller.Adapter.{Adapter}
use resourceconsist.Controller.Lifecycle.{opts_out}
use resourceconsist.Controller.ExpectedFinalizer.{lifecycle_finalizer_recorded_anno_key}
use resourceconsist.Controller.ExpectedFinalizer.Record.{annotation-set_annotation}
use resourceconsist.Controller.Sync.{
  Visits, Synced, need_record_employees, record_update, record_employees, sync_employees,
}
use resourceconsist.Controller.Sync.Parts.{ready_names, sync_employees-Parts}

-- The names in the employer's annotation.
abbrev pub recorded_names : Employer → List String
recorded_names e = split b',' (annotation lifecycle_finalizer_recorded_anno_key e.annotations)

not_empty : (xs : List String) (n : String) → contains xs n ≡ true → is_empty xs ≡ false
not_empty [] n h = cc
not_empty (x ∷ xs) n h = refl

-- Whether the annotation is written or not, it has the names afterwards.
record_update-contains :
    (text : String) (to_add : List String) (n : String)
    → CommaFree n
    → contains to_add n ≡ true
    → let u = record_update text to_add in
      contains (split b',' (if u.0 then join "," u.1 else text)) n ≡ true
unfolding record_update
record_update-contains text to_add n free h = elim (Bool-cases (text == "")) [
  | inl empty ↦ rw (empty, not_empty to_add n h) (contains-split-join to_add n free h)
  | inr there ↦ elim (Bool-cases (eqb (length (split b',' text)) (length to_add))) [
    | inl same_length ↦
        elim (Bool-cases (deep_equal (sort_strings (split b',' text)) (sort_strings to_add))) [
          | inl equal ↦
              rw (there, same_length, equal)
                (contains-deep_equal (split b',' text) to_add n equal ∙ h)
          | inr differ ↦
              rw (there, same_length, differ)
                (contains-split-join (sort_strings to_add) n free
                  (contains-sort_strings to_add n ∙ h))
        ]
    | inr other_length ↦ rw (there, other_length) (contains-split-join to_add n free h)
  ]
]

module _ (k : Client) (api : KubeApi) (schedule : List ℕ → List ℕ) {R X E : Type 0}
    (a : Adapter k.World R X E) where
  record_employees-contains :
      (to_add : List String) (s t : Employer × k.World) (n : String)
      → need_record_employees a.options ≡ true
      → record_employees k api schedule a to_add s ≡ (ok tt, t)
      → CommaFree n
      → contains to_add n ≡ true
      → contains (recorded_names t.0) n ≡ true
  unfolding record_employees
  record_employees-contains to_add (e, w) t n need recorded free h =
      let key = lifecycle_finalizer_recorded_anno_key in
      let text = annotation key e.annotations in
      let update = record_update text to_add in
      let found = record_update-contains text to_add n free h in
      subst (λ f. contains (recorded_names f) n ≡ true) (ap (λ q. q.1.0) recorded)
        (elim (Bool-cases update.0) [
          | inl needed ↦
              ap (λ (q : Written). contains (recorded_names q.1.0) n)
                (if_true {A = Written} (need_record_employees a.options && update.0) _ _
                  (ground (arith, need, needed)))
              ∙ ap (λ u. contains (split b',' u) n)
                  (annotation-set_annotation key (join "," update.1) e
                    ∙ sym (if_true update.0 (join "," update.1) text needed))
              ∙ found
          | inr fine ↦
              ap (λ (q : Written). contains (recorded_names q.1.0) n)
                (if_false {A = Written} (need_record_employees a.options && update.0) _ _
                  (ground (arith, fine)))
              ∙ ap (λ u. contains (split b',' u) n)
                  (sym (if_false update.0 (join "," update.1) text fine))
              ∙ found
        ])
    where
      Written : Type 0
      Written = Option GoError × (Employer × k.World)

  -- If `syncEmployees` ends without an error, and the adapter asks for a record and does not opt out,
  -- then the record in the employer's annotation names each employee that was created, and each that
  -- was updated or is unchanged and is ready, if its name has no comma.
  pub sync_employees-recorded_names :
      (visits : Visits E) (expects currents : List E) (e : Employer) (w : k.World) (r : Synced E)
      (t : Employer × k.World) (n : String)
      → opts_out a.options ≡ false
      → need_record_employees a.options ≡ true
      → sync_employees k api schedule a visits expects currents (e, w) ≡ (ok r, t)
      → CommaFree n
      → contains (ready_names k api schedule a r) n ≡ true
      → contains (recorded_names t.0) n ≡ true
  sync_employees-recorded_names visits expects currents e w r t n follows need h free ready =
      let p = sync_employees-Parts k api schedule a visits expects currents e w r t follows h in
      record_employees-contains (ready_names k api schedule a r) p.after t n need p.recorded free
        ready
