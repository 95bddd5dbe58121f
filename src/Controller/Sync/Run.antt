-- ===== src/Controller/Sync/Run.antt =====
-- The states that `syncEmployer` and `syncEmployees` of pkg/frame/controller/consister.go pass through
-- before the finalizers are looked at: those that the creates, the updates and the deletes leave.
use mathlib.Core.Path.{◌∙◌}
use resourceconsist.Base.{ℕ, String, ◌≡◌, ap, List, Outcome, ok}
use resourceconsist.Base.Steps.{wrap_error}
use resourceconsist.Controller.Client.{Client, Employer}
use resourceconsist.Controller.KubeApi.{KubeApi}
use resourceconsist.Controller.Diff.{ToCud}
use resourceconsist.Controller.Sync.{call}

-- A call of the adapter that creates, updates or deletes: what has succeeded and what has failed.
abbrev pub Cud : Type 0 → Type 0 → Type 0
Cud W E = List E → Employer → W → Outcome (List E × List E) × W

abbrev pub after_call : {W E : Type 0} → Cud W E → List E → Employer × W → Employer × W
after_call f xs s = (s.0, (f xs s.0 s.1).1)

-- The state that the creates and the updates of a diff leave.
abbrev pub after_updates :
    {W E : Type 0} → Cud W E → Cud W E → ToCud E → Employer × W → Employer × W
after_updates create update cud s =
    after_call update cud.to_update (after_call create cud.to_create s)

module _ (k : Client) (api : KubeApi) (schedule : List ℕ → List ℕ) {E : Type 0} where
  pub after-call :
      (f : Cud k.World E) (xs : List E) (prefix : String) (s t : Employer × k.World)
      (r : List E × List E)
      → wrap_error prefix (call k api schedule (f xs)) s ≡ (ok r, t)
      → after_call f xs s ≡ t
  after-call f xs prefix s t r h = ap (λ q. q.1) h

  pub after-updates :
      (create update : Cud k.World E) (cud : ToCud E) (prefix prefix' : String)
      (s t u : Employer × k.World) (r r' : List E × List E)
      → wrap_error prefix (call k api schedule (create cud.to_create)) s ≡ (ok r, t)
      → wrap_error prefix' (call k api schedule (update cud.to_update)) t ≡ (ok r', u)
      → after_updates create update cud s ≡ u
  after-updates create update cud prefix prefix' s t u r r' created updated =
      ap (after_call update cud.to_update) (after-call create cud.to_create prefix s t r created)
      ∙ after-call update cud.to_update prefix' t u r' updated
