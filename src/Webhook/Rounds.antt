-- ===== src/Webhook/Rounds.antt =====
-- The webhook lists an employer in a pod, and the controller takes it out again.
use mathlib.Core.Path.{◌∙◌, sym}
use resourceconsist.Base.{
  String, ◌≡◌, ◌≢◌, ap, true, false, none, some, [], ◌∷◌, arith, string_eq, ok, or_else,
}
use resourceconsist.Controller.Types.{Pod}
use resourceconsist.Controller.Client.{Client, IsPodPatch, Employer, MultiCluster, found}
use resourceconsist.Controller.KubeApi.{KubeApi, IsKubeApi}
use resourceconsist.Controller.Finalizer.Effect.{pod_at}
use resourceconsist.Controller.ExpectedPatch.{delete_expected_finalizer}
use resourceconsist.Controller.ExpectedPatch.Listing.{listing}
use resourceconsist.Controller.ExpectedPatch.Unlisting.{delete-Removed}
use resourceconsist.Controller.ExpectedFinalizer.{employer_key, lifecycle_finalizer}
use resourceconsist.Webhook.{create, WebhookAdapter, present_conditions, mutating}
use resourceconsist.Webhook.Prepared.{finalizer_for}
use resourceconsist.Webhook.Agrees.{mutating-listing}

module _ (api : KubeApi) (laws : IsKubeApi api) {W : Type 0} (adapter : WebhookAdapter W)
    (k : Client) (patches : IsPodPatch k) (m : MultiCluster) (shared : m ≢ some false) where
  -- If a created pod has one employer, which it does not list already, and the pod is stored as
  -- Mutating has left it, then the function that patchDeletePodExpectedFinalizer calls undoes it:
  -- once it has reported success, the stored pod lists what the created pod listed. Employees are not
  -- in local clusters.
  pub mutating-delete_rounds :
      (pod p : Pod) (w w' : W) (old : api.Conditions) (e : Employer) (name : String) (v : k.World)
      → adapter.get_employers_by_employee pod w ≡ (ok (e ∷ []), w')
      → present_conditions api pod ≡ ok old
      → (mutating api adapter (some pod) create w).0 ≡ ok (some p)
      → listing api (employer_key e) pod ≡ none
      → pod_at k m e.namespace name v ≡ found p
      → let r =
          delete_expected_finalizer k api m e.namespace
            (employer_key e)
            (lifecycle_finalizer api e.name)
            name
            v in
        r.1 ≡ true
        → (q : Pod) × (pod_at k m e.namespace name r.2 ≡ found q)
          × ((key : String) → listing api key q ≡ listing api key pod)
  unfolding finalizer_for or_else
  mutating-delete_rounds pod p w w' old e name v given h ended new stored removed =
      let (q, at, less) =
        delete-Removed k patches api laws m shared e.namespace (employer_key e)
          (lifecycle_finalizer api e.name) name v p stored removed in
      (
        q,
        at,
        λ key.
            let listed =
              (mutating-listing api laws adapter pod p w w' (e ∷ []) old key given h ended).1 in
            less key ∙ elim (string_eq.dec (employer_key e) key) [
              | yes same ↦ ground (arith, same, sym (ap (λ j. listing api j pod) (sym same) ∙ new))
              | no other ↦ ground (arith, other, listed)
            ],
      )
