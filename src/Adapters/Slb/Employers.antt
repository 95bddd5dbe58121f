-- ===== src/Adapters/Slb/Employers.antt =====
-- The employers that the webhook adapter finds for a pod, and the services that the event handler of
-- the controller enqueues for it.
use mathlib.Core.Path.{◌∙◌}
use resourceconsist.Base.{
  String, ◌≡◌, refl, ap, Bool, some, List, [], ◌∷◌, map, arith, GoError, ◌==◌, string_eq, ok, ◌⊎◌,
  inl, inr, Option-cases,
}
use resourceconsist.Base.GoMap.{GoMap, get}
use resourceconsist.Controller.Types.{Pod}
use resourceconsist.Controller.Client.{Client, Employer, plain, found}
use resourceconsist.Controller.KubeApi.{annotation}
use resourceconsist.Controller.Events.{
  do_predicate, selecting, get_employer_by_employee, requests_for, requests_of, is_watched,
  pod_event,
}
use resourceconsist.Controller.Events.Selected.{names_of, get_employer-selecting}
use resourceconsist.Adapters.Slb.{controlled_employers, get_employers_by_employee}

module _ (k : Client) (controlled_key : String)
    (list_services : String → k.World → GoError ⊎ List Employer)
    (matches : GoMap String → GoMap String → Bool) where
  -- The listed services are stored under their names.
  abbrev pub AreStored : String → k.World → List Employer → Type 0
  AreStored ns w [] = Unit
  AreStored ns w (svc ∷ services) =
      (k.get_employer plain ns svc.name w ≡ found svc) × AreStored ns w services

  controlled-do_predicate :
      (svc : Employer)
      → do_predicate controlled_key (some svc.meta)
        ≡ (annotation controlled_key svc.labels == "true")
  unfolding string_eq get
  controlled-do_predicate svc = elim (Option-cases svc.labels) [
    | inl nil ↦ rw nil refl
    | inr (labels, there) ↦ elim (Option-cases (get controlled_key labels)) [
      | inl absent ↦ rw (there, absent) refl
      | inr (v, value) ↦ rw (there, value) refl
    ]
  ]

  requests-controlled :
      (labels : GoMap String) (ns : String) (w : k.World) (services : List Employer)
      → AreStored ns w services
      → names_of (
          requests_for k controlled_key list_services matches ns
            (selecting k controlled_key list_services matches labels services)
            w)
        ≡ map
            (λ svc. svc.name)
            (controlled_employers controlled_key list_services matches labels services)
  unfolding controlled_employers
  requests-controlled labels ns w [] stored = refl
  requests-controlled labels ns w (svc ∷ services) (at, stored) =
      let rest = requests-controlled labels ns w services stored in
      let watched =
        ap (is_watched k controlled_key list_services matches) at ∙ controlled-do_predicate svc in
      ground (arith, rest, watched)

  -- For a pod that has labels, where the services of its namespace can be listed and are stored, the
  -- webhook adapter finds exactly the services that the creation of the pod enqueues, in the same
  -- order.
  pub get_employers-agrees :
      (pod : Pod) (labels : GoMap String) (w : k.World) (services : List Employer)
      → pod.labels ≡ some labels
      → list_services pod.namespace w ≡ inr services
      → AreStored pod.namespace w services
      → (es : List Employer) × (get_employers_by_employee controlled_key list_services matches pod w
          ≡ ok es)
        × (names_of (pod_event k controlled_key list_services matches pod.meta w)
            ≡ map (λ svc. svc.name) es)
  unfolding get_employers_by_employee pod_event
  get_employers-agrees pod labels w services there listed stored =
      let names = selecting k controlled_key list_services matches labels services in
      let found_names : get_employer_by_employee k controlled_key list_services matches pod.meta w
          ≡ inr names =
        get_employer-selecting k controlled_key list_services matches pod.meta w services listed
        ∙ ground (arith, there) in
      (
        controlled_employers controlled_key list_services matches labels services,
        ground (arith, listed, there),
        ap (λ r. names_of (requests_of k controlled_key list_services matches pod.namespace r w))
              found_names
            ∙ requests-controlled labels pod.namespace w services stored,
      )
