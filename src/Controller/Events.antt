-- ===== src/Controller/Events.antt =====
-- The event handlers and predicates of pkg/frame/controller/event_handler.go. A handler gives the
-- requests that it adds to the work queue, in order; an object that is nil is `none`. The list of
-- services and the match of a selector with labels are parameters.
pub mod Selected
mod Tests
use resourceconsist.Base.{
  String, Bool, true, false, Option, none, some, List, [], ◌∷◌, ◌++◌, if◌then◌else◌, GoError, ◌⊎◌,
  inl, inr, ◌==◌, string_eq,
}
use resourceconsist.Base.GoMap.{GoMap, get}
use resourceconsist.Controller.Types.{ObjectMeta}
use resourceconsist.Controller.Client.{Client, Employer, Fetched, found, failed, plain}

-- `reconcile.Request`
pub record Request : Type 0 where
  pub namespace : String
  pub name : String

abbrev pub request_of : ObjectMeta → Request
request_of m = record { namespace = m.namespace; name = m.name }

-- `EnqueueServiceWithRateLimit.Create`, `Delete` and `Generic`.
abbrev pub service_event : Option ObjectMeta → List Request
service_event none = []
service_event (some m) = request_of m ∷ []

-- `EnqueueServiceWithRateLimit.Update`
abbrev pub service_update : Option ObjectMeta → Option ObjectMeta → List Request
service_update old new = service_event old ++ service_event new

abbrev pub is_controlled : Option String → Bool
is_controlled none = false
is_controlled (some value) = value == "true"

-- `doPredicate`, with the key `v1alpha1.ControlledByKusionStackLabelKey`; it is also what the four
-- functions of `employerPredicates` answer, of the new object in an update.
abbrev pub do_predicate : String → Option ObjectMeta → Bool
do_predicate key none = false
do_predicate key (some m) = elim m.labels [
  | none ↦ false
  | some labels ↦ is_controlled (get key labels)
]

module _ (k : Client) (controlled_key : String)
    (list_services : String → k.World → GoError ⊎ List Employer)
    (matches : GoMap String → GoMap String → Bool) where
  -- The loop of `GetEmployerByEmployee`.
  abbrev pub selecting : GoMap String → List Employer → List String
  selecting labels [] = []
  selecting labels (svc ∷ services) =
      let rest = selecting labels services in
      if matches svc.selector labels then svc.name ∷ rest else rest

  unfoldable pub get_employer_by_employee : ObjectMeta → k.World → GoError ⊎ List String
  get_employer_by_employee employee w = elim employee.labels [
    | none ↦ inr []
    | some labels ↦ elim (list_services employee.namespace w) [
      | inl e ↦ inl e
      | inr services ↦ inr (selecting labels services)
    ]
  ]

  -- Whether the service that was read is to be reconciled.
  abbrev pub is_watched : Fetched Employer → Bool
  is_watched (failed e) = false
  is_watched (found svc) = do_predicate controlled_key (some svc.meta)

  -- The loop of a handler of `EnqueueServiceByPod`.
  abbrev pub requests_for : String → List String → k.World → List Request
  requests_for ns [] w = []
  requests_for ns (name ∷ names) w =
      let rest = requests_for ns names w in
      if is_watched (k.get_employer plain ns name w)
      then record { namespace = ns; name = name } ∷ rest
      else rest

  abbrev pub requests_of : String → GoError ⊎ List String → k.World → List Request
  requests_of ns (inl e) w = []
  requests_of ns (inr names) w = requests_for ns names w

  -- `EnqueueServiceByPod.Create`, `Delete` and `Generic`.
  unfoldable pub pod_event : ObjectMeta → k.World → List Request
  pod_event m w = requests_of m.namespace (get_employer_by_employee m w) w

  -- `EnqueueServiceByPod.Update`: an error for the old object is a return.
  unfoldable pub pod_update : ObjectMeta → ObjectMeta → k.World → List Request
  pod_update old new w = elim (get_employer_by_employee old w) [
    | inl e ↦ []
    | inr names ↦
        requests_for old.namespace names w
        ++ requests_of new.namespace (get_employer_by_employee new w) w
  ]
