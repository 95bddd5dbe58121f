-- ===== src/Controller/Events/Tests.antt =====
-- The requests that an update of a pod adds, over a service in memory.
use resourceconsist.Base.{
  String, ◌≡◌, refl, Bool, true, false, ◌&&◌, ◌||◌, Option, none, some, List, [], ◌∷◌, GoError, ◌⊎◌,
  inr, ◌==◌, string_eq, contains,
}
use resourceconsist.Base.GoMap.{GoMap, get}
use resourceconsist.Controller.Types.{ObjectMeta}
use resourceconsist.Controller.Client.{Employer}
use resourceconsist.Controller.Client.Memory.{Memory, memory}
use resourceconsist.Controller.Events.{pod_update, get_employer_by_employee}
use resourceconsist.Controller.Events.Selected.{
  names_of, selecting_names, watched, pod_update-names,
}

abbrev has_value : Option String → String → Bool
has_value none v = false
has_value (some u) v = u == v

abbrev all_match : GoMap String → GoMap String → Bool
all_match [] labels = true
all_match ((k, v) ∷ selector) labels = has_value (get k labels) v && all_match selector labels

abbrev meta : String → Option (GoMap String) → ObjectMeta
meta name labels = record {
  name = name;
  namespace = "ns";
  labels = labels;
  annotations = none;
  finalizers = [];
  deleting = false;
}

abbrev service : Employer
service = record {
  kind = "Service";
  meta = meta "web" (some (("control", "true") ∷ []));
  selector = ("app", "web") ∷ [];
}

abbrev start : Memory
start = record { pods = λ c ns n. none; employers = λ c ns n. some service }

abbrev list_services : String → Memory → GoError ⊎ List Employer
list_services ns w = inr (service ∷ [])

-- A pod loses the label that the service selects.
abbrev before : ObjectMeta
before = meta "pod" (some (("app", "web") ∷ []))

abbrev after : ObjectMeta
after = meta "pod" none

update_enqueues :
    names_of (pod_update memory "control" list_services all_match before after start) ≡ "web" ∷ []
unfolding pod_update get_employer_by_employee get string_eq
update_enqueues = refl

pod_update-names_example :
    contains
      (names_of (pod_update memory "control" list_services all_match before after start))
      "web"
    ≡ ((contains
            (selecting_names memory "control" list_services all_match before (service ∷ []))
            "web"
          || contains
              (selecting_names memory "control" list_services all_match after (service ∷ []))
              "web")
        && watched memory "control" list_services all_match "ns" "web" start)
pod_update-names_example =
    pod_update-names memory "control" list_services all_match before after start (service ∷ [])
      "web" refl refl
