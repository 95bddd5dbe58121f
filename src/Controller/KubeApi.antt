-- ===== src/Controller/KubeApi.antt =====
-- What the framework uses of k8s.io/apimachinery, kusionstack.io/kube-api and of Go's crypto/md5 and
-- encoding/json: constants, a struct that is kept as JSON in an annotation, and sets of strings.
-- None of it is in this repository, so it is a parameter.
pub mod Table
use resourceconsist.Base.{
  String, ◌≡◌, ◌≢◌, ◌↔◌, Bool, true, Option, none, some, List, [], GoError, ◌⊎◌, inr, contains,
  string_eq,
}
use resourceconsist.Base.GoMap.{GoMap, get}

-- The entries of a map that may be nil.
abbrev pub entries : Option (GoMap String) → GoMap String
entries none = []
entries (some m) = m

-- `m[key]` of a map that may be nil: a missing key has the value "".
abbrev pub value_or_empty : Option String → String
value_or_empty none = ""
value_or_empty (some v) = v

abbrev pub annotation : String → Option (GoMap String) → String
annotation key annotations = value_or_empty (get key (entries annotations))

pub record KubeApi : Type 1 where
  -- `v1alpha1.PodAvailableConditionsAnnotation`, `v1alpha1.PodOperationProtectionFinalizerPrefix` and
  -- `v1alpha1.ControlledByKusionStackLabelKey`.
  pub pod_available_conditions_annotation : String
  pub pod_operation_protection_finalizer_prefix : String
  pub controlled_by_kusion_stack_label_key : String
  -- `v1alpha1.PodAvailableConditions`: its zero value, and its field `ExpectedFinalizers`.
  pub Conditions : Type 0
  pub zero_value : Conditions
  pub expected_finalizers : Conditions → Option (GoMap String)
  pub set_expected_finalizers : Conditions → GoMap String → Conditions
  -- `json.Marshal(conditions)`, and `json.Unmarshal(text, &conditions)` into a given value.
  pub marshal : Conditions → GoError ⊎ String
  pub unmarshal : String → Conditions → GoError ⊎ Conditions
  -- `hex.EncodeToString` of `md5.Sum`.
  pub md5_hex : String → String
  -- `sets.NewString(xs...).Has(x)` and `sets.NewString(xs...).Insert(ys...).List()`.
  pub set_has : List String → String → Bool
  pub set_list : List String → List String → List String
  -- `errors2.NewAggregate([]error{e, f})`
  pub new_aggregate : Option GoError → Option GoError → Option GoError

-- What the code relies on. A struct that was marshalled can be unmarshalled, which gives back the
-- entries of its map; whether an empty map comes back nil is left open. Unmarshalling into a struct
-- with an empty map gives the same entries as into the zero value.
pub record IsKubeApi (api : KubeApi) : Type 0 where
  pub expected-set :
      (c : api.Conditions) (m : GoMap String)
      → api.expected_finalizers (api.set_expected_finalizers c m) ≡ some m
  pub marshal_ne_empty : (c : api.Conditions) (text : String) → api.marshal c ≡ inr text → text ≢ ""
  pub unmarshal-marshal :
      (c : api.Conditions) (text : String)
      → api.marshal c ≡ inr text
      → (d : api.Conditions) × (api.unmarshal text api.zero_value ≡ inr d)
  pub get-unmarshal-marshal :
      (c d : api.Conditions) (text key : String)
      → api.marshal c ≡ inr text
      → api.unmarshal text api.zero_value ≡ inr d
      → get key (entries (api.expected_finalizers d))
        ≡ get key (entries (api.expected_finalizers c))
  pub unmarshal-fresh :
      (d : api.Conditions) (text : String)
      → api.unmarshal text (api.set_expected_finalizers api.zero_value []) ≡ inr d
      → (c : api.Conditions) × (api.unmarshal text api.zero_value ≡ inr c)
        × ((key : String)
            → get key (entries (api.expected_finalizers d))
              ≡ get key (entries (api.expected_finalizers c)))
  pub set_has-contains : (xs : List String) (x : String) → api.set_has xs x ≡ contains xs x
  pub set_list-contains :
      (xs ys : List String) (x : String)
      → (contains (api.set_list xs ys) x ≡ true) ↔ ((contains xs x ≡ true) ⊎ (contains ys x ≡ true))
  pub new_aggregate-none :
      (e f : Option GoError) → (api.new_aggregate e f ≡ none) ↔ ((e ≡ none) × (f ≡ none))
