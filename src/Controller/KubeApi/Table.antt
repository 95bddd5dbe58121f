-- ===== src/Controller/KubeApi/Table.antt =====
-- An instance of the third-party interface in which the JSON of a map is looked up in a table: two
-- maps have a text, and marshalling any other fails.
use mathlib.Core.Path.{sym, ◌∙◌}
use resourceconsist.Base.{
  String, ◌≡◌, ◌≢◌, ◌↔◌, refl, true, Option, none, some, List, [], ◌∷◌, ◌++◌, GoError, errorf, ◌⊎◌,
  inl, inr, contains, string_eq, ◌==◌, if◌then◌else◌, arith, ◌&&◌, Bool-cases, ap,
}
use resourceconsist.Base.GoMap.{GoMap, get}
use resourceconsist.Base.Text.Rounds.{contains-append}
use resourceconsist.Controller.KubeApi.{KubeApi, IsKubeApi, entries}

module _ (key flz : String) where
  -- The pod lists one employer, or none.
  abbrev pub Table : Type 0
  Table = GoMap String

  abbrev one : Table
  one = (key, flz) ∷ []

  abbrev marshal : Option Table → GoError ⊎ String
  marshal none = inr "{}"
  marshal (some []) = inr "{}"
  marshal (some ((k, v) ∷ [])) =
      if k == key && v == flz then inr "{one}" else inl (errorf "no text")
  marshal (some (_ ∷ _ ∷ _)) = inl (errorf "no text")

  abbrev unmarshal : String → GoError ⊎ Option Table
  unmarshal text =
      if text == "{one}"
      then inr (some one)
      else if text == "{}"
      then inr none
      else inl (errorf "no map")

  abbrev aggregate : Option GoError → Option GoError → Option GoError
  aggregate none f = f
  aggregate (some e) f = some e

  abbrev pub table_api : KubeApi
  table_api = record {
    pod_available_conditions_annotation = "pod.kusionstack.io/available-conditions";
    pod_operation_protection_finalizer_prefix = "prot.podopslifecycle.kusionstack.io";
    controlled_by_kusion_stack_label_key = "kusionstack.io/control";
    Conditions = Option Table;
    zero_value = none;
    expected_finalizers = λ c. c;
    set_expected_finalizers = λ c m. some m;
    marshal = marshal;
    unmarshal = λ text into. unmarshal text;
    md5_hex = λ text. "2567a5ec9705eb7ac2c984033e06189d";
    set_has = contains;
    set_list = λ xs ys. xs ++ ys;
    new_aggregate = aggregate;
  }

  unmarshal_nil : unmarshal "{}" ≡ inr none
  unfolding string_eq
  unmarshal_nil = refl

  unmarshal_one : unmarshal "{one}" ≡ inr (some one)
  unfolding string_eq
  unmarshal_one = refl

  -- A map that has a text: it has no entry, or the one.
  marshal-texts :
      (c : Option Table) (text : String)
      → marshal c ≡ inr text
      → ((text ≡ "{}") × (entries c ≡ [])) ⊎ ((text ≡ "{one}") × (entries c ≡ one))
  marshal-texts none text h = inl (cc, refl)
  marshal-texts (some []) text h = inl (cc, refl)
  marshal-texts (some ((j, v) ∷ [])) text h = elim (Bool-cases (j == key && v == flz)) [
    | inl same ↦ inr (ground (arith, h, same), ground (arith, same))
    | inr other ↦ cc (rw other at h)
  ]
  marshal-texts (some (x ∷ y ∷ m)) text h = cc

  decoded :
      (d e : Option Table) (text text' : String)
      → unmarshal text ≡ inr d
      → text ≡ text'
      → unmarshal text' ≡ inr e
      → d ≡ e
  decoded d e text text' q same p = ground (arith, ap unmarshal same, q, p)

  get-unmarshal_marshal :
      (c d : Option Table) (text k : String)
      → marshal c ≡ inr text
      → unmarshal text ≡ inr d
      → get k (entries d) ≡ get k (entries c)
  get-unmarshal_marshal c d text k h q = elim (marshal-texts c text h) [
    | inl (same, nil) ↦
        ap (λ m. get k (entries m)) (decoded d none text "{}" q same unmarshal_nil)
        ∙ ap (get k) (sym nil)
    | inr (same, listed) ↦
        ap (λ m. get k (entries m)) (decoded d (some one) text "{one}" q same unmarshal_one)
        ∙ ap (get k) (sym listed)
  ]

  unmarshal_of_marshal :
      (c : Option Table) (text : String)
      → marshal c ≡ inr text
      → (d : Option Table) × (unmarshal text ≡ inr d)
  unmarshal_of_marshal c text h = elim (marshal-texts c text h) [
    | inl (same, nil) ↦ (none, ap unmarshal same ∙ unmarshal_nil)
    | inr (same, listed) ↦ (some one, ap unmarshal same ∙ unmarshal_one)
  ]

  marshal-ne_empty : (c : Option Table) (text : String) → marshal c ≡ inr text → text ≢ ""
  unfolding string_eq
  marshal-ne_empty c text h empty = elim (marshal-texts c text h) [
    | inl (same, nil) ↦ cc (empty, same)
    | inr (same, listed) ↦ cc (empty, same)
  ]

  aggregate-none : (e f : Option GoError) → (aggregate e f ≡ none) ↔ ((e ≡ none) × (f ≡ none))
  aggregate-none none f = (λ h. (refl, h), λ h. h.1)
  aggregate-none (some e) f = (λ h. cc, λ h. h.0)

  list-contains :
      (xs ys : List String) (x : String)
      → (contains (xs ++ ys) x ≡ true) ↔ ((contains xs x ≡ true) ⊎ (contains ys x ≡ true))
  list-contains xs ys x = (
    λ h. ground (arith, h, contains-append xs ys x),
    λ h. ground (arith, h, contains-append xs ys x),
  )

  pub table_api-IsKubeApi : IsKubeApi table_api
  table_api-IsKubeApi = record {
    expected-set = λ c m. refl;
    marshal_ne_empty = marshal-ne_empty;
    unmarshal-marshal = unmarshal_of_marshal;
    get-unmarshal-marshal = get-unmarshal_marshal;
    unmarshal-fresh = λ d text h. (d, h, λ key. refl);
    set_has-contains = λ xs x. refl;
    set_list-contains = list-contains;
    new_aggregate-none = aggregate-none;
  }
