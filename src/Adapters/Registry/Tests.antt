-- ===== src/Adapters/Registry/Tests.antt =====
-- Two adapters that are built in, and a name that is not. The state is the list of what was added.
use resourceconsist.Base.{String, ◌≡◌, refl, List, [], ◌∷◌, ok, err, none, string_eq}
use resourceconsist.Base.GoMap.{GoMap, NodupKeys, get}
use resourceconsist.Base.Steps.{Step, ◌>>=◌, done}
use resourceconsist.Adapters.Registry.{
  not_built_in, add_controller_adapter, add_all_builtin_controller_adaters_to_mgr,
  add_builtin_controller_adapters_to_mgr,
}
use resourceconsist.Adapters.Registry.Order.{keys, add_all-add_builtin, add_builtin-unknown}

abbrev add : String → Step (List String) (Unit {0})
add adapter w = (ok tt, adapter ∷ w)

abbrev built_in : GoMap (Step (List String) String)
built_in = ("slb", done "SLB") ∷ ("other", done "Other") ∷ []

abbrev in_order : GoMap (Step (List String) String) → GoMap (Step (List String) String)
in_order m = m

distinct : NodupKeys built_in
unfolding get string_eq
distinct = (refl, (refl, tt))

add_all-add_builtin_example :
    add_all_builtin_controller_adaters_to_mgr add built_in []
    ≡ add_builtin_controller_adapters_to_mgr add built_in (keys built_in) []
add_all-add_builtin_example =
    add_all-add_builtin add built_in in_order []
      (record { visit-NodupKeys = λ m u. u; get-visit = λ k m u. refl }) distinct

slb_added :
    add_builtin_controller_adapters_to_mgr add built_in ("slb" ∷ []) [] ≡ (ok tt, "SLB" ∷ [])
unfolding add_builtin_controller_adapters_to_mgr add_controller_adapter ◌>>=◌ get string_eq
slb_added = refl

unknown : get "unknown" built_in ≡ none
unfolding get string_eq
unknown = refl

add_builtin-unknown_example :
    add_builtin_controller_adapters_to_mgr add built_in ("slb" ∷ "unknown" ∷ "other" ∷ []) []
    ≡ (err (not_built_in "unknown"), "SLB" ∷ [])
add_builtin-unknown_example =
    add_builtin-unknown add built_in ("slb" ∷ []) ("other" ∷ []) "unknown" [] ("SLB" ∷ []) slb_added
      unknown
