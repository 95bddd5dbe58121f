-- ===== src/Adapters/Registry/Order.antt =====
-- In which order adapters are added, and what an unknown name leaves.
use mathlib.Core.Path.{◌∙◌, sym}
use resourceconsist.Base.{
  String, ◌≡◌, refl, ap, none, some, List, [], ◌∷◌, ◌++◌, arith, string_eq, ==_refl, ok, err,
}
use resourceconsist.Base.GoMap.{GoMap, get, NodupKeys, IsRange}
use resourceconsist.Base.Steps.{Step, ◌>>=◌, after, after-same, >>=-inv, >>=-after}
use resourceconsist.Adapters.Registry.{
  not_built_in, add_controller_adapter, add_if_built_in, add_all_builtin_controller_adaters_to_mgr,
  add_builtin_controller_adapters_to_mgr,
}

abbrev pub keys : {V : Type 0} → GoMap V → List String
keys [] = []
keys ((k, v) ∷ m) = k ∷ keys m

-- Each entry is what `m` has under its key.
abbrev AreIn : {V : Type 0} → GoMap V → GoMap V → Type 0
AreIn m [] = Unit
AreIn m ((k, v) ∷ rest) = (get k m ≡ some v) × AreIn m rest

NodupKeys-AreIn :
    {V : Type 0} (m rs : GoMap V)
    → NodupKeys rs
    → ((k : String) (v : V) → get k rs ≡ some v → get k m ≡ some v)
    → AreIn m rs
unfolding get
NodupKeys-AreIn m [] u h = tt
NodupKeys-AreIn m ((k, v) ∷ rest) (fresh, u) h = (
  h k v (ground (arith, ==_refl k)),
  NodupKeys-AreIn m rest u (λ j x there. elim (string_eq.dec k j) [
    | yes same ↦ cc (fresh, ap (λ i. get i rest) same, there)
    | no other ↦ h j x (ground (arith, other, there))
  ]),
)

module _ {M A : Type 0} (add_to_mgr : A → Step M (Unit {0})) where
  add_all-AreIn :
      (built_in rs : GoMap (Step M A)) (w : M)
      → AreIn built_in rs
      → add_all_builtin_controller_adaters_to_mgr add_to_mgr rs w
        ≡ add_builtin_controller_adapters_to_mgr add_to_mgr built_in (keys rs) w
  unfolding add_all_builtin_controller_adaters_to_mgr add_builtin_controller_adapters_to_mgr ◌>>=◌
  add_all-AreIn built_in [] w h = refl
  add_all-AreIn built_in ((k, f) ∷ rest) w (at, h) =
      let here = add_builtin_controller_adapters_to_mgr add_to_mgr built_in (keys rest) in
      after-same (λ _. add_all_builtin_controller_adaters_to_mgr add_to_mgr rest) (λ _. here)
        (add_controller_adapter add_to_mgr k f w) (λ _ t. add_all-AreIn built_in rest t h)
      ∙ ap (λ o. after (λ _. here) (add_if_built_in add_to_mgr k o w)) (sym at)

  -- AddAllBuiltinControllerAdatersToMgr does what AddBuiltinControllerAdaptersToMgr does with the names
  -- of all adapters that are built in, in the order in which the map is ranged over.
  pub add_all-add_builtin :
      (built_in : GoMap (Step M A)) (visit : GoMap (Step M A) → GoMap (Step M A)) (w : M)
      → IsRange visit
      → NodupKeys built_in
      → add_all_builtin_controller_adaters_to_mgr add_to_mgr (visit built_in) w
        ≡ add_builtin_controller_adapters_to_mgr add_to_mgr built_in (keys (visit built_in)) w
  add_all-add_builtin built_in visit w range u = add_all-AreIn built_in (visit built_in) w (
      NodupKeys-AreIn built_in (visit built_in) (range.visit-NodupKeys built_in u)
        (λ k v there. sym (range.get-visit k built_in u) ∙ there))

  -- The adapters of the names before one that is not built in are added, and then the call ends with
  -- the error that names it: nothing after it is looked at.
  pub add_builtin-unknown :
      (built_in : GoMap (Step M A)) (before later : List String) (name : String) (v w : M)
      → add_builtin_controller_adapters_to_mgr add_to_mgr built_in before v ≡ (ok tt, w)
      → get name built_in ≡ none
      → add_builtin_controller_adapters_to_mgr add_to_mgr built_in (before ++ name ∷ later) v
        ≡ (err (not_built_in name), w)
  unfolding add_builtin_controller_adapters_to_mgr ◌>>=◌
  add_builtin-unknown built_in [] later name v w h absent =
      ap
        (λ o.
          after (λ _. add_builtin_controller_adapters_to_mgr add_to_mgr built_in later)
            (add_if_built_in add_to_mgr name o v))
        absent
      ∙ ap (λ t. (err (not_built_in name), t)) (ap (λ q. q.1) h)
  add_builtin-unknown built_in (x ∷ before) later name v w h absent =
      let m = add_if_built_in add_to_mgr x (get x built_in) in
      let all = add_builtin_controller_adapters_to_mgr add_to_mgr built_in in
      let (u, t, first, rest) = >>=-inv m (λ _. all before) v h in
      >>=-after m (λ _. all (before ++ name ∷ later)) v first
      ∙ add_builtin-unknown built_in before later name t w rest absent
