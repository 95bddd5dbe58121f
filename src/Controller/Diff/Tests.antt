-- ===== src/Controller/Diff/Tests.antt =====
-- Diffs of concrete elements, and the theorems about them.
use resourceconsist.Base.{
  ℕ, String, ◌≡◌, refl, Bool, List, [], ◌∷◌, ltb, not, ◌&&◌, Outcome, ok, err, errorf, string_eq,
}
use resourceconsist.Base.GoMap.{GoMap, get, insert, IsRange}
use resourceconsist.Controller.Diff.{ToCud, diff}
use resourceconsist.Controller.Diff.Buckets.{find_last}
use resourceconsist.Controller.Diff.Converge.{IsSettled, after_sync, diff-IsSettled}
use resourceconsist.Controller.Diff.Clean.{diff-expects_nil}
use resourceconsist.Controller.Diff.Partition.{IsPartition, diff-IsPartition}
use resourceconsist.Controller.Diff.Progress.{DiffEnds, diff-DiffEnds}
use resourceconsist.Base.{or_else}
use resourceconsist.Base.{true}
use resourceconsist.Base.{arith}
use mathlib.Core.Path.{subst}
use resourceconsist.Controller.Diff.Converge.{diff-IsSettled, IsSettled, after_sync}
use resourceconsist.Controller.Diff.Clean.{diff-expects_nil}
use resourceconsist.Base.{◌↔◌}

-- Servers with a weight. Two are equal if their weights are; a weight of 9 cannot be compared.
abbrev Server : Type 0
Server = String × ℕ

abbrev id : Server → String
id s = s.0

abbrev equal : Server → Server → Outcome Bool
equal s t = ok (not (ltb s.1 t.1) && not (ltb t.1 s.1))

abbrev broken : Server → Server → Outcome Bool
broken s t = err (errorf "cannot compare")

abbrev in_order : GoMap Server → GoMap Server
in_order m = m

in_order-IsRange : IsRange in_order
in_order-IsRange = record { visit-NodupKeys = λ m u. u; get-visit = λ k m u. refl }

-- Server b is expected twice; the second one counts.
abbrev expected : List Server
expected = ("a", 1) ∷ ("b", 7) ∷ ("c", 3) ∷ ("b", 2) ∷ []

abbrev current : List Server
current = ("b", 5) ∷ ("c", 3) ∷ ("d", 4) ∷ []

abbrev result : ToCud Server
result = record {
  to_create = ("a", 1) ∷ [];
  to_update = ("b", 2) ∷ [];
  to_delete = ("d", 4) ∷ [];
  unchanged = ("c", 3) ∷ [];
}

diff_runs : diff id equal in_order in_order expected current ≡ ok result
unfolding diff get insert string_eq
diff_runs = refl

diff_fails : diff id broken in_order in_order expected current ≡ err (errorf "cannot compare")
unfolding diff get insert string_eq
diff_fails = refl

abbrev after : List Server
after = ("c", 3) ∷ ("b", 2) ∷ ("a", 1) ∷ []

abbrev next : ToCud Server
next = record {
  to_create = [];
  to_update = [];
  to_delete = [];
  unchanged = ("a", 1) ∷ ("b", 2) ∷ ("c", 3) ∷ [];
}

diff_again : diff id equal in_order in_order expected after ≡ ok next
unfolding diff get insert string_eq
diff_again = refl

diff-IsPartition_example : IsPartition id equal expected current result
diff-IsPartition_example =
    diff-IsPartition id equal in_order in_order in_order-IsRange in_order-IsRange expected current
      result diff_runs

diff-DiffEnds_example :
    DiffEnds id broken expected current (diff id broken in_order in_order expected current)
diff-DiffEnds_example =
    diff-DiffEnds id broken in_order in_order in_order-IsRange in_order-IsRange expected current

equal_refl : (x : Server) → equal x x ≡ ok true
equal_refl x = ground arith

abbrev Synced : String → Type 0
Synced k = find_last id k after ≡ after_sync id result k (find_last id k current)

after-Synced : (k : String) → Synced k
unfolding or_else string_eq
after-Synced k = elim (string_eq.dec "a" k) [
  | yes at_a ↦ subst Synced at_a refl
  | no a ↦ elim (string_eq.dec "b" k) [
    | yes at_b ↦ subst Synced at_b refl
    | no b ↦ elim (string_eq.dec "c" k) [
      | yes at_c ↦ subst Synced at_c refl
      | no c ↦ elim (string_eq.dec "d" k) [
        | yes at_d ↦ subst Synced at_d refl
        | no d ↦ ground arith
      ]
    ]
  ]
]

diff-IsSettled_example : IsSettled id next
diff-IsSettled_example =
    diff-IsSettled id equal in_order in_order in_order-IsRange in_order-IsRange expected current
      after result next equal_refl diff_runs after-Synced diff_again

diff-expects_nil_example :
    ((result.to_create ≡ []) × (result.to_update ≡ []) × (result.unchanged ≡ [])) ↔ (expected ≡ [])
diff-expects_nil_example =
    diff-expects_nil equal id in_order in_order in_order-IsRange in_order-IsRange expected current
      result diff_runs
