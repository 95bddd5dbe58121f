-- ===== src/Utils/Batch/Tests.antt =====
-- Runs of `SlowStartBatch`, and its theorems at concrete calls.
use mathlib.Core.List.Perm
use resourceconsist.Base.{
  ℕ, ◌≡◌, refl, true, false, Option, none, some, List, [], ◌∷◌, GoError, errorf, ltb, if◌then◌else◌,
  ◌&&◌, arith,
}
use resourceconsist.Utils.Batch.{slow_start_batch}
use resourceconsist.Utils.Batch.Calls.{CalledEach, slow_start_batch-CalledEach}

-- The calls leave their index behind, and the call for 1 fails.
abbrev call : ℕ → List ℕ → Option GoError × List ℕ
call i s = (if ltb 0 i && ltb i 2 then some (errorf "no") else none, i ∷ s)

abbrev in_order : List ℕ → List ℕ
in_order is = is

batches :
    slow_start_batch (λ i _. call i) in_order false 5 1 []
    ≡ (4, some (errorf "no"), 4 ∷ 3 ∷ 2 ∷ 1 ∷ 0 ∷ [])
unfolding slow_start_batch
batches = refl

-- With short-circuiting the batch 1, 2 is the last.
short_circuit :
    slow_start_batch (λ i _. call i) in_order true 5 1 [] ≡ (2, some (errorf "no"), 2 ∷ 1 ∷ 0 ∷ [])
unfolding slow_start_batch
short_circuit = refl

slow_start_batch-CalledEach_example :
    CalledEach call in_order Perm.refl 5 [] (slow_start_batch (λ i _. call i) in_order false 5 1 [])
slow_start_batch-CalledEach_example =
    slow_start_batch-CalledEach call in_order Perm.refl 5 1 [] (omega arith)
