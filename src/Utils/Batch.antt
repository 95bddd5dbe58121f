-- ===== src/Utils/Batch.antt =====
-- `SlowStartBatch` and `intMin` of pkg/utils/utils.go. A call of `fn` is a step on a state. The
-- goroutines of one batch run one after another, in the order that `schedule` puts their indices in,
-- and the buffered channel `errCh` holds their errors in that order.
pub mod Order
pub mod Calls
pub mod Rules
pub mod Over
mod Tests
use resourceconsist.Base.{
  ℕ, zero, suc, ◌+◌, ◌-◌, ◌*◌, Bool, true, false, Option, none, some, List, [], ◌∷◌, ltb, length,
  if◌then◌else◌, GoError,
}
use resourceconsist.Base.{◌&&◌}
use resourceconsist.Base.{not}
use resourceconsist.Base.{is_empty}

pub int_min : ℕ → ℕ → ℕ
int_min l r = if ltb l r then l else r

-- `i, i + 1, …`: `n` indices.
pub indices : ℕ → ℕ → List ℕ
indices i zero = []
indices i (suc n) = i ∷ indices (i + 1) n

abbrev pub with_error : Option GoError → List GoError → List GoError
with_error none es = es
with_error (some e) es = e ∷ es

-- `gotErr` after a batch: the first error in the channel, if there is one.
abbrev pub received : Option GoError → List GoError → Option GoError
received got [] = got
received got (e ∷ _) = some e

module _ {ℓ} {S : Type ℓ} where
  -- The calls of one batch: their errors, and the state that they leave.
  unfoldable pub run_calls :
      (ℕ → Option GoError → S → Option GoError × S) → Option GoError → List ℕ → S → List GoError × S
  run_calls fn got [] s = ([], s)
  run_calls fn got (i ∷ is) s =
      let (e, s') = fn i got s in let (es, s'') = run_calls fn got is s' in (with_error e es, s'')

  module _ (fn : ℕ → Option GoError → S → Option GoError × S) (schedule : List ℕ → List ℕ)
      (short_circuit : Bool) where
    -- One round for each batch; a round with an empty batch ends the loop.
    pub slow_start_loop : ℕ → ℕ → ℕ → ℕ → ℕ → Option GoError → S → ℕ × Option GoError × S
    slow_start_loop zero remaining successes index batch_size got s = (successes, got, s)
    slow_start_loop (suc fuel) remaining successes index zero got s = (successes, got, s)
    slow_start_loop (suc fuel) remaining successes index (suc b) got s =
        let (errors, s') = run_calls fn got (schedule (indices index (suc b))) s in
        let successes' = successes + (suc b - length errors) in
        let remaining' = remaining - suc b in
        let got' = received got errors in
        let next =
          slow_start_loop fuel remaining' successes' (index + suc b)
            (int_min (2 * suc b) remaining') got' s' in
        if short_circuit && not (is_empty errors) then (successes', got', s') else next

    -- `count` rounds are enough, since no batch before the last is empty.
    unfoldable pub slow_start_batch : ℕ → ℕ → S → ℕ × Option GoError × S
    unfolding slow_start_loop run_calls int_min indices
    slow_start_batch count initial_batch_size s =
        slow_start_loop count count 0 0 (int_min count initial_batch_size) none s
