-- ===== src/Controller/ExpectedPatch/Ops.antt =====
-- The operations of a batch, and which of them have succeeded after it.
use mathlib.Core.List.{map, Perm}
use mathlib.Core.Path.{sym, ◌∙◌, subst}
use resourceconsist.Base.{
  ℕ, zero, suc, String, ◌≡◌, refl, ◌⊎◌, inl, inr, Bool, true, false, some, List, [], ◌∷◌, arith,
  if◌then◌else◌, contains, string_eq, get_elem?, Option-cases, Bool-cases, is_empty, length, ap,
}
use resourceconsist.Controller.Types.{PodExpectedFinalizerOps}
use resourceconsist.Controller.ExpectedPatch.{
  OpsList, Done, new_ops, names_with, all_succeed, set_succeed, call_op, op_at_index, batch_ops,
}
use resourceconsist.Utils.Batch.Calls.{slow_start_batch-CalledEach}
use resourceconsist.Utils.Batch.Rules.{batch-keeps}

abbrev pub op_names : OpsList → List String
op_names = map (λ op. op.name)

pub op_names-new_ops : (names : List String) → op_names (new_ops names) ≡ names
op_names-new_ops [] = refl
op_names-new_ops (n ∷ names) = ap (λ ns. n ∷ ns) (op_names-new_ops names)

pub names_with-new_ops : (names : List String) → names_with true (new_ops names) ≡ []
names_with-new_ops [] = refl
names_with-new_ops (n ∷ names) = names_with-new_ops names

pub all_succeed_lem : (ops : OpsList) → all_succeed ops ≡ is_empty (names_with false ops)
all_succeed_lem [] = refl
all_succeed_lem (op ∷ ops) = ground (arith, all_succeed_lem ops)

-- An operation has succeeded or not.
pub contains-names_with :
    (ops : OpsList) (n : String)
    → contains (op_names ops) n ≡ true
    → (contains (names_with true ops) n ≡ true) ⊎ (contains (names_with false ops) n ≡ true)
contains-names_with [] n h = cc
contains-names_with (op ∷ ops) n h = ground (arith, contains-names_with ops n)

op_names-set_succeed : (i : ℕ) (ops : OpsList) → op_names (set_succeed i ops) ≡ op_names ops
op_names-set_succeed i [] = refl
op_names-set_succeed zero (op ∷ ops) = refl
op_names-set_succeed (suc i) (op ∷ ops) = ap (λ ns. op.name ∷ ns) (op_names-set_succeed i ops)

-- What setting `Succeed` of the operation `i` does to the names of those that have succeeded.
pub contains-set_succeed :
    (i : ℕ) (ops : OpsList) (op : PodExpectedFinalizerOps) (n : String)
    → get_elem? ops i ≡ some op
    → contains (names_with true (set_succeed i ops)) n
      ≡ (if contains (names_with true ops) n then true else contains (op.name ∷ []) n)
contains-set_succeed i [] op n h = cc
contains-set_succeed zero (o ∷ ops) op n h = ground arith
contains-set_succeed (suc i) (o ∷ ops) op n h = ground (arith, contains-set_succeed i ops op n h)

-- `Succeed` of the operation `i` is set if `b` holds.
abbrev pub mark : Bool → ℕ → OpsList → OpsList
mark b i ops = if b then set_succeed i ops else ops

module _ (b : Bool) (i : ℕ) (ops : OpsList) (op : PodExpectedFinalizerOps) (n : String)
    (here : get_elem? ops i ≡ some op) where
  pub contains-mark_inv :
      contains (names_with true (mark b i ops)) n ≡ true
      → (contains (names_with true ops) n ≡ true) ⊎ ((b ≡ true) × (op.name ≡ n))
  contains-mark_inv = ground (arith, contains-set_succeed i ops op n)

  pub contains-mark_old :
      contains (names_with true ops) n ≡ true → contains (names_with true (mark b i ops)) n ≡ true
  contains-mark_old = ground (arith, contains-set_succeed i ops op n)

  pub contains-mark_new :
      b ≡ true → op.name ≡ n → contains (names_with true (mark b i ops)) n ≡ true
  contains-mark_new = ground (arith, contains-set_succeed i ops op n)

module _ {κ} {W : Type 0} (schedule : List ℕ → List ℕ)
    (fair : (is : List ℕ) → Perm (schedule is) is) (f : String → W → Done W) where
  -- What each call keeps holds after the batch, whatever failed.
  pub batch_ops-keeps :
      (P : W → OpsList → Type κ)
      → ((i : ℕ) (w : W) (ops : OpsList) (op : PodExpectedFinalizerOps)
          → get_elem? ops i ≡ some op
          → P w ops
          → P (f op.name w).2 (mark (f op.name w).1 i ops))
      → (ops : OpsList) (w : W) → P w ops
      → let r = batch_ops schedule f ops w in P r.2.0 r.2.1
  batch_ops-keeps P step ops w h =
      batch-keeps (op_at_index f) (λ s. P s.0 s.1) step' schedule fair (length ops) (w, ops)
        (batch_ops schedule f ops w)
        (slow_start_batch-CalledEach (op_at_index f) schedule fair (length ops) 1 (w, ops)
          (omega arith))
        h
    where
      step' :
          (i : ℕ) (s : W × OpsList) → P s.0 s.1 → P (op_at_index f i s).1.0 (op_at_index f i s).1.1
      step' i (t, os) p = elim (Option-cases (get_elem? os i)) [
        | inl past ↦ subst (λ o. P (call_op f i os o t).1.0 (call_op f i os o t).1.1) (sym past) p
        | inr (op, here) ↦
            subst (λ o. P (call_op f i os o t).1.0 (call_op f i os o t).1.1) (sym here)
              (step i t os op here p)
      ]

module _ {W : Type 0} (schedule : List ℕ → List ℕ) (fair : (is : List ℕ) → Perm (schedule is) is)
    (f : String → W → Done W) where
  -- The operations keep their names.
  pub batch_ops-names :
      (ops : OpsList) (w : W) → op_names (batch_ops schedule f ops w).2.1 ≡ op_names ops
  batch_ops-names ops w =
      batch_ops-keeps schedule fair f (λ t os. op_names os ≡ op_names ops)
        (λ i t os op here p. elim (Bool-cases (f op.name t).1) [
          | inl done ↦ rw done (op_names-set_succeed i os ∙ p)
          | inr not_done ↦ rw not_done p
        ])
        ops w refl
