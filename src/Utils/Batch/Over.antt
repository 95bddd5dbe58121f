-- ===== src/Utils/Batch/Over.antt =====
-- A batch over a slice of names: `SlowStartBatch(len(names), 1, false, …)` with a function that begins
-- with `name := names[i]`, as all callers in pkg/frame/controller/consister.go have it.
use mathlib.Core.List.{Perm}
use mathlib.Core.Path.{subst, sym, ◌∙◌}
use mathlib.Core.HLevel.{Π_prop}
use resourceconsist.Base.{
  ℕ, zero, suc, ◌<◌, String, ◌≡◌, ap, true, false, Option, none, some, List, [], ◌∷◌, length,
  get_elem?, GoError, errorf, contains, string_eq, arith, Option-cases, inl, inr,
}
use resourceconsist.Utils.Batch.{slow_start_batch}
use resourceconsist.Utils.Batch.Calls.{CalledEach, slow_start_batch-CalledEach}
use resourceconsist.Utils.Batch.Rules.{batch-keeps, batch-establishes}

-- An index past the end panics in Go, and is an error here; no batch has one.
abbrev pub call_name {ℓ} :
    {S : Type ℓ} → (String → S → Option GoError × S) → Option String → S → Option GoError × S
call_name f none s = (some (errorf "index out of range"), s)
call_name f (some name) s = f name s

abbrev pub at_index {ℓ} :
    {S : Type ℓ} → (String → S → Option GoError × S) → List String → ℕ → S → Option GoError × S
at_index f names i s = call_name f (get_elem? names i) s

abbrev pub batch_over {ℓ} :
    {S : Type ℓ}
    → (List ℕ → List ℕ)
    → (String → S → Option GoError × S)
    → List String
    → S
    → ℕ × Option GoError × S
batch_over schedule f names s =
    slow_start_batch (λ i _. at_index f names i) schedule false (length names) 1 s

get_elem_of_contains :
    (xs : List String) (x : String)
    → contains xs x ≡ true
    → (i : ℕ) × (i < length xs) × (get_elem? xs i ≡ some x)
get_elem_of_contains [] x h = cc
get_elem_of_contains (y ∷ xs) x h = elim (string_eq.dec y x) [
  | yes e ↦ (0, omega arith, ap some e)
  | no other ↦
      let (i, below, at) = get_elem_of_contains xs x (ground arith) in (suc i, omega arith, at)
]

contains_of_get_elem :
    (xs : List String) (i : ℕ) (x : String) → get_elem? xs i ≡ some x → contains xs x ≡ true
contains_of_get_elem [] i x h = cc
contains_of_get_elem (y ∷ xs) zero x h = ground arith
contains_of_get_elem (y ∷ xs) (suc i) x h = ground (arith, contains_of_get_elem xs i x h)

module _ {ℓ κ} {S : Type ℓ} (schedule : List ℕ → List ℕ)
    (fair : (is : List ℕ) → Perm (schedule is) is) (f : String → S → Option GoError × S) where
  batch_over-CalledEach :
      (names : List String) (s : S)
      → CalledEach (at_index f names) schedule fair (length names) s (batch_over schedule f names s)
  batch_over-CalledEach names s =
      slow_start_batch-CalledEach (at_index f names) schedule fair (length names) 1 s (omega arith)

  -- After a batch with no error, what each call does for its name is there, if no later call undoes
  -- it.
  pub batch_over-establishes :
      (Q : String → S → Type κ)
      → ((n : String) (s : S) → IsProp (Q n s))
      → ((n : String) (s : S) → (f n s).0 ≡ none → Q n (f n s).1)
      → ((j n : String) (s : S) → Q n s → Q n (f j s).1)
      → (names : List String) (s : S) → (batch_over schedule f names s).1 ≡ none
      → (n : String) → contains names n ≡ true
      → Q n (batch_over schedule f names s).2
  batch_over-establishes Q prop gets keeps names s fine n listed =
      let (i, below, at) = get_elem_of_contains names n listed in
      batch-establishes (at_index f names)
        (λ j t. (n' : String) → get_elem? names j ≡ some n' → Q n' t) gets' keeps'
        (λ j t. Π_prop (λ n'. Π_prop (λ _. prop n' t))) schedule fair (length names) s
        (batch_over schedule f names s) (batch_over-CalledEach names s) fine i below n at
    where
      gets' :
          (j : ℕ) (t : S)
          → (at_index f names j t).0 ≡ none
          → (n' : String) → get_elem? names j ≡ some n'
          → Q n' (at_index f names j t).1
      gets' j t p n' at =
          let e = ap (λ o. call_name f o t) at in
          subst (λ r. Q n' r.1) (sym e) (gets n' t (sym (ap (λ r. r.0) e) ∙ p))

      keeps' :
          (i j : ℕ) (t : S)
          → ((n' : String) → get_elem? names i ≡ some n' → Q n' t)
          → (n' : String) → get_elem? names i ≡ some n'
          → Q n' (at_index f names j t).1
      keeps' i j t q n' at = elim (Option-cases (get_elem? names j)) [
        | inl past ↦ subst (λ o. Q n' (call_name f o t).1) (sym past) (q n' at)
        | inr (m, here) ↦ subst (λ o. Q n' (call_name f o t).1) (sym here) (keeps m n' t (q n' at))
      ]

  -- What every call for one of the names keeps still holds after the batch, whatever failed.
  pub batch_over-keeps :
      (P : S → Type κ) (names : List String)
      → ((j : String) (s : S) → contains names j ≡ true → P s → P (f j s).1)
      → (s : S) → P s
      → P (batch_over schedule f names s).2
  batch_over-keeps P names step s h =
      batch-keeps (at_index f names) P step' schedule fair (length names) s
        (batch_over schedule f names s) (batch_over-CalledEach names s) h
    where
      step' : (i : ℕ) (t : S) → P t → P (at_index f names i t).1
      step' i t p = elim (Option-cases (get_elem? names i)) [
        | inl past ↦ subst (λ o. P (call_name f o t).1) (sym past) p
        | inr (m, here) ↦
            subst (λ o. P (call_name f o t).1) (sym here)
              (step m t (contains_of_get_elem names i m here) p)
      ]
