-- ===== src/Base/Steps.antt =====
-- Steps on a state that may end in an error or in a panic, in the order in which the code makes them.
use Prim.Native.String.{String}
use mathlib.Core.Path.{◌≡◌, refl, ap}
use resourceconsist.Base.Results.{Outcome, ok, err, panic, wrap}

abbrev pub Step : Type 0 → Type 0 → Type 0
Step S A = S → Outcome A × S

-- A call that has ended, and what follows it.
abbrev pub after : {S A B : Type 0} → (A → Step S B) → Outcome A × S → Outcome B × S
after f r = elim r.0 [ ok a ↦ f a r.1 | err e ↦ (err e, r.1) | panic ↦ (panic, r.1) ]

infixl 5 ◌>>=◌ ◌>>◌
-- Shut in proofs, which go by the lemmas below.
unfoldable pub ◌>>=◌ : {S A B : Type 0} → Step S A → (A → Step S B) → Step S B
◌>>=◌ m f s = after f (m s)

abbrev pub ◌>>◌ : {S B : Type 0} → Step S (Unit {0}) → Step S B → Step S B
m >> next = m >>= λ _. next

abbrev pub lift : {S A : Type 0} → Outcome A → Step S A
lift m s = (m, s)

abbrev pub done : {S A : Type 0} → A → Step S A
done a s = (ok a, s)

abbrev pub wrap_outcome : {A : Type 0} → String → Outcome A → Outcome A
wrap_outcome prefix (ok a) = ok a
wrap_outcome prefix (err e) = err (wrap prefix e)
wrap_outcome prefix panic = panic

-- `if err != nil { return fmt.Errorf("<prefix>%s", err.Error()) }`
abbrev pub wrap_error : {S A : Type 0} → String → Step S A → Step S A
wrap_error prefix m s = (wrap_outcome prefix (m s).0, (m s).1)

pub outcome-ok :
    {A S : Type 0} {x y : A} {s t : S} → ◌≡◌ {A = Outcome A × S} (ok x, s) (ok y, t) → x ≡ y
outcome-ok h = cc

pub after-same :
    {S A B : Type 0} (f g : A → Step S B) (r : Outcome A × S)
    → ((a : A) (s : S) → f a s ≡ g a s)
    → after f r ≡ after g r
after-same f g (ok a, s) h = h a s
after-same f g (err e, s) h = refl
after-same f g (panic, s) h = refl

module _ {S A B : Type 0} (m : Step S A) (f : A → Step S B) (s : S) where
  pub >>=-after : {r : Outcome A × S} → m s ≡ r → (m >>= f) s ≡ after f r
  unfolding ◌>>=◌
  >>=-after h = ap (after f) h

  -- What a chain that ended well was made of.
  pub >>=-inv :
      {b : B} {t : S}
      → (m >>= f) s ≡ (ok b, t)
      → (a : A) × (s' : S) × (m s ≡ (ok a, s')) × (f a s' ≡ (ok b, t))
  unfolding ◌>>=◌
  >>=-inv h = after-inv (m s) refl h
    where
      after-inv :
          {b : B} {t : S} (r : Outcome A × S)
          → m s ≡ r
          → after f r ≡ (ok b, t)
          → (a : A) × (s' : S) × (m s ≡ (ok a, s')) × (f a s' ≡ (ok b, t))
      after-inv (ok a, s') e h = (a, s', e, h)
      after-inv (err x, s') e h = cc
      after-inv (panic, s') e h = cc

  -- The same, for what is to be shown of the result.
  pub >>=-ends :
      (P : B → S → Type 0)
      → ((a : A) (s' : S) → m s ≡ (ok a, s') → (b : B) (t : S) → f a s' ≡ (ok b, t) → P b t)
      → (b : B) (t : S) → (m >>= f) s ≡ (ok b, t)
      → P b t
  >>=-ends P next b t h = let (a, s', e, rest) = >>=-inv h in next a s' e b t rest

  -- What holds after the first step and is kept by what follows it holds after both.
  pub >>=-keeps :
      (P : S → Type 0)
      → P (m s).1
      → ((a : A) (t : S) → m s ≡ (ok a, t) → P t → P (f a t).1)
      → P ((m >>= f) s).1
  unfolding ◌>>=◌
  >>=-keeps P first next = go (m s) refl first
    where
      go : (r : Outcome A × S) → m s ≡ r → P r.1 → P (after f r).1
      go (ok a, t) e p = next a t e p
      go (err x, t) e p = p
      go (panic, t) e p = p

pub wrap_error-ok :
    {S A : Type 0} (prefix : String) (m : Step S A) (s t : S) (a : A)
    → wrap_error prefix m s ≡ (ok a, t)
    → m s ≡ (ok a, t)
wrap_error-ok {S} {A} prefix m s t a h = unwrapped (m s) h
  where
    unwrapped :
        (r : Outcome A × S)
        → ◌≡◌ {A = Outcome A × S} (wrap_outcome prefix r.0, r.1) (ok a, t)
        → r ≡ (ok a, t)
    unwrapped (ok b, u) h = h
    unwrapped (err e, u) h = cc
    unwrapped (panic, u) h = cc

-- A step that keeps what holds of the state, however it ends.
abbrev pub Keeps {κ} : {S A : Type 0} → (S → Type κ) → Step S A → Type κ
Keeps {S} P m = (s : S) → P s → P (m s).1

module _ {κ} {S : Type 0} (P : S → Type κ) where
  pub Keeps->>= :
      {A B : Type 0} (m : Step S A) (f : A → Step S B)
      → Keeps P m
      → ((a : A) → Keeps P (f a))
      → Keeps P (m >>= f)
  unfolding ◌>>=◌
  Keeps->>= {A} {B} m f first next s h = go (m s) (first s h)
    where
      go : (r : Outcome A × S) → P r.1 → P (after f r).1
      go (ok a, s') p = next a s' p
      go (err x, s') p = p
      go (panic, s') p = p

  pub Keeps-wrap_error :
      {A : Type 0} (prefix : String) (m : Step S A) → Keeps P m → Keeps P (wrap_error prefix m)
  Keeps-wrap_error prefix m keeps = keeps

  pub Keeps-lift : {A : Type 0} (m : Outcome A) → Keeps P (lift m)
  Keeps-lift m s h = h
