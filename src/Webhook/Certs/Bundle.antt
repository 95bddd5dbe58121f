-- ===== src/Webhook/Certs/Bundle.antt =====
-- The bundles of a webhook configuration, and the files that are written from the secret.
use mathlib.Core.Path.{◌∙◌, sym}
use resourceconsist.Base.{
  String, ◌≡◌, refl, ap, Option, none, some, [], ◌∷◌, GoError, Outcome, ok, err, ◌⊎◌, inl, inr,
}
use resourceconsist.Base.Steps.{>>=-ends, outcome-ok}
use resourceconsist.Webhook.CertApi.{Configuration, CertApi, fails_or_done, reads}
use resourceconsist.Webhook.Certs.{fill_bundle, ensure_bundle}
use resourceconsist.Webhook.Certs.Ensured.{IsCertApi}

-- Each webhook has the bundle that it had, or the given one if it had none.
abbrev pub Filled : String → Configuration → Configuration → Type 0
Filled ca [] [] = Unit
Filled ca (none ∷ old) (b ∷ new) = (b ≡ some ca) × Filled ca old new
Filled ca (some bundle ∷ old) (b ∷ new) = (b ≡ some bundle) × Filled ca old new
Filled ca _ _ = ⊥

pub fails_or_done-ok :
    {W : Type 0} (f : W → Option GoError × W) (v w : W) (u : Unit {0})
    → fails_or_done f v ≡ (ok u, w)
    → f v ≡ (none, w)
fails_or_done-ok {W} f v w u h = ended (f v) h
  where
    ended :
        (r : Option GoError × W)
        → ◌≡◌ {A = Outcome (Unit {0}) × W}
            (elim r.0 [ none ↦ (ok tt, r.1) | some e ↦ (err e, r.1) ])
            (ok u, w)
        → r ≡ (none, w)
    ended (none, t) h = cc h
    ended (some e, t) h = cc

reads-ok :
    {W A : Type 0} (f : W → GoError ⊎ A) (v w : W) (a : A)
    → reads f v ≡ (ok a, w)
    → (f v ≡ inr a) × (v ≡ w)
reads-ok {W} {A} f v w a h = ended (f v) h
  where
    ended :
        (r : GoError ⊎ A)
        → ◌≡◌ {A = Outcome A × W} (elim r [ inl e ↦ (err e, v) | inr b ↦ (ok b, v) ]) (ok a, w)
        → (r ≡ inr a) × (v ≡ w)
    ended (inl e) h = cc
    ended (inr b) h = (ap inr (outcome-ok h), ap (λ q. q.1) h)

module _ {W : Type 0} (c : CertApi W) (laws : IsCertApi c) where
  fill_bundle-Filled :
      (ca : String) (webhooks : Configuration)
      → Filled ca webhooks (fill_bundle c (some ca) webhooks)
  unfolding fill_bundle
  fill_bundle-Filled ca [] = tt
  fill_bundle-Filled ca (none ∷ webhooks) = (refl, fill_bundle-Filled ca webhooks)
  fill_bundle-Filled ca (some bundle ∷ webhooks) = (refl, fill_bundle-Filled ca webhooks)

  fill_bundle-twice :
      (ca : String) (other : Option String) (webhooks : Configuration)
      → fill_bundle c other (fill_bundle c (some ca) webhooks) ≡ fill_bundle c (some ca) webhooks
  unfolding fill_bundle
  fill_bundle-twice ca other [] = refl
  fill_bundle-twice ca other (none ∷ webhooks) =
      ap (λ ws. some ca ∷ ws) (fill_bundle-twice ca other webhooks)
  fill_bundle-twice ca other (some bundle ∷ webhooks) =
      ap (λ ws. some bundle ∷ ws) (fill_bundle-twice ca other webhooks)

  -- An update that reports no error stores the configuration.
  abbrev pub StoresConfiguration : Type 0
  StoresConfiguration =
      (name : String) (webhooks : Configuration) (w w' : W)
      → c.update_configuration name webhooks w ≡ (none, w')
      → c.get_configuration name w' ≡ inr webhooks

  -- The configuration `new` is stored, and no other bundle changes it.
  abbrev pub IsFilled : String → String → W → W → Type 0
  IsFilled name ca v w =
      (old : Configuration) × (new : Configuration) × (c.get_configuration name v ≡ inr old)
      × (c.get_configuration name w ≡ inr new)
      × Filled ca old new
      × ((other : Option String) → fill_bundle c other new ≡ new)

  -- If the bundle of the secret is put into a configuration without an error, then each webhook of the
  -- stored configuration has the bundle that it had, or that of the secret if it had none; and putting
  -- the bundle of any other secret into that configuration leaves it as it is. An update that reports
  -- no error stores the configuration.
  pub ensure_bundle-IsFilled :
      StoresConfiguration
      → (name ca : String) (v w : W) → ensure_bundle c name (some ca) v ≡ (ok tt, w)
      → IsFilled name ca v w
  unfolding ensure_bundle
  ensure_bundle-IsFilled stores name ca v w h =
      >>=-ends (reads (c.get_configuration name)) _ v (λ u t. IsFilled name ca v t)
        (λ old x read u t e.
          let (at, same) = reads-ok (c.get_configuration name) v x old read in
          let new = fill_bundle c (some ca) old in
          let (y, last) = laws.retried (fails_or_done (c.update_configuration name new)) x in
          (
            old,
            new,
            at,
            stores name new y t
                (fails_or_done-ok (c.update_configuration name new) y t u (sym last ∙ e)),
            fill_bundle-Filled ca old,
            λ other. fill_bundle-twice ca other old,
          ))
        tt w h
