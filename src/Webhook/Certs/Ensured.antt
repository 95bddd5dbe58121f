-- ===== src/Webhook/Certs/Ensured.antt =====
-- The secret that `ensureWebhookSecret` leaves, and the files that are written from it.
use mathlib.Core.Path.{◌∙◌, sym}
use resourceconsist.Base.{
  String, ◌≡◌, refl, ap, Bool, true, false, some, [], ◌∷◌, if◌then◌else◌, GoError, Outcome, ok, err,
  ◌⊎◌, inl, inr, Bool-cases, if_true, if_false, string_eq,
}
use resourceconsist.Base.GoMap.{get}
use resourceconsist.Base.Steps.{outcome-ok, Step, >>=-ends}
use resourceconsist.Webhook.CertApi.{Secret, CertApi, gives}
use resourceconsist.Webhook.Certs.{
  webhook_certs_secret_name, get_namespace, is_dirty, new_secret, store_secret, ensure_found,
  ensure_webhook_secret, encode_cert_pem,
}

gives-ok :
    {W A : Type 0} (f : W → (GoError ⊎ A) × W) (v w : W) (a : A)
    → gives f v ≡ (ok a, w)
    → f v ≡ (inr a, w)
gives-ok {W} {A} f v w a h = answered (f v) h
  where
    answered :
        (r : (GoError ⊎ A) × W)
        → ◌≡◌ {A = Outcome A × W}
            (elim r.0 [ inl e ↦ (err e, r.1) | inr b ↦ (ok b, r.1) ])
            (ok a, w)
        → r ≡ (inr a, w)
    answered (inl e, t) h = cc
    answered (inr b, t) h = cc h

module _ {W : Type 0} (c : CertApi W) where
  -- What the API server has stored after a write that it answered with a secret: that secret, which
  -- has the data that were sent.
  abbrev pub Stores : ((Secret → W → (GoError ⊎ Secret) × W)) → Type 0
  Stores write =
      (sent answer : Secret) (w w' : W)
      → write sent w ≡ (inr answer, w')
      → (answer.secret_data ≡ sent.secret_data)
        × (c.get_secret sent.namespace sent.name w' ≡ inr answer)

  -- `RetryOnConflict` ends as the last of the calls has ended that it makes.
  pub record IsCertApi : Type 1 where
    pub retried : {A : Type 0} (f : Step W A) (w : W) → (w' : W) × (c.retry_on_conflict f w ≡ f w')
    pub created : Stores c.create_secret
    pub updated : Stores c.update_secret

  -- The secret is stored, and needs no update.
  abbrev pub IsInPlace : Secret → W → Type 0
  IsInPlace s w =
      (is_dirty c s ≡ false) × (c.get_secret (get_namespace c) webhook_certs_secret_name w ≡ inr s)

  -- A secret that was generated has the four keys, and goes to its name.
  abbrev IsNew : Secret → W → Type 0
  IsNew s w =
      ((t : Secret) → t.secret_data ≡ s.secret_data → is_dirty c t ≡ false)
      × (s.name ≡ webhook_certs_secret_name)
      × (s.namespace ≡ get_namespace c)

  new_secret-IsNew :
      (dns_name : String) (s : Secret) (w w' : W)
      → new_secret c dns_name w ≡ (ok s, w')
      → IsNew s w'
  unfolding new_secret is_dirty get string_eq
  new_secret-IsNew dns_name s w w' h =
      >>=-ends _ _ w IsNew
        (λ ca s₁ e₁. >>=-ends _ _ s₁ IsNew (λ ca_key_pem s₂ e₂.
          >>=-ends _ _ s₂ IsNew (λ signed s₃ e₃. >>=-ends _ _ s₃ IsNew (λ key_pem s₄ e₄ s t h₄.
            let same = outcome-ok h₄ in
            (
              λ u same_data.
                  let at : u.secret_data
                      ≡ some (
                          ("ca.key", some ca_key_pem)
                          ∷ ("ca.crt", some (encode_cert_pem c ca.1))
                          ∷ ("tls.key", some key_pem)
                          ∷ ("tls.crt", some (encode_cert_pem c signed.1))
                          ∷ []) =
                    same_data ∙ sym (ap (λ q. q.secret_data) same) in
                  rw at refl,
              sym (ap (λ q. q.name) same),
              sym (ap (λ q. q.namespace) same),
            )))))
        s w' h

  module _ (laws : IsCertApi) where
    -- One call that writes a new secret.
    write-IsInPlace :
        (write : Secret → W → (GoError ⊎ Secret) × W)
        → Stores write
        → (sent s : Secret) (v w : W) → IsNew sent v
        → c.retry_on_conflict (gives (write sent)) v ≡ (ok s, w)
        → IsInPlace s w
    write-IsInPlace write stores sent s v w (clean, named, in_ns) h =
        let (u, last) = laws.retried (gives (write sent)) v in
        let (same, at) = stores sent s u w (gives-ok (write sent) u w s (sym last ∙ h)) in
        (
          clean s same,
          ap (λ ns. c.get_secret ns webhook_certs_secret_name w) (sym in_ns)
              ∙ (ap (λ n. c.get_secret sent.namespace n w) (sym named) ∙ at),
        )

    store_secret-IsInPlace :
        (dirty : Bool) (dns_name : String) (s : Secret) (v w : W)
        → store_secret c dirty dns_name v ≡ (ok s, w)
        → IsInPlace s w
    unfolding store_secret
    store_secret-IsInPlace dirty dns_name s v w h =
        >>=-ends (new_secret c dns_name) _ v IsInPlace
          (λ sent u made t x e. stored dirty sent u t x (new_secret-IsNew dns_name sent v u made) e)
          s w h
      where
        stored :
            (dirty : Bool) (sent : Secret) (u : W) (t : Secret) (x : W)
            → IsNew sent u
            → c.retry_on_conflict
                (if dirty then gives (c.update_secret sent) else gives (c.create_secret sent))
                u
              ≡ (ok t, x)
            → IsInPlace t x
        stored true sent u t x new e = write-IsInPlace c.update_secret laws.updated sent t u x new e
        stored false sent u t x new e =
            write-IsInPlace c.create_secret laws.created sent t u x new e

    ensure_found-IsInPlace :
        (dns_name : String) (r : GoError ⊎ Secret) (s : Secret) (v w : W)
        → c.get_secret (get_namespace c) webhook_certs_secret_name v ≡ r
        → ensure_found c dns_name r v ≡ (ok s, w)
        → IsInPlace s w
    unfolding ensure_found
    ensure_found-IsInPlace dns_name (inl e) s v w at h = elim (Bool-cases e.is_not_found) [
      | inl absent ↦
          store_secret-IsInPlace false dns_name s v w
            (sym (if_true {A = Outcome Secret × W} e.is_not_found _ _ absent) ∙ h)
      | inr other ↦ cc (sym (if_false {A = Outcome Secret × W} e.is_not_found _ _ other) ∙ h)
    ]
    ensure_found-IsInPlace dns_name (inr found) s v w at h = elim (Bool-cases (is_dirty c found)) [
      | inl dirty ↦
          store_secret-IsInPlace true dns_name s v w
            (sym (if_true {A = Outcome Secret × W} (is_dirty c found) _ _ dirty) ∙ h)
      | inr clean ↦
          let ended = sym (if_false {A = Outcome Secret × W} (is_dirty c found) _ _ clean) ∙ h in
          let same : found ≡ s = outcome-ok ended in
          let still : v ≡ w = ap (λ q. q.1) ended in
          (
            ap (is_dirty c) (sym same) ∙ clean,
            ap (c.get_secret (get_namespace c) webhook_certs_secret_name) (sym still)
                ∙ (at ∙ ap inr same),
          )
    ]

    ensure_found-again :
        (dns_name : String) (s : Secret) (w : W)
        → is_dirty c s ≡ false
        → ensure_found c dns_name (inr s) w ≡ (ok s, w)
    unfolding ensure_found
    ensure_found-again dns_name s w clean =
        if_false {A = Outcome Secret × W} (is_dirty c s) _ _ clean

    -- If ensureWebhookSecret ends well, then the secret that it returns is stored and has its four
    -- keys, and a second call, for whatever DNS name, returns the same secret and changes nothing.
    pub ensure_webhook_secret-IsInPlace :
        (dns_name other_name : String) (s : Secret) (v w : W)
        → ensure_webhook_secret c dns_name v ≡ (ok s, w)
        → IsInPlace s w × (ensure_webhook_secret c other_name w ≡ (ok s, w))
    unfolding ensure_webhook_secret
    ensure_webhook_secret-IsInPlace dns_name other_name s v w h =
        let (clean, at) = ensure_found-IsInPlace dns_name _ s v w refl h in
        (
          (clean, at),
          ap (λ r. ensure_found c other_name r w) at ∙ ensure_found-again other_name s w clean,
        )
