-- ===== src/Webhook/Certs/Files.antt =====
-- The files that `ensureWebhookCABundleAndCert` leaves.
use mathlib.Core.Path.{◌∙◌}
use resourceconsist.Base.{
  String, ◌≡◌, refl, ap, false, Option, none, some, arith, ok, Option-cases, inl, inr, is_none,
}
use resourceconsist.Base.Steps.{>>=-ends}
use resourceconsist.Webhook.CertApi.{Secret, CertApi, bytes_of}
use resourceconsist.Webhook.Certs.{
  content, is_dirty, ensure_webhook_secret, ensure_webhook_cert, ensure_webhook_ca_bundle_and_cert,
}
use resourceconsist.Webhook.Certs.Ensured.{IsCertApi, IsInPlace, ensure_webhook_secret-IsInPlace}
use resourceconsist.Webhook.Certs.Bundle.{fails_or_done-ok}

module _ {W : Type 0} (c : CertApi W) where
  -- The last two calls have written the two texts.
  abbrev pub Wrote : String → String → String → W → Type 0
  Wrote cert_dir key cert w =
      (x : W) × (y : W) × (c.write_file (c.join_path cert_dir "tls.key") key x ≡ (none, y))
      × (c.write_file (c.join_path cert_dir "tls.crt") cert y ≡ (none, w))

  ensure_webhook_cert-Wrote :
      (cert_dir : String) (key cert : Option String) (v w : W) (u : Unit {0})
      → ensure_webhook_cert c cert_dir key cert v ≡ (ok u, w)
      → Wrote cert_dir (content c key) (content c cert) w
  unfolding ensure_webhook_cert
  ensure_webhook_cert-Wrote cert_dir key cert v w u h =
      >>=-ends _ _ v (λ _ t. Wrote cert_dir (content c key) (content c cert) t)
        (λ a x made.
          >>=-ends _ _ x (λ _ t. Wrote cert_dir (content c key) (content c cert) t)
            (λ b y wrote b' t last. (
              x,
              y,
              fails_or_done-ok (c.write_file (c.join_path cert_dir "tls.key") (content c key)) x y b
                  wrote,
              fails_or_done-ok (c.write_file (c.join_path cert_dir "tls.crt") (content c cert)) y t
                  b' last,
            )))
        u w h

  some_bytes : (o : Option String) → is_none o ≡ false → (bytes : String) × (o ≡ some bytes)
  some_bytes none h = cc
  some_bytes (some bytes) h = (bytes, refl)

  -- A secret that needs no update has the bytes of both files.
  has_bytes :
      (s : Secret)
      → is_dirty c s ≡ false
      → (key : String) × (cert : String) × (bytes_of "tls.key" s.secret_data ≡ some key)
        × (bytes_of "tls.crt" s.secret_data ≡ some cert)
  unfolding is_dirty
  has_bytes s clean = elim (Option-cases s.secret_data) [
    | inl nil ↦ cc (rw nil at clean)
    | inr (m, there) ↦
        let tests = rw there at clean in
        let (key, key_there) = some_bytes (bytes_of "tls.key" (some m)) (ground (arith, tests)) in
        let (cert, cert_there) = some_bytes (bytes_of "tls.crt" (some m)) (ground (arith, tests)) in
        (
          key,
          cert,
          ap (bytes_of "tls.key") there ∙ key_there,
          ap (bytes_of "tls.crt") there ∙ cert_there,
        )
  ]

  -- If ensureWebhookCABundleAndCert ends well, then its last two calls have written the files tls.key
  -- and tls.crt, with the bytes that the secret has under these names; the secret is the one that
  -- ensureWebhookSecret has returned, and it had been stored.
  pub ensure_webhook-Wrote :
      IsCertApi c
      → (dns_name cert_dir : String) (v w : W)
      → ensure_webhook_ca_bundle_and_cert c dns_name cert_dir v ≡ (ok tt, w)
      → (s : Secret) × (x : W) × (key : String) × (cert : String) × (ensure_webhook_secret c
            dns_name v
          ≡ (ok s, x))
        × IsInPlace c s x
        × (bytes_of "tls.key" s.secret_data ≡ some key)
        × (bytes_of "tls.crt" s.secret_data ≡ some cert)
        × Wrote cert_dir key cert w
  unfolding ensure_webhook_ca_bundle_and_cert
  ensure_webhook-Wrote laws dns_name cert_dir v w h =
      >>=-ends _ _ v Result
        (λ s x secret. >>=-ends _ _ x Result (λ a y e₂. >>=-ends _ _ y Result (λ b z e₃.
          >>=-ends _ _ z Result (λ d z' e₄. >>=-ends _ _ z' Result (λ f z'' e₅ u t e₆.
            let (in_place, _) =
              ensure_webhook_secret-IsInPlace c laws dns_name dns_name s v x secret in
            let (key, cert, key_there, cert_there) = has_bytes s in_place.0 in
            let (p, q, wrote, last) =
              ensure_webhook_cert-Wrote cert_dir (bytes_of "tls.key" s.secret_data)
                (bytes_of "tls.crt" s.secret_data) z'' t u e₆ in
            (
              s,
              x,
              key,
              cert,
              secret,
              in_place,
              key_there,
              cert_there,
              (p, q, rw key_there at wrote, rw cert_there at last),
            ))))))
        tt w h
    where
      Result : Unit {0} → W → Type 0
      Result u t =
          (s : Secret) × (x : W) × (key : String) × (cert : String) × (ensure_webhook_secret c
              dns_name v
            ≡ (ok s, x))
          × IsInPlace c s x
          × (bytes_of "tls.key" s.secret_data ≡ some key)
          × (bytes_of "tls.crt" s.secret_data ≡ some cert)
          × Wrote cert_dir key cert t
