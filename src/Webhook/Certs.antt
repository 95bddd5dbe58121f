-- ===== src/Webhook/Certs.antt =====
-- `Initialize` and what it calls, of pkg/frame/webhook/resourceconsist_webhook.go, and the functions
-- for certificates of pkg/utils/utils.go: a secret with a self-signed certificate, the bundle of the
-- webhook configurations, and the files of the webhook server.
pub mod Ensured
pub mod Bundle
pub mod Files
mod Tests
use resourceconsist.Base.{
  ℕ, zero, suc, String, ◌<>◌, Bool, true, false, not, ◌&&◌, ◌||◌, Option, none, some, List, [], ◌∷◌,
  if◌then◌else◌, length, eqb, is_empty, is_none, GoError, errorf, ◌==◌, string_eq, Outcome, ok, err,
  panic, ◌⊎◌, inl, inr,
}
use resourceconsist.Base.GoMap.{GoMap, get}
use resourceconsist.Webhook.CertApi.{
  Secret, bytes_of, has_key, Configuration, ExtKeyUsage, CertConfig, CertApi, fails_or_done, gives,
  reads,
}
use resourceconsist.Base.Steps.{Step, ◌>>=◌, ◌>>◌, lift, done}

abbrev pub mutating_webhook_configuration_name : String
mutating_webhook_configuration_name = "resourceconsist-manager-mutating"

abbrev pub validating_webhook_configuration_name : String
validating_webhook_configuration_name = "resourceconsist-manager-validating"

abbrev pub webhook_certs_secret_name : String
webhook_certs_secret_name = "resourceconsist-webhook-certs"

module _ {W : Type 0} (c : CertApi W) where
  -- `getNamespace`
  pub get_namespace : String
  get_namespace = if c.pod_namespace == "" then "resourceconsist" else c.pod_namespace

  -- `NewPrivateKey`
  pub new_private_key : Step W c.Key
  new_private_key = c.generate_key

  -- `EncodeCertPEM`
  pub encode_cert_pem : c.Cert → String
  encode_cert_pem cert = c.encode_pem "CERTIFICATE" cert

  -- The guards of `NewSignedCert`.
  abbrev pub check_config : CertConfig → Outcome (Unit {0})
  check_config cfg =
      if cfg.common_name == ""
      then err (errorf "must specify a CommonName")
      else if is_empty cfg.usages
      then err (errorf "must specify at least one ExtKeyUsage")
      else ok tt

  pub new_signed_cert : CertConfig → c.Key → c.Cert → c.Key → Step W c.Cert
  new_signed_cert cfg key ca_cert ca_key = do
    serial ← c.random_serial
    lift (check_config cfg)
    der ← c.create_certificate serial cfg ca_cert key ca_key
    lift (c.parse_certificate der)

  -- `generateSelfSignedCACert`
  pub generate_self_signed_ca_cert : Step W (c.Key × c.Cert)
  generate_self_signed_ca_cert = do
    ca_key ← new_private_key
    ca_cert ← c.new_self_signed_ca_cert "self-signed-k8s-cert" ca_key
    done (ca_key, ca_cert)

  -- `generateSelfSignedCert`
  pub generate_self_signed_cert : c.Cert → c.Key → String → Step W (c.Key × c.Cert)
  generate_self_signed_cert ca_cert ca_key dns_name = do
    private_key ← new_private_key
    signed_cert ←
        new_signed_cert
          (record {
            common_name = dns_name;
            dns_names = dns_name ∷ [];
            usages = c.server_auth ∷ [];
          })
          private_key ca_cert ca_key
    done (private_key, signed_cert)

  -- The test on the secret that was found.
  pub is_dirty : Secret → Bool
  is_dirty secret = elim secret.secret_data [
    | none ↦ true
    | some m ↦
        not (eqb (length m) 4)
        || (is_none (bytes_of "ca.key" (some m))
            || (is_none (bytes_of "ca.crt" (some m))
                || (is_none (bytes_of "tls.key" (some m))
                    || is_none (bytes_of "tls.crt" (some m)))))
  ]

  -- The secret that is generated.
  pub new_secret : String → Step W Secret
  new_secret dns_name = do
    (ca_key, ca_cert) ← generate_self_signed_ca_cert
    ca_key_pem ← lift (c.marshal_private_key_to_pem ca_key)
    (private_key, signed_cert) ← generate_self_signed_cert ca_cert ca_key dns_name
    private_key_pem ← lift (c.marshal_private_key_to_pem private_key)
    done (record {
      name = webhook_certs_secret_name;
      namespace = get_namespace;
      secret_data = some (
          ("ca.key", some ca_key_pem)
          ∷ ("ca.crt", some (encode_cert_pem ca_cert))
          ∷ ("tls.key", some private_key_pem)
          ∷ ("tls.crt", some (encode_cert_pem signed_cert))
          ∷ []);
    })

  -- The secret is generated, and updated if it was dirty and created otherwise.
  pub store_secret : Bool → String → Step W Secret
  store_secret dirty dns_name = do
    secret ← new_secret dns_name
    c.retry_on_conflict
        (if dirty then gives (c.update_secret secret) else gives (c.create_secret secret))

  pub ensure_found : String → GoError ⊎ Secret → Step W Secret
  ensure_found dns_name (inl e) w =
      if e.is_not_found then store_secret false dns_name w else (err e, w)
  ensure_found dns_name (inr secret) w =
      if is_dirty secret then store_secret true dns_name w else (ok secret, w)

  unfoldable pub ensure_webhook_secret : String → Step W Secret
  unfolding ensure_found
  ensure_webhook_secret dns_name w =
      ensure_found dns_name (c.get_secret get_namespace webhook_certs_secret_name w) w

  -- The loop over the webhooks of a configuration.
  pub fill_bundle : Option String → Configuration → Configuration
  fill_bundle ca [] = []
  fill_bundle ca (none ∷ webhooks) = ca ∷ fill_bundle ca webhooks
  fill_bundle ca (some bundle ∷ webhooks) = some bundle ∷ fill_bundle ca webhooks

  -- One configuration is read, filled and updated; a retry sends the same object again.
  pub ensure_bundle : String → Option String → Step W (Unit {0})
  ensure_bundle name ca = do
    webhooks ← reads (c.get_configuration name)
    c.retry_on_conflict (fails_or_done (c.update_configuration name (fill_bundle ca webhooks)))

  -- What is written of a byte slice that may be nil.
  abbrev pub content : Option String → String
  content none = ""
  content (some bytes) = bytes

  pub make_cert_dir : String → Step W (Unit {0})
  make_cert_dir cert_dir w =
      if c.dir_is_missing cert_dir w then fails_or_done (c.mkdir_all cert_dir) w else (ok tt, w)

  -- `ensureWebhookCert`
  pub ensure_webhook_cert : String → Option String → Option String → Step W (Unit {0})
  ensure_webhook_cert cert_dir tls_key tls_cert = do
    make_cert_dir cert_dir
    fails_or_done (c.write_file (c.join_path cert_dir "tls.key") (content tls_key))
    fails_or_done (c.write_file (c.join_path cert_dir "tls.crt") (content tls_cert))

  abbrev pub require_key : String → Secret → Outcome (Unit {0})
  require_key key secret =
      if has_key key secret.secret_data then ok tt else err (errorf (key <> " not found in secret"))

  unfoldable pub ensure_webhook_ca_bundle_and_cert : String → String → Step W (Unit {0})
  ensure_webhook_ca_bundle_and_cert dns_name cert_dir = do
    secret ← ensure_webhook_secret dns_name
    ensure_bundle mutating_webhook_configuration_name (bytes_of "ca.crt" secret.secret_data)
    ensure_bundle validating_webhook_configuration_name (bytes_of "ca.crt" secret.secret_data)
    lift (require_key "tls.key" secret)
    lift (require_key "tls.crt" secret)
    ensure_webhook_cert cert_dir (bytes_of "tls.key" secret.secret_data)
        (bytes_of "tls.crt" secret.secret_data)
