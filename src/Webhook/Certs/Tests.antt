-- ===== src/Webhook/Certs/Tests.antt =====
-- A first start of the webhook, over an API server and files in memory.
use resourceconsist.Base.{
  ℕ, String, ◌≡◌, refl, false, Option, none, some, List, [], ◌∷◌, ok, GoError, ◌⊎◌, inl, inr,
  string_eq, arith,
}
use resourceconsist.Base.GoMap.{get}
use resourceconsist.Base.Steps.{◌>>=◌, done}
use resourceconsist.Controller.Client.Memory.{not_found}
use resourceconsist.Webhook.CertApi.{Secret, Configuration, CertApi, bytes_of}
use resourceconsist.Webhook.Certs.{
  get_namespace, new_private_key, encode_cert_pem, new_signed_cert, generate_self_signed_ca_cert,
  generate_self_signed_cert, new_secret, store_secret, fill_bundle, ensure_bundle, make_cert_dir,
  ensure_webhook_cert, ensure_webhook_secret, ensure_webhook_ca_bundle_and_cert,
}
use resourceconsist.Webhook.Certs.Ensured.{IsCertApi, IsInPlace, ensure_webhook_secret-IsInPlace}
use resourceconsist.Webhook.Certs.Bundle.{IsFilled, ensure_bundle-IsFilled}
use resourceconsist.Webhook.Certs.Files.{Wrote, ensure_webhook-Wrote}

record Host : Type 0 where
  secret : Option Secret
  configuration : Configuration
  files : List (String × String)

abbrev stored : Option Secret → GoError ⊎ Secret
stored none = inl not_found
stored (some s) = inr s

abbrev put_secret : Secret → Host → (GoError ⊎ Secret) × Host
put_secret s w = (inr s, record w { secret = some s })

abbrev certs : CertApi Host
certs = record {
  Key = String;
  Cert = String;
  Serial = ℕ;
  random_serial = done 7;
  generate_key = done "key";
  new_self_signed_ca_cert = λ name key. done "ca";
  create_certificate = λ serial cfg ca key ca_key. done "der";
  parse_certificate = λ der. ok "cert";
  marshal_private_key_to_pem = λ key. ok "key pem";
  encode_pem = λ type cert. cert;
  server_auth = "server auth";
  get_secret = λ ns n w. stored w.secret;
  create_secret = put_secret;
  update_secret = put_secret;
  get_configuration = λ n w. inr w.configuration;
  update_configuration = λ n ws w. (none, record w { configuration = ws });
  retry_on_conflict = λ f. f;
  pod_namespace = "";
  dir_is_missing = λ dir w. false;
  mkdir_all = λ dir w. (none, w);
  join_path = λ dir file. file;
  write_file = λ path text w. (none, record w { files = (path, text) ∷ w.files });
}

put_secret-stored :
    (sent answer : Secret) (w w' : Host)
    → put_secret sent w ≡ (inr answer, w')
    → (answer.secret_data ≡ sent.secret_data) × (stored w'.secret ≡ inr answer)
put_secret-stored sent answer w w' h = (ground (arith, h), ground (arith, h))

certs-IsCertApi : IsCertApi certs
certs-IsCertApi = record {
  retried = λ f w. (w, refl);
  created = put_secret-stored;
  updated = put_secret-stored;
}

abbrev start : Host
start = record { secret = none; configuration = none ∷ some "old" ∷ []; files = [] }

abbrev made : Secret
made = record {
  name = "resourceconsist-webhook-certs";
  namespace = "resourceconsist";
  secret_data = some (
      ("ca.key", some "key pem")
      ∷ ("ca.crt", some "ca")
      ∷ ("tls.key", some "key pem")
      ∷ ("tls.crt", some "cert")
      ∷ []);
}

abbrev holding : Host
holding = record start { secret = some made }

is_made : ensure_webhook_secret certs "dns" start ≡ (ok made, holding)
unfolding ensure_webhook_secret store_secret new_secret generate_self_signed_ca_cert
    generate_self_signed_cert new_signed_cert new_private_key encode_cert_pem get_namespace ◌>>=◌
    string_eq
is_made = refl

ensure_webhook_secret-IsInPlace_example :
    IsInPlace certs made holding
    × (ensure_webhook_secret certs "other" holding ≡ (ok made, holding))
ensure_webhook_secret-IsInPlace_example =
    ensure_webhook_secret-IsInPlace certs certs-IsCertApi "dns" "other" made start holding is_made

abbrev filled : Host
filled = record start { configuration = some "ca" ∷ some "old" ∷ [] }

is_filled : ensure_bundle certs "mutating" (some "ca") start ≡ (ok tt, filled)
unfolding ensure_bundle fill_bundle ◌>>=◌
is_filled = refl

configuration-stored :
    (name : String) (ws : Configuration) (w w' : Host)
    → certs.update_configuration name ws w ≡ (none, w')
    → certs.get_configuration name w' ≡ inr ws
configuration-stored name ws w w' h = ground (arith, h)

ensure_bundle-IsFilled_example : IsFilled certs certs-IsCertApi "mutating" "ca" start filled
ensure_bundle-IsFilled_example =
    ensure_bundle-IsFilled certs certs-IsCertApi configuration-stored "mutating" "ca" start filled
      is_filled

abbrev started : Host
started = record {
  secret = some made;
  configuration = some "ca" ∷ some "old" ∷ [];
  files = ("tls.crt", "cert") ∷ ("tls.key", "key pem") ∷ [];
}

is_started : ensure_webhook_ca_bundle_and_cert certs "dns" "dir" start ≡ (ok tt, started)
unfolding ensure_webhook_ca_bundle_and_cert ensure_webhook_secret store_secret new_secret
    generate_self_signed_ca_cert generate_self_signed_cert new_signed_cert new_private_key
    encode_cert_pem get_namespace ensure_bundle fill_bundle make_cert_dir ensure_webhook_cert ◌>>=◌
    string_eq get
is_started = refl

ensure_webhook-Wrote_example :
    (s : Secret) × (x : Host) × (key : String) × (cert : String) × (ensure_webhook_secret certs
        "dns" start
      ≡ (ok s, x))
    × IsInPlace certs s x
    × (bytes_of "tls.key" s.secret_data ≡ some key)
    × (bytes_of "tls.crt" s.secret_data ≡ some cert)
    × Wrote certs "dir" key cert started
ensure_webhook-Wrote_example =
    ensure_webhook-Wrote certs certs-IsCertApi "dns" "dir" start started is_started
