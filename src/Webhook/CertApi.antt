-- ===== src/Webhook/CertApi.antt =====
-- What the certificates of the webhook need of other libraries: secrets and webhook configurations,
-- cryptography and files. It is a parameter; a call that may fail is a step.
use resourceconsist.Base.{
  String, Bool, false, not, Option, none, some, List, is_none, GoError, Outcome, ok, err, ◌⊎◌, inl,
  inr,
}
use resourceconsist.Base.GoMap.{GoMap, get}
use resourceconsist.Base.Steps.{Step}

-- What is used of `corev1.Secret`. The values of the map are byte slices, `none` where one is nil; a
-- map that is nil is `none`.
pub record Secret : Type 0 where
  pub name : String
  pub namespace : String
  pub secret_data : Option (GoMap (Option String))

-- `m[key]` of such a map.
abbrev pub bytes_of : String → Option (GoMap (Option String)) → Option String
bytes_of key none = none
bytes_of key (some m) = elim (get key m) [ none ↦ none | some bytes ↦ bytes ]

-- `_, ok := m[key]`
abbrev pub has_key : String → Option (GoMap (Option String)) → Bool
has_key key none = false
has_key key (some m) = not (is_none (get key m))

-- A webhook configuration of either type: the `CABundle` of each of its webhooks, `none` where it is
-- nil.
abbrev pub Configuration : Type 0
Configuration = List (Option String)

abbrev pub ExtKeyUsage : Type 0
ExtKeyUsage = String

-- `cert.Config`
pub record CertConfig : Type 0 where
  pub common_name : String
  pub dns_names : List String
  pub usages : List ExtKeyUsage

-- What is used of crypto/rand, crypto/x509, encoding/pem and client-go. Each call may draw random bits
-- from the state. `new_private_key` is `rsa.GenerateKey`, `create_certificate` makes the DER bytes of
-- the certificate that the template gives, `retry_on_conflict` is `retry.RetryOnConflict` with
-- `retry.DefaultRetry`, and `pod_namespace` is the environment variable POD_NAMESPACE.
pub record CertApi (W : Type 0) : Type 1 where
  pub Key : Type 0
  pub Cert : Type 0
  pub Serial : Type 0
  pub random_serial : Step W Serial
  pub generate_key : Step W Key
  pub new_self_signed_ca_cert : String → Key → Step W Cert
  pub create_certificate : Serial → CertConfig → Cert → Key → Key → Step W String
  pub parse_certificate : String → Outcome Cert
  pub marshal_private_key_to_pem : Key → Outcome String
  pub encode_pem : String → Cert → String
  pub server_auth : ExtKeyUsage
  pub get_secret : String → String → W → GoError ⊎ Secret
  pub create_secret : Secret → W → (GoError ⊎ Secret) × W
  pub update_secret : Secret → W → (GoError ⊎ Secret) × W
  pub get_configuration : String → W → GoError ⊎ Configuration
  pub update_configuration : String → Configuration → W → Option GoError × W
  pub retry_on_conflict : {A : Type 0} → Step W A → Step W A
  pub pod_namespace : String
  pub dir_is_missing : String → W → Bool
  pub mkdir_all : String → W → Option GoError × W
  pub join_path : String → String → String
  pub write_file : String → String → W → Option GoError × W

abbrev pub fails_or_done : {W : Type 0} → (W → Option GoError × W) → Step W (Unit {0})
fails_or_done f w = elim (f w).0 [ none ↦ (ok tt, (f w).1) | some e ↦ (err e, (f w).1) ]

abbrev pub gives : {W A : Type 0} → (W → (GoError ⊎ A) × W) → Step W A
gives f w = elim (f w).0 [ inl e ↦ (err e, (f w).1) | inr a ↦ (ok a, (f w).1) ]

abbrev pub reads : {W A : Type 0} → (W → GoError ⊎ A) → Step W A
reads f w = elim (f w) [ inl e ↦ (err e, w) | inr a ↦ (ok a, w) ]
