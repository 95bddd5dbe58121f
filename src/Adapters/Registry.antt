-- ===== src/Adapters/Registry.antt =====
-- The adapters that are built in, by name, and how they are added to a manager:
-- pkg/adapters/adapters.go, and pkg/experimental/adapters/adapters.go, whose maps are empty. With the
-- start of the SLB adapter, of pkg/adapters/alibabacloudslb, and `AddToMgr` of
-- pkg/frame/webhook/resourceconsist_webhook.go.
pub mod Order
mod Tests
use resourceconsist.Base.{
  String, ◌<>◌, Bool, true, false, not, ◌||◌, Option, none, some, List, [], ◌∷◌, if◌then◌else◌,
  GoError, errorf, ◌==◌, string_eq, Outcome, ok, err, ◌⊎◌, inl, inr,
}
use resourceconsist.Base.GoMap.{GoMap, get}
use resourceconsist.Base.Steps.{Step, ◌>>=◌, ◌>>◌, lift, done, wrap_error}
use resourceconsist.Webhook.{WebhookAdapter}

abbrev pub adapter_alibaba_cloud_slb : String
adapter_alibaba_cloud_slb = "alibabacloudslb"

abbrev pub not_built_in : String → GoError
not_built_in name = errorf ("adapterNames contains " <> (name <> ", which is not built-in adapter"))

-- `M` is the state of the manager, `A` the type of controller adapters.
module _ {M A : Type 0} (add_to_mgr : A → Step M (Unit {0})) where
  -- The body of the loops over controller adapters.
  pub add_controller_adapter : String → Step M A → Step M (Unit {0})
  add_controller_adapter name new_adapter = do
    adapter ← wrap_error ("get adapter " <> (name <> " failed, err: ")) new_adapter
    wrap_error ("add adapter " <> (name <> " to controller failed, err: ")) (add_to_mgr adapter)

  -- `AddAllBuiltinControllerAdatersToMgr`, over the entries in the order in which `range` visits them.
  unfoldable pub add_all_builtin_controller_adaters_to_mgr : GoMap (Step M A) → Step M (Unit {0})
  add_all_builtin_controller_adaters_to_mgr [] = done tt
  add_all_builtin_controller_adaters_to_mgr ((name, new_adapter) ∷ rest) =
      add_controller_adapter name new_adapter >> add_all_builtin_controller_adaters_to_mgr rest

  abbrev pub add_if_built_in : String → Option (Step M A) → Step M (Unit {0})
  add_if_built_in name none = lift (err (not_built_in name))
  add_if_built_in name (some new_adapter) = add_controller_adapter name new_adapter

  -- `AddBuiltinControllerAdaptersToMgr`
  unfoldable pub add_builtin_controller_adapters_to_mgr :
      GoMap (Step M A) → List String → Step M (Unit {0})
  add_builtin_controller_adapters_to_mgr built_in [] = done tt
  add_builtin_controller_adapters_to_mgr built_in (name ∷ names) =
      add_if_built_in name (get name built_in)
      >> add_builtin_controller_adapters_to_mgr built_in names

module _ {M W : Type 0} (register : String → WebhookAdapter W → Step M (Unit {0}))
    (has_prefix : String → String → Bool) where
  -- `webhookframe.AddToMgr`; `register` is `Register` of the webhook server, and `has_prefix` is
  -- `strings.HasPrefix`.
  pub add_webhook_to_mgr : WebhookAdapter W → Step M (Unit {0})
  add_webhook_to_mgr adapter =
      if adapter.name == ""
      then done tt
      else register (if has_prefix adapter.name "/" then adapter.name else "/" <> adapter.name)
          adapter

  abbrev pub add_webhook_adapter : String → WebhookAdapter W → Step M (Unit {0})
  add_webhook_adapter name adapter =
      wrap_error ("add adapter " <> (name <> " to controller failed, err: "))
        (add_webhook_to_mgr adapter)

  -- `AddAllBuiltinWebhookAdaptersToMgr`
  pub add_all_builtin_webhook_adapters_to_mgr : GoMap (WebhookAdapter W) → Step M (Unit {0})
  add_all_builtin_webhook_adapters_to_mgr [] = done tt
  add_all_builtin_webhook_adapters_to_mgr ((name, adapter) ∷ rest) =
      add_webhook_adapter name adapter >> add_all_builtin_webhook_adapters_to_mgr rest

  abbrev pub add_webhook_if_built_in : String → Option (WebhookAdapter W) → Step M (Unit {0})
  add_webhook_if_built_in name none = lift (err (not_built_in name))
  add_webhook_if_built_in name (some adapter) = add_webhook_adapter name adapter

  -- `AddBuiltinWebhookAdaptersToMgr`
  pub add_builtin_webhook_adapters_to_mgr :
      GoMap (WebhookAdapter W) → List String → Step M (Unit {0})
  add_builtin_webhook_adapters_to_mgr built_in [] = done tt
  add_builtin_webhook_adapters_to_mgr built_in (name ∷ names) =
      add_webhook_if_built_in name (get name built_in)
      >> add_builtin_webhook_adapters_to_mgr built_in names

-- The environment as `os.Getenv` reads it.
abbrev pub Environment : Type 0
Environment = String → String

module _ {M K : Type 0} (new_client : String → String → String → Step M K) where
  -- `NewAlibabaCloudSlbClient`, with the variables that `init` has set; `new_client` is `NewClient` of
  -- `slb20140515`. A client that is nil is `none`.
  pub new_alibaba_cloud_slb_client : Environment → Step M (Option K)
  new_alibaba_cloud_slb_client env =
      let key_id = env "ALIYUN_SLB_AK_KEY" in
      let key_secret = env "ALIYUN_SLB_AK_SECRET" in
      if key_id == "" || key_secret == ""
      then lift (err (errorf "slbAccessKeyID or slbAccessKeySecret is empty"))
      else new_client key_id key_secret (env "ALIYUN_SLB_ENDPOINT") >>= λ client. done (some client)

  -- `NewReconcileAdapter`; `adapter` puts the client into an adapter.
  pub new_reconcile_adapter : {A : Type 0} → (K → A) → Environment → Step M A
  new_reconcile_adapter {A} adapter env = do
    client ← new_alibaba_cloud_slb_client env
    lift (from_client client)
    where
      from_client : Option K → Outcome A
      from_client none = err (errorf "alibaba cloud slb client is nil")
      from_client (some client) = ok (adapter client)

-- `builtinControllerAdapterNewFuncs`
abbrev pub builtin_controller_adapter_new_funcs : {M A : Type 0} → Step M A → GoMap (Step M A)
builtin_controller_adapter_new_funcs new_adapter = (adapter_alibaba_cloud_slb, new_adapter) ∷ []

-- `builtinWebhookAdapters`
abbrev pub builtin_webhook_adapters : {W : Type 0} → WebhookAdapter W → GoMap (WebhookAdapter W)
builtin_webhook_adapters adapter = (adapter_alibaba_cloud_slb, adapter) ∷ []
