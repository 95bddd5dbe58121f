-- ===== src/Utils/Names.antt =====
-- `GenerateLifecycleFinalizerKey` and `GenerateLifecycleFinalizer` of pkg/utils/utils.go. The prefix
-- and the digest are parameters.
use Prim.Native.String.{slice}
use resourceconsist.Base.{String, ◌<>◌}

-- From the employer's kind, namespace and name.
unfoldable pub generate_lifecycle_finalizer_key : String → String → String → String
generate_lifecycle_finalizer_key kind namespace name = kind <> ("/" <> (namespace <> ("/" <> name)))

-- `prefix + "/" + hex[8:24]`
unfoldable pub generate_lifecycle_finalizer : String → (String → String) → String → String
generate_lifecycle_finalizer prefix md5_hex employer_name =
    prefix <> ("/" <> slice (md5_hex employer_name) 8 24)
