-- ===== src/Lib.antt =====
-- Verification of resourceconsist, a framework for controllers that keep resources outside a cluster
-- (an employer, such as a load balancer, and its employees, such as the servers behind it)
-- consistent with the objects that select them.
--
-- The program. pkg/frame/controller has the reconciler: it reads the employer object, puts its own
-- finalizer on it, compares the expected with the current employer and employees, asks an adapter to
-- create, update and delete what differs, and holds back the deletion of pods with lifecycle
-- finalizers until the adapter has let go of them. pkg/frame/webhook has the admission webhook that
-- prepares pods. pkg/utils has batches and names that both use. pkg/adapters has the adapters that
-- are built in.
--
-- The files. A file Foo.antt holds the definitions, the files of its folder Foo/ what is proved of
-- them, and Foo/Tests.antt the runs at concrete inputs.
--
--   Base: what stands for Go's maps, slices made with a length, errors and panics, strings.Split and
--     strings.Join, sort.Strings, and steps that may end in an error (Base/Steps).
--   Utils/Batch: SlowStartBatch and intMin of pkg/utils/utils.go (slow_start_batch, int_min).
--   Utils/Names: GenerateLifecycleFinalizer and GenerateLifecycleFinalizerKey of pkg/utils/utils.go.
--   Controller/Types: pkg/frame/controller/types.go. The optional interfaces of an adapter are the
--     fields of AdapterOptions, none where a type assertion fails.
--   Controller/Client: the client of the API server and the clusters that requests are routed to.
--     Client/Memory is a client in memory, Client/Named one with a test of the pods' names.
--   Controller/KubeApi: what is used of other libraries. KubeApi/Table is an instance.
--   Controller/Diff: diffEmployer and diffEmployees of consister.go (diff), which are one code
--     over two types.
--   Controller/PodStatus: pkg/frame/controller/utils.go.
--   Controller/Lifecycle: getToAddDeleteLifecycleFlzEmployees of consister.go.
--   Controller/Finalizer: ensureLifecycleFinalizer of consister.go.
--   Controller/Employer: ensureEmployerCleanFlz and cleanEmployerCleanFinalizer of consister.go.
--   Controller/ExpectedPatch: patchAddPodExpectedFinalizer and patchDeletePodExpectedFinalizer of
--     consister.go.
--   Controller/ExpectedFinalizer: ensureExpectedFinalizer and patchPodExpectedFinalizer of
--     consister.go. The record of names in the employer's annotation is added_names.
--   Controller/Adapter: ReconcileAdapter and StatusRecordOptions of types.go.
--   Controller/Sync: syncEmployer and syncEmployees of consister.go.
--   Controller/Reconcile: Reconcile of pkg/frame/controller/resourceconsist_controller.go, which
--     composes the steps above. Its state is the employer object and the state of the clusters and
--     the backend; reconcile_ensured is what follows once the clean finalizer is there, finish the
--     returns and the deferred function.
--   Controller/Setup: AddToMgr and watch of resourceconsist_controller.go, over parameters for what
--     controller-runtime is given.
--   Controller/Events: event_handler.go, as the requests that a handler adds to the work queue.
--   Webhook: Handle and Mutating of pkg/frame/webhook/resourceconsist_webhook.go, which list a pod's
--     employers in the annotation that the controller reads, and WebhookAdapter of its types.go.
--   Webhook/CertApi, Webhook/Certs: ensureWebhookCABundleAndCert and what it calls, in the same file and in
--     pkg/utils/utils.go (NewPrivateKey, EncodeCertPEM, NewSignedCert).
--   Adapters/Slb: pkg/adapters/alibabacloudslb: slb_controller_adapter is an Adapter,
--     slb_webhook_adapter a WebhookAdapter.
--   Adapters/Registry: pkg/adapters/adapters.go and pkg/experimental/adapters/adapters.go, AddToMgr of
--     the webhook, and the start of the SLB client (client.go).
--
-- Parameters. The API server is the record Client, over an unknown state of the clusters;
-- IsPodStore, IsPodPatch, IsEmployerStore and IsEmployerPatch say what is relied on: Get returns
-- the object of the name it is given, a write that reports no error stores the object, or, as the
-- update that takes the last finalizer off an object that is being deleted, removes it, a write that
-- fails stores nothing, and a patch of annotations changes nothing else. KubeApi has the constants
-- of kusionstack.io/kube-api, the JSON codec of a pod's available conditions, the digest, the sets
-- of strings and the aggregate of errors, and IsKubeApi their laws. Methods of employers and
-- employees are the records IEmployer and IEmployee; an adapter is the record Adapter, whose calls
-- may change the state and do not write to the employer object. The event handlers take the list of
-- services and the match of a selector with labels as functions. The webhook's decoder and the JSON
-- of a pod are PodCodec; a Pod stands for all that the JSON has. SlbApi is the list of pods that a
-- selector matches and the API of the load balancers. CertApi has cryptography, the secrets and
-- webhook configurations of the API server, retry.RetryOnConflict and the file system; IsCertApi
-- says that a retry ends as its last call has ended, and that a secret that was written is stored.
-- The order in which range visits a map is a function that satisfies IsRange. The order in which
-- the goroutines of a batch run is a permutation of their indices; calls do not overlap, as each is
-- one read and at most one write of a pod of its own. The variable err that the calls of the delete
-- batch of ensureLifecycleFinalizer share is different: err_read of Client gives what a call reads
-- there, which may be what another has assigned. ReadsOwn says that it is what the call has assigned
-- itself, as where the calls do not overlap; a theorem on the pods that the delete batch is to change
-- needs it, one on the others does not.
--
-- Bounds. The loop of SlowStartBatch runs on fuel: count rounds, which are enough since every batch
-- but the one that ends the loop calls the function at least once. Lengths are natural numbers; a Go
-- slice is never so long that an int wraps around.
--
-- Not modelled: logging and events, whose results the code ignores; the manager and its caches; flags and
-- the example. Of a certificate the template's names and usages are modelled, its times are left to the
-- function that makes it. What the code does with an object while a call of the API is under way is
-- not observable in the model, and what a patch or an update copies from the server's answer into the
-- object is left out.
pub mod Base
pub mod Utils
pub mod Controller
pub mod Webhook
pub mod Adapters
