-- ===== src/Controller/Client.antt =====
-- The Kubernetes client that the framework is given (`client.Client` of controller-runtime, which is
-- not in this repository), as an interface over an unknown state of the clusters, and the routing of
-- requests to clusters by `MultiClusterOptions`.
pub mod Memory
pub mod Named
use resourceconsist.Base.{
  String, ◌≡◌, ◌≢◌, refl, ◌⊎◌, Bool, true, false, Option, none, some, List, [], ◌∷◌, GoError,
}
use resourceconsist.Base.Text.{split}
use resourceconsist.Base.GoMap.{GoMap}
use resourceconsist.Controller.Types.{ObjectMeta, Pod}

-- The cluster that a context names: none, `clusterinfo.Fed`, or one given to
-- `clusterinfo.WithCluster`.
pub data Context : Type 0 where
  plain : Context
  fed : Context
  cluster : String → Context

-- What `Get` writes to the object that it is given, or its error.
pub data Fetched (A : Type 0) : Type 0 where
  found : A → Fetched A
  failed : GoError → Fetched A

-- A `client.Object` that is an employer: its kind, its metadata and, of a Service, `Spec.Selector`.
pub record Employer : Type 0 where
  pub kind : String
  pub meta : ObjectMeta
  pub open meta use *
  pub selector : GoMap String

-- Where the function that the second batch of `ensureLifecycleFinalizer` runs reads the variable `err`
-- of the enclosing function: in `err != nil` after `Get`, in `IsNotFound(err)`, in the `return err`
-- below it, and in the `return err` at the end.
pub data ErrRead : Type 0 where
  tested : ErrRead
  classified : ErrRead
  passed : ErrRead
  returned : ErrRead

-- What the framework's code runs on: the API and the goroutines of a batch. A read changes nothing. A write returns its error, if there is one, and the state that it leaves;
-- `patch` is given the object and the copy that `client.MergeFrom` took of it. `err_read r name e` is
-- what the call for `name` reads at `r` from the `err` that it shares with the other goroutines of its
-- batch, where `e` is what it has assigned itself; another call may have assigned it since.
pub record Client : Type 1 where
  pub World : Type 0
  pub get_pod : Context → String → String → World → Fetched Pod
  pub update_pod : Context → Pod → World → Option GoError × World
  pub patch_pod : Context → Pod → Pod → World → Option GoError × World
  pub get_employer : Context → String → String → World → Fetched Employer
  pub update_employer : Context → Employer → World → Option GoError × World
  pub patch_employer : Context → Employer → Employer → World → Option GoError × World
  pub err_read : ErrRead → String → Option GoError → World → Option GoError

-- No call assigns the shared `err` between another's assignment and its reading of it, as where the
-- calls of a batch do not overlap.
abbrev pub ReadsOwn : Client → Type 0
ReadsOwn k =
    (r : ErrRead) (name : String) (e : Option GoError) (w : k.World) → k.err_read r name e w ≡ e

-- `Get` after an update with these finalizers that reports no error: the object is stored, or, where
-- it is being deleted and no finalizer is left, it may be gone.
abbrev pub IsWritten : {A : Type 0} → Bool → List String → A → Fetched A → Type 0
IsWritten deleting finalizers a f =
    (f ≡ found a)
    ⊎ ((deleting ≡ true)
        × (finalizers ≡ [])
        × ((e : GoError) × (f ≡ failed e) × (e.is_not_found ≡ true)))

-- Another place: another cluster, namespace or name.
abbrev pub Elsewhere : Context → Pod → Context → String → String → Type 0
Elsewhere c p d ns n = (d ≢ c) ⊎ (ns ≢ p.namespace) ⊎ (n ≢ p.name)

-- What the API promises of pods: `Get` returns the pod of the name that it is asked for. An
-- update that changes the finalizers of a pod that is stored as it was read stores the pod, if it
-- reports no error, or removes it if it is being deleted and has no finalizer left. An update touches
-- no other pod, and one that fails changes no pod.
pub record IsPodStore (k : Client) : Type 0 where
  pub get-named :
      (c : Context) (ns n : String) (w : k.World) (p : Pod)
      → k.get_pod c ns n w ≡ found p
      → (p.namespace ≡ ns) × (p.name ≡ n)
  pub get-update_same :
      (c : Context) (ns n : String) (p : Pod) (fs : List String) (w : k.World)
      → let q = record p { meta = record p.meta { finalizers = fs } } in
        k.get_pod c ns n w ≡ found p
        → (k.update_pod c q w).0 ≡ none
        → IsWritten p.deleting fs q (k.get_pod c ns n (k.update_pod c q w).1)
  pub get-update_other :
      (c d : Context) (p : Pod) (ns n : String) (w : k.World)
      → Elsewhere c p d ns n
      → k.get_pod d ns n (k.update_pod c p w).1 ≡ k.get_pod d ns n w
  pub get-update_failed :
      (c d : Context) (p : Pod) (ns n : String) (w : k.World) (e : GoError)
      → (k.update_pod c p w).0 ≡ some e
      → k.get_pod d ns n (k.update_pod c p w).1 ≡ k.get_pod d ns n w

abbrev pub annotate : Pod → GoMap String → Pod
annotate pod annotations = record pod { meta = record pod.meta { annotations = some annotations } }

-- The same of patches that change the annotations of a pod: the patch of a pod that is stored as it
-- was read leaves the pod with the new annotations, if it reports no error.
pub record IsPodPatch (k : Client) : Type 0 where
  pub get-patch_same :
      (c : Context) (ns n : String) (p : Pod) (annotations : GoMap String) (w : k.World)
      → k.get_pod c ns n w ≡ found p
      → (k.patch_pod c (annotate p annotations) p w).0 ≡ none
      → k.get_pod c ns n (k.patch_pod c (annotate p annotations) p w).1
        ≡ found (annotate p annotations)
  pub get-patch_other :
      (c d : Context) (p base : Pod) (ns n : String) (w : k.World)
      → Elsewhere c base d ns n
      → k.get_pod d ns n (k.patch_pod c p base w).1 ≡ k.get_pod d ns n w
  pub get-patch_failed :
      (c d : Context) (p base : Pod) (ns n : String) (w : k.World) (e : GoError)
      → (k.patch_pod c p base w).0 ≡ some e
      → k.get_pod d ns n (k.patch_pod c p base w).1 ≡ k.get_pod d ns n w
  pub get-patch_employer :
      (c d : Context) (e base : Employer) (ns n : String) (w : k.World)
      → k.get_pod d ns n (k.patch_employer c e base w).1 ≡ k.get_pod d ns n w

-- What the API promises of employers: an update that changes the finalizers of an employer that
-- is stored as it was read stores the employer, if it reports no error, or removes it if it is being
-- deleted and has no finalizer left.
pub record IsEmployerStore (k : Client) : Type 0 where
  pub get-update_same :
      (c : Context) (ns n : String) (e : Employer) (fs : List String) (w : k.World)
      → let q = record e { meta = record e.meta { finalizers = fs } } in
        k.get_employer c ns n w ≡ found e
        → (k.update_employer c q w).0 ≡ none
        → IsWritten e.deleting fs q (k.get_employer c ns n (k.update_employer c q w).1)

-- The writes of pods change no employer, and a patch that changes an employer's annotations leaves the
-- finalizers of every stored employer as they are.
pub record IsEmployerPatch (k : Client) : Type 0 where
  pub employer-update_pod :
      (c d : Context) (p : Pod) (ns n : String) (w : k.World)
      → k.get_employer d ns n (k.update_pod c p w).1 ≡ k.get_employer d ns n w
  pub employer-patch_pod :
      (c d : Context) (p base : Pod) (ns n : String) (w : k.World)
      → k.get_employer d ns n (k.patch_pod c p base w).1 ≡ k.get_employer d ns n w
  pub employer-patch_employer :
      (c d : Context) (e base f : Employer) (ns n : String) (w : k.World)
      → e.finalizers ≡ base.finalizers
      → k.get_employer d ns n w ≡ found f
      → (g : Employer) × (k.get_employer d ns n (k.patch_employer c e base w).1 ≡ found g)
        × (g.finalizers ≡ f.finalizers)

-- `r.adapter.(MultiClusterOptions)` and `EmployeeFed()`: `none` if the adapter has no such options.
abbrev pub MultiCluster : Type 0
MultiCluster = Option Bool

abbrev pub local_pod : List String → Option (Context × String)
local_pod (pod ∷ local ∷ []) = some (cluster local, pod)
local_pod _ = none

-- A pod's cluster and name from an employee's name. With options and employees in local clusters
-- the name is "name#cluster", and `none` is the error "local employee's name invalid".
unfoldable pub route : MultiCluster → String → Option (Context × String)
unfolding split
route none name = some (plain, name)
route (some true) name = some (fed, name)
route (some false) name = local_pod (split b'#' name)

-- The context for employers.
unfoldable pub employer_context : MultiCluster → Context
employer_context none = plain
employer_context (some _) = fed
