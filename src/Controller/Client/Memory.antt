-- ===== src/Controller/Client/Memory.antt =====
-- A client over objects in memory, which meets what is assumed of the API. Its writes fail only where
-- an employer is patched that is not there; that patch sets the annotations.
use resourceconsist.Base.{
  String, ◌&&◌, true, is_empty, List, Option, none, some, GoError, Eq, ◌==◌, string_eq,
  if◌then◌else◌, arith, Option-cases, Bool-cases, inl, inr, ◌≡◌, refl,
}
use resourceconsist.Base.GoMap.{GoMap}
use resourceconsist.Controller.Types.{Pod, ObjectMeta}
use resourceconsist.Controller.Client.{
  Client, Context, Fetched, found, failed, Employer, IsPodStore, IsPodPatch, IsEmployerStore,
  IsEmployerPatch, IsWritten, ReadsOwn,
}

Context-discrete : Discrete Context
Context-discrete = hlevel string_eq.dec

instance unfoldable pub context_eq : Eq Context
unfolding Context-discrete
context_eq = record { dec = Context-discrete }

-- The objects of one type, by cluster, namespace and name.
abbrev pub Objects : Type 0 → Type 0
Objects A = Context → String → String → Option A

abbrev pub put : {A : Type 0} → Context → String → String → Option A → Objects A → Objects A
put c ns n a objects d ms m = if d == c && (ms == ns && m == n) then a else objects d ms m

pub record Memory : Type 0 where
  pub pods : Objects Pod
  pub employers : Objects Employer

abbrev pub not_found : GoError
not_found = record { message = "not found"; is_not_found = true }

abbrev pub rename : String → String → ObjectMeta → ObjectMeta
rename ns n meta = record meta { namespace = ns; name = n }

abbrev pub fetch_pod : String → String → Option Pod → Fetched Pod
fetch_pod ns n none = failed not_found
fetch_pod ns n (some p) = found (record p { meta = rename ns n p.meta })

abbrev pub fetch_employer : String → String → Option Employer → Fetched Employer
fetch_employer ns n none = failed not_found
fetch_employer ns n (some e) = found (record e { meta = rename ns n e.meta })

abbrev pub store_pod : Context → Pod → Memory → Option GoError × Memory
store_pod c p w = (none, record w { pods = put c p.namespace p.name (some p) w.pods })

-- What an update leaves: nothing of an object that is being deleted and has no finalizer.
abbrev pub unless_done : {A : Type 0} → ObjectMeta → A → Option A
unless_done meta a = if meta.deleting && is_empty meta.finalizers then none else some a

abbrev pub put_pod : Context → Pod → Memory → Option GoError × Memory
put_pod c p w = (none, record w { pods = put c p.namespace p.name (unless_done p.meta p) w.pods })

abbrev pub put_employer : Context → Employer → Memory → Option GoError × Memory
put_employer c e w =
    (none, record w { employers = put c e.namespace e.name (unless_done e.meta e) w.employers })

abbrev pub set_annotations : Option (GoMap String) → Employer → Employer
set_annotations annotations e = record e { meta = record e.meta { annotations = annotations } }

abbrev pub patch_stored :
    Context → Employer → Employer → Option Employer → Memory → Option GoError × Memory
patch_stored c e base none w = (some not_found, w)
patch_stored c e base (some f) w = (
  none,
  record w {
    employers = put c base.namespace base.name (some (set_annotations e.annotations f)) w.employers;
  },
)

abbrev pub memory : Client
memory = record {
  World = Memory;
  get_pod = λ c ns n w. fetch_pod ns n (w.pods c ns n);
  update_pod = put_pod;
  patch_pod = λ c p base. store_pod c (record p { meta = rename base.namespace base.name p.meta });
  get_employer = λ c ns n w. fetch_employer ns n (w.employers c ns n);
  update_employer = put_employer;
  err_read = λ r name e w. e;
  patch_employer = λ c e base w. patch_stored c e base (w.employers c base.namespace base.name) w;
}

pod-named :
    (ns n : String) (p : Pod) (o : Option Pod)
    → fetch_pod ns n o ≡ found p
    → (p.namespace ≡ ns) × (p.name ≡ n)
pod-named ns n p o h = ground arith

employer-named :
    (ns n : String) (e : Employer) (o : Option Employer)
    → fetch_employer ns n o ≡ found e
    → (e.namespace ≡ ns) × (e.name ≡ n)
employer-named ns n e o h = ground arith

memory-IsWritten_pod :
    (c : Context) (ns n : String) (p : Pod) (fs : List String) (w : Memory)
    → let q = record p { meta = record p.meta { finalizers = fs } } in
      fetch_pod ns n (w.pods c ns n) ≡ found p
      → IsWritten p.deleting fs q (fetch_pod ns n ((put_pod c q w).1.pods c ns n))
memory-IsWritten_pod c ns n p fs w h =
    let (in_ns, named) = pod-named ns n p (w.pods c ns n) h in
    elim (Bool-cases (p.deleting && is_empty fs)) [
      | inl done ↦
          inr (ground arith, ground arith, (not_found, ground (arith, in_ns, named, done), refl))
      | inr kept ↦ inl (ground (arith, in_ns, named, kept))
    ]

memory-IsWritten_employer :
    (c : Context) (ns n : String) (e : Employer) (fs : List String) (w : Memory)
    → let q = record e { meta = record e.meta { finalizers = fs } } in
      fetch_employer ns n (w.employers c ns n) ≡ found e
      → IsWritten e.deleting fs q (fetch_employer ns n ((put_employer c q w).1.employers c ns n))
memory-IsWritten_employer c ns n e fs w h =
    let (in_ns, named) = employer-named ns n e (w.employers c ns n) h in
    elim (Bool-cases (e.deleting && is_empty fs)) [
      | inl done ↦
          inr (ground arith, ground arith, (not_found, ground (arith, in_ns, named, done), refl))
      | inr kept ↦ inl (ground (arith, in_ns, named, kept))
    ]

pub memory-ReadsOwn : ReadsOwn memory
memory-ReadsOwn r name e w = refl

pub memory-IsPodStore : IsPodStore memory
memory-IsPodStore = record {
  get-named = λ c ns n w p h. ground arith;
  get-update_same = λ c ns n p fs w h fine. memory-IsWritten_pod c ns n p fs w h;
  get-update_other = λ c d p ns n w h. ground arith;
  get-update_failed = λ c d p ns n w e h. cc;
}

pub memory-IsPodPatch : IsPodPatch memory
memory-IsPodPatch = record {
  get-patch_same = λ c ns n p annotations w h. ground arith;
  get-patch_other = λ c d p base ns n w h. ground arith;
  get-patch_failed = λ c d p base ns n w e h. cc;
  get-patch_employer = λ c d e base ns n w.
      elim (Option-cases (w.employers c base.namespace base.name)) [
        | inl absent ↦ rw absent
        | inr (f, stored) ↦ rw stored
      ];
}

pub memory-IsEmployerStore : IsEmployerStore memory
memory-IsEmployerStore = record {
  get-update_same = λ c ns n e fs w h fine. memory-IsWritten_employer c ns n e fs w h;
}

patch_stored-finalizers :
    (c d : Context) (e base f : Employer) (ns n : String) (w : Memory) (o : Option Employer)
    → w.employers c base.namespace base.name ≡ o
    → fetch_employer ns n (w.employers d ns n) ≡ found f
    → (g : Employer) × (fetch_employer ns n ((patch_stored c e base o w).1.employers d ns n)
        ≡ found g)
      × (g.finalizers ≡ f.finalizers)
patch_stored-finalizers c d e base f ns n w none q h = (f, h, refl)
patch_stored-finalizers c d e base f ns n w (some s) q h =
    elim (Bool-cases (d == c && (ns == base.namespace && n == base.name))) [
      | inl here ↦ (
        record (set_annotations e.annotations s) {
          meta = rename ns n (set_annotations e.annotations s).meta;
        },
        rw here,
        finalizers-of (ground (arith, here, q, h)),
      )
      | inr elsewhere ↦ (f, rw elsewhere h, refl)
    ]
  where
    finalizers-of : fetch_employer ns n (some s) ≡ found f → s.finalizers ≡ f.finalizers
    finalizers-of h = cc

pub memory-IsEmployerPatch : IsEmployerPatch memory
memory-IsEmployerPatch = record {
  employer-update_pod = λ c d p ns n w. refl;
  employer-patch_pod = λ c d p base ns n w. refl;
  employer-patch_employer = λ c d e base f ns n w same h.
      patch_stored-finalizers c d e base f ns n w (w.employers c base.namespace base.name) refl h;
}
