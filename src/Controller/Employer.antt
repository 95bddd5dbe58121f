-- ===== src/Controller/Employer.antt =====
-- The employer's own finalizers: `ensureEmployerCleanFlz`, `cleanEmployerCleanFinalizer` and
-- `generateOldCleanFlz` of pkg/frame/controller/consister.go, with the constants of consts.go.
pub mod Clean
mod Tests
use mathlib.Core.Option
use resourceconsist.Base.{
  String, ◌<>◌, Bool, true, false, Option, none, some, List, [], ◌∷◌, ◌++◌, if◌then◌else◌, GoError,
  ◌==◌, ◌||◌, string_eq, contains,
}
use resourceconsist.Controller.Types.{ObjectMeta}
use resourceconsist.Controller.Client.{
  Client, Employer, Fetched, found, failed, MultiCluster, employer_context,
}
use resourceconsist.Controller.Finalizer.{ignore_not_found}

abbrev pub clean_finalizer_prefix : String
clean_finalizer_prefix = "resource-consist.kusionstack.io/clean-"

abbrev pub clean_finalizer : String
clean_finalizer = "resource-consist.kusionstack.io/clean-finalizer"

pub generate_old_clean_flz : Employer → String
generate_old_clean_flz employer = clean_finalizer_prefix <> employer.name

abbrev pub set_finalizers : Employer → List String → Employer
set_finalizers e fs = record e { meta = record e.meta { finalizers = fs } }

-- The loop of `ensureEmployerCleanFlz`: `none` is its early return.
pub other_finalizers : String → List String → Option (List String)
other_finalizers old [] = some []
other_finalizers old (flz ∷ fs) =
    let rest = other_finalizers old fs in
    if flz == clean_finalizer
    then none
    else if flz == old
    then rest
    else elim rest [ none ↦ none | some others ↦ some (flz ∷ others) ]

-- The loop of `cleanEmployerCleanFinalizer`: the finalizers that stay, and `alreadyDeleted`.
pub remaining_finalizers : String → List String → List String × Bool
remaining_finalizers old [] = ([], true)
remaining_finalizers old (flz ∷ fs) =
    let (others, already) = remaining_finalizers old fs in
    if flz == old
    then (others, false)
    else if flz == clean_finalizer
    then (others, false)
    else (flz ∷ others, already)

module _ (k : Client) (multi_cluster : MultiCluster) where
  -- Whether the employer was updated, the error, the employer object and the state.
  abbrev pub Ensured : Type 0
  Ensured = Bool × Option GoError × Employer × k.World

  pub add_clean_flz : Employer → Option (List String) → k.World → Ensured
  add_clean_flz employer none w = (false, none, employer, w)
  add_clean_flz employer (some others) w =
      let employer' = set_finalizers employer (others ++ clean_finalizer ∷ []) in
      let (e, w') = k.update_employer (employer_context multi_cluster) employer' w in
      (true, e, employer', w')

  unfoldable pub ensure_employer_clean_flz : Employer → k.World → Ensured
  unfolding other_finalizers add_clean_flz generate_old_clean_flz
  ensure_employer_clean_flz employer w =
      if employer.deleting
      then (false, none, employer, w)
      else add_clean_flz employer
          (other_finalizers (generate_old_clean_flz employer) employer.finalizers) w

  -- The part after `Get`. The loop runs over the finalizers of the object that `Reconcile` read, and
  -- what it leaves is written to the object that was read now.
  pub clean_fetched : Employer → Fetched Employer → k.World → Option GoError × k.World
  clean_fetched employer (failed e) w = (ignore_not_found e, w)
  clean_fetched employer (found latest) w =
      let (others, already) =
        remaining_finalizers (generate_old_clean_flz employer) employer.finalizers in
      if already
      then (none, w)
      else k.update_employer (employer_context multi_cluster) (set_finalizers latest others) w

  unfoldable pub clean_employer_clean_finalizer : Employer → k.World → Option GoError × k.World
  unfolding clean_fetched remaining_finalizers generate_old_clean_flz
  clean_employer_clean_finalizer employer w =
      clean_fetched employer
        (k.get_employer (employer_context multi_cluster) employer.namespace employer.name w) w
