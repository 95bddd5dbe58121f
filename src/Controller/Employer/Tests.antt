-- ===== src/Controller/Employer/Tests.antt =====
-- Runs of the functions on the employer's own finalizers over employers in memory.
use resourceconsist.Base.{
  String, ◌≡◌, refl, Bool, true, false, none, some, List, [], ◌∷◌, contains, string_eq,
}
use resourceconsist.Controller.Client.{Employer}
use resourceconsist.Controller.Client.Memory.{Memory, memory, context_eq, not_found}
use resourceconsist.Controller.Employer.{
  clean_finalizer, generate_old_clean_flz, set_finalizers, ensure_employer_clean_flz,
}
use resourceconsist.Controller.Employer.Clean.{cleaned, cleaned-contains}
use resourceconsist.Base.{Option}
use resourceconsist.Controller.Client.{employer_context}
use resourceconsist.Controller.Employer.Clean.{ensure_employer_clean_flz_twice}
use resourceconsist.Controller.Employer.Clean.{has_clean_flz}
use resourceconsist.Controller.Employer.{clean_employer_clean_finalizer}
use resourceconsist.Base.{GoError}
use resourceconsist.Controller.Client.{fed}
use resourceconsist.Controller.Client.{plain}
use resourceconsist.Controller.Client.{found, failed, IsWritten}
use resourceconsist.Controller.Employer.Clean.{ensure_employer_clean_flz-update}
use resourceconsist.Controller.Employer.Clean.{clean_employer_clean_finalizer-IsWritten}
use resourceconsist.Controller.Employer.Clean.{clean_employer_clean_finalizer_lost}
use resourceconsist.Controller.Client.Memory.{memory-IsEmployerStore}

abbrev employer : Bool → List String → Employer
employer deleting finalizers = record {
  kind = "Service";
  meta = record {
    name = "web";
    namespace = "ns";
    labels = none;
    annotations = none;
    finalizers = finalizers;
    deleting = deleting;
  };
  selector = [];
}

abbrev old_flz : String
old_flz = "resource-consist.kusionstack.io/clean-web"

abbrev fresh : Employer
fresh = employer false ("other" ∷ old_flz ∷ [])

abbrev read_before : Employer
read_before = employer true ("other" ∷ clean_finalizer ∷ [])

-- Meanwhile another controller has added its finalizer.
abbrev latest : Employer
latest = employer true ("other" ∷ clean_finalizer ∷ "backup" ∷ [])

abbrev holding : Employer → Memory
holding e = record { pods = λ c ns n. none; employers = λ c ns n. some e }

ensure_runs :
    (ensure_employer_clean_flz memory none fresh (holding fresh)).2
    ≡ set_finalizers fresh ("other" ∷ clean_finalizer ∷ [])
unfolding ensure_employer_clean_flz string_eq
ensure_runs = refl

cleaned-contains_example :
    (contains (cleaned read_before) clean_finalizer ≡ false)
    × (contains (cleaned read_before) (generate_old_clean_flz read_before) ≡ false)
cleaned-contains_example = cleaned-contains read_before

ensure_employer_clean_flz-update_example :
    ensure_employer_clean_flz memory none fresh (holding fresh) ≡ (
      true,
      (memory.update_employer plain
          (set_finalizers fresh ("other" ∷ clean_finalizer ∷ []))
          (holding fresh)).0,
      set_finalizers fresh ("other" ∷ clean_finalizer ∷ []),
      (memory.update_employer plain
          (set_finalizers fresh ("other" ∷ clean_finalizer ∷ []))
          (holding fresh)).1,
    )
unfolding string_eq generate_old_clean_flz employer_context
ensure_employer_clean_flz-update_example =
    ensure_employer_clean_flz-update memory none fresh (holding fresh)

abbrev ensured : Bool × Option GoError × Employer × Memory
ensured = ensure_employer_clean_flz memory none fresh (holding fresh)

ensure_employer_clean_flz_twice_example :
    ensure_employer_clean_flz memory none ensured.2 ensured.3 ≡ (false, none, ensured.2, ensured.3)
ensure_employer_clean_flz_twice_example =
    ensure_employer_clean_flz_twice memory none fresh (holding fresh)

abbrev dropped : Option GoError × Memory
dropped = clean_employer_clean_finalizer memory (some true) read_before (holding latest)

dropped_well : dropped.0 ≡ none
unfolding clean_employer_clean_finalizer string_eq
dropped_well = refl

had_clean : has_clean_flz read_before ≡ true
unfolding string_eq generate_old_clean_flz
had_clean = refl

no_backup : contains read_before.finalizers "backup" ≡ false
unfolding string_eq
no_backup = refl

clean_employer_clean_finalizer-IsWritten_example :
    IsWritten true
      (cleaned read_before)
      (set_finalizers latest (cleaned read_before))
      (memory.get_employer fed "ns" "web" dropped.1)
unfolding employer_context
clean_employer_clean_finalizer-IsWritten_example =
    clean_employer_clean_finalizer-IsWritten memory (some true) memory-IsEmployerStore read_before
      latest (holding latest) refl had_clean dropped_well

stays : memory.get_employer fed "ns" "web" dropped.1 ≡ found (set_finalizers latest ("other" ∷ []))
unfolding clean_employer_clean_finalizer employer_context string_eq context_eq
stays = refl

clean_employer_clean_finalizer_lost_example :
    contains (set_finalizers latest ("other" ∷ [])).finalizers "backup" ≡ false
unfolding employer_context
clean_employer_clean_finalizer_lost_example =
    clean_employer_clean_finalizer_lost memory (some true) memory-IsEmployerStore read_before latest
      (set_finalizers latest ("other" ∷ [])) (holding latest) "backup" refl had_clean dropped_well
      no_backup stays

-- With no other finalizer the employer, which is being deleted, is gone.
goes :
    memory.get_employer fed "ns" "web"
      (clean_employer_clean_finalizer memory
        (some true)
        (employer true (clean_finalizer ∷ []))
        (holding latest)).1
    ≡ failed not_found
unfolding clean_employer_clean_finalizer employer_context string_eq context_eq
goes = refl
