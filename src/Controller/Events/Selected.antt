-- ===== src/Controller/Events/Selected.antt =====
-- Which services an event of a pod enqueues.
use mathlib.Core.Path.{◌∙◌}
use resourceconsist.Base.{
  String, ◌≡◌, refl, ap, Bool, ◌&&◌, ◌||◌, none, some, List, [], ◌∷◌, ◌++◌, arith, GoError, ◌⊎◌,
  inl, inr, string_eq, contains,
}
use resourceconsist.Base.GoMap.{GoMap}
use resourceconsist.Base.Text.Rounds.{contains-append}
use resourceconsist.Controller.Types.{ObjectMeta}
use resourceconsist.Controller.Client.{Client, Employer, plain}
use resourceconsist.Controller.Events.{
  Request, selecting, get_employer_by_employee, is_watched, requests_for, requests_of, pod_update,
}

abbrev pub names_of : List Request → List String
names_of [] = []
names_of (r ∷ rs) = r.name ∷ names_of rs

names_of-append : (xs ys : List Request) → names_of (xs ++ ys) ≡ names_of xs ++ names_of ys
names_of-append [] ys = refl
names_of-append (x ∷ xs) ys = ap (λ ns. x.name ∷ ns) (names_of-append xs ys)

module _ (k : Client) (controlled_key : String)
    (list_services : String → k.World → GoError ⊎ List Employer)
    (matches : GoMap String → GoMap String → Bool) where
  -- The service of this name is there and is controlled.
  abbrev pub watched : String → String → k.World → Bool
  watched ns n w = is_watched k controlled_key list_services matches (k.get_employer plain ns n w)

  -- The names of the services that select an object.
  abbrev pub selecting_names : ObjectMeta → List Employer → List String
  selecting_names m services = elim m.labels [
    | none ↦ []
    | some labels ↦ selecting k controlled_key list_services matches labels services
  ]

  contains-requests_for :
      (ns : String) (names : List String) (w : k.World) (n : String)
      → contains (names_of (requests_for k controlled_key list_services matches ns names w)) n
        ≡ (contains names n && watched ns n w)
  contains-requests_for ns [] w n = refl
  contains-requests_for ns (x ∷ names) w n = elim (string_eq.dec x n) [
    | yes same ↦
        ground (arith, contains-requests_for ns names w n, same, ap (λ m. watched ns m w) same)
    | no other ↦ ground (arith, contains-requests_for ns names w n, other)
  ]

  pub get_employer-selecting :
      (m : ObjectMeta) (w : k.World) (services : List Employer)
      → list_services m.namespace w ≡ inr services
      → get_employer_by_employee k controlled_key list_services matches m w
        ≡ inr (selecting_names m services)
  unfolding get_employer_by_employee
  get_employer-selecting m w services h = ground (arith, h)

  -- If the services of the namespace can be listed, an update of a pod enqueues exactly the services
  -- that selected the old pod or that select the new one, and that are there and are controlled.
  pub pod_update-names :
      (old new : ObjectMeta) (w : k.World) (services : List Employer) (n : String)
      → new.namespace ≡ old.namespace
      → list_services old.namespace w ≡ inr services
      → contains (names_of (pod_update k controlled_key list_services matches old new w)) n ≡ (
          (contains (selecting_names old services) n || contains (selecting_names new services) n)
          && watched old.namespace n w)
  unfolding pod_update
  pod_update-names old new w services n same listed =
      let before = selecting_names old services in
      let after = selecting_names new services in
      let from_old = requests_for k controlled_key list_services matches old.namespace before w in
      let from_new = requests_for k controlled_key list_services matches new.namespace after w in
      ap
        (λ r.
          contains
            (names_of (elim r [
              | inl e ↦ []
              | inr names ↦
                  requests_for k controlled_key list_services matches old.namespace names w
                  ++ requests_of k controlled_key list_services matches new.namespace
                      (get_employer_by_employee k controlled_key list_services matches new w) w
            ]))
            n)
        (get_employer-selecting old w services listed)
      ∙ ap
          (λ r.
            contains
              (names_of
                (from_old ++ requests_of k controlled_key list_services matches new.namespace r w))
              n)
          (get_employer-selecting new w services (ap (λ ns. list_services ns w) same ∙ listed))
      ∙ ground (
        arith,
        ap (λ ns. contains ns n) (names_of-append from_old from_new),
        contains-append (names_of from_old) (names_of from_new) n,
        contains-requests_for old.namespace before w n,
        contains-requests_for new.namespace after w n,
        ap (λ ns. watched ns n w) same,
      )
