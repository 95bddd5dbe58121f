-- ===== src/Controller/Setup/Sources.antt =====
-- From which clusters employees come, and how their names are routed.
use resourceconsist.Base.{String, ◌≡◌, refl, true, false, none, some}
use resourceconsist.Controller.Client.{MultiCluster, route}
use resourceconsist.Controller.Setup.{clusters_kind, employee_source}

-- Only the names of employees that are watched in the local clusters can be refused: where `route`
-- finds no cluster in a name, the employees come from `ClustersKind`.
employee_source-route :
    {O : Type 0} (m : MultiCluster) (name : String) (employee : O)
    → route m name ≡ none
    → employee_source m employee ≡ clusters_kind employee
unfolding route
employee_source-route none name employee h = cc
employee_source-route (some true) name employee h = cc
employee_source-route (some false) name employee h = refl
