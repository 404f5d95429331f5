-- ===== src/Fleet/Tests.antt =====
-- A plan of two hosts, and the theorem on its status.
use native_ops.Base.{◌≡◌, ◌≢◌, ◌↔◌, refl, true, none, List, [], ◌∷◌, All}
use native_ops.Fleet.{ServicePlan, no_action, exit_status, finish, count_of, is_blocked, is_pending}
use native_ops.Fleet.Status.{
  Planned, mine, other, Settled, Unblocked, NoBlockers, NoChanges, fleet, exit_status_iff,
}

abbrev crew : ServicePlan
crew = record {
  service = "crew";
  action = no_action;
  changes = [];
  notes = [];
  blockers = [];
  host = "";
}

abbrev far : ServicePlan
far = record {
  service = "far";
  action = no_action;
  changes = [];
  notes = [];
  blockers = "x" ∷ [];
  host = "h2";
}

abbrev two_hosts : List Planned
two_hosts = mine true crew ∷ other far ∷ []

nothing_to_do : exit_status (fleet two_hosts none none "h1") ≡ 0
unfolding exit_status is_blocked is_pending count_of finish
nothing_to_do = refl

exit_status_iff_example :
    ((exit_status (fleet two_hosts none none "h1") ≢ 1)
      ↔ (All Unblocked two_hosts × NoBlockers none × NoBlockers none))
    × ((exit_status (fleet two_hosts none none "h1") ≡ 0) ↔ (
        All Settled two_hosts
        × NoBlockers none
        × NoBlockers none
        × NoChanges none
        × NoChanges none))
exit_status_iff_example = exit_status_iff two_hosts none none "h1"
