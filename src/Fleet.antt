-- ===== src/Fleet.antt =====
-- What a plan says (pkg/engine/plan.go): the plans of the services, of the network that they share and
-- of the mesh, and the status that they add up to.
pub mod Status
mod Tests
use native_ops.Base.{
  ℕ, suc, ◌+◌, String, Bool, true, false, ◌||◌, ◌&&◌, Option, none, some, List, [], ◌∷◌, ltb,
  length, if◌then◌else◌,
}

pub data Action : Type 0 where
  no_action create update blocked skipped : Action

pub record Change : Type 0 where
  pub kind : String
  pub detail : String

pub record ServicePlan : Type 0 where
  pub service : String
  pub action : Action
  pub changes : List Change
  pub notes : List String
  pub blockers : List String
  pub host : String

-- the network's plan and the mesh's, as far as a plan's status reads them
pub record SharedPlan : Type 0 where
  pub changes : List Change
  pub blockers : List String

pub record FleetPlan : Type 0 where
  pub services : List ServicePlan
  pub network : Option SharedPlan
  pub mesh : Option SharedPlan
  pub host : String

-- `ServicePlan.finish`: what there is to do for a service
unfoldable pub finish : Bool → ServicePlan → ServicePlan
finish exists p = record p {
  action =
      if ltb 0 (length p.blockers)
      then blocked
      else if exists
      then (if ltb 0 (length p.changes) then update else no_action)
      else create;
}

abbrev pub same_action : Action → Action → Bool
same_action no_action no_action = true
same_action create create = true
same_action update update = true
same_action blocked blocked = true
same_action skipped skipped = true
same_action _ _ = false

-- one entry of `Counts`
unfoldable pub count_of : Action → List ServicePlan → ℕ
count_of a [] = 0
count_of a (p ∷ ps) = let rest = count_of a ps in if same_action p.action a then suc rest else rest

-- `Counts`, by the names that the actions have
unfoldable pub counts : FleetPlan → List (String × ℕ)
unfolding count_of
counts f =
    ("none", count_of no_action f.services)
    ∷ ("create", count_of create f.services)
    ∷ ("update", count_of update f.services)
    ∷ ("blocked", count_of blocked f.services)
    ∷ ("skipped", count_of skipped f.services)
    ∷ []

abbrev has_changes : Option SharedPlan → Bool
has_changes none = false
has_changes (some p) = ltb 0 (length p.changes)

abbrev has_blockers : Option SharedPlan → Bool
has_blockers none = false
has_blockers (some p) = ltb 0 (length p.blockers)

unfoldable pub is_pending : FleetPlan → Bool
unfolding count_of
is_pending f =
    ltb 0 (count_of create f.services + count_of update f.services)
    || (has_changes f.network || has_changes f.mesh)

unfoldable pub is_blocked : FleetPlan → Bool
unfolding count_of
is_blocked f =
    ltb 0 (count_of blocked f.services) || (has_blockers f.network || has_blockers f.mesh)

unfoldable pub exit_status : FleetPlan → ℕ
exit_status f = if is_blocked f then 1 else if is_pending f then 2 else 0
