-- ===== src/Fleet/Status.antt =====
-- When a plan is blocked, pending or empty, in terms of what its parts say.
use native_ops.Base.{
  ◌+◌, String, ◌≡◌, ◌≢◌, ◌↔◌, refl, Bool, true, false, Option, none, some, List, [], ◌∷◌, arith,
  length, All, ltb,
}
use native_ops.Fleet.{
  create, update, blocked, skipped, ServicePlan, SharedPlan, FleetPlan, finish, has_changes,
  has_blockers, count_of, is_pending, is_blocked, exit_status,
}

-- a service of the fleet as it comes into the plan: one of this host, planned, or another host's
pub data Planned : Type 0 where
  mine : Bool → ServicePlan → Planned
  other : ServicePlan → Planned

abbrev pub planned : List Planned → List ServicePlan
planned [] = []
planned (mine exists p ∷ xs) = finish exists p ∷ planned xs
planned (other p ∷ xs) = record p { action = skipped } ∷ planned xs

abbrev pub Unblocked : Planned → Type 0
Unblocked (mine exists p) = p.blockers ≡ []
Unblocked (other p) = Unit

-- there, with nothing in the way and nothing to change
abbrev pub Settled : Planned → Type 0
Settled (mine exists p) = (p.blockers ≡ []) × (exists ≡ true) × (p.changes ≡ [])
Settled (other p) = Unit

abbrev pub NoBlockers : Option SharedPlan → Type 0
NoBlockers none = Unit
NoBlockers (some p) = p.blockers ≡ []

abbrev pub NoChanges : Option SharedPlan → Type 0
NoChanges none = Unit
NoChanges (some p) = p.changes ≡ []

empty_of : {A : Type 0} (xs : List A) → ltb 0 (length xs) ≡ false → xs ≡ []
empty_of [] h = refl
empty_of (x ∷ xs) h = absurd (ground arith)

none_blocked : (xs : List Planned) → count_of blocked (planned xs) ≡ 0 → All Unblocked xs
unfolding count_of finish
none_blocked [] h = tt
none_blocked (mine e p ∷ xs) h =
    (empty_of p.blockers (ground arith), none_blocked xs (ground arith))
none_blocked (other p ∷ xs) h = (tt, none_blocked xs (ground arith))

blocked_none : (xs : List Planned) → All Unblocked xs → count_of blocked (planned xs) ≡ 0
unfolding count_of finish
blocked_none [] h = refl
blocked_none (mine e p ∷ xs) h = let ih = blocked_none xs h.1 in ground (arith, h.0)
blocked_none (other p ∷ xs) h = let ih = blocked_none xs h.1 in ground arith

none_pending :
    (xs : List Planned)
    → All Unblocked xs
    → count_of create (planned xs) + count_of update (planned xs) ≡ 0
    → All Settled xs
unfolding count_of finish
none_pending [] u h = tt
none_pending (mine false p ∷ xs) u h = absurd (ground (arith, u.0))
none_pending (mine true p ∷ xs) u h = (
  (u.0, refl, empty_of p.changes (ground (arith, u.0))),
  none_pending xs u.1 (ground (arith, u.0)),
)
none_pending (other p ∷ xs) u h = (tt, none_pending xs u.1 (ground arith))

pending_none :
    (xs : List Planned)
    → All Settled xs
    → count_of create (planned xs) + count_of update (planned xs) ≡ 0
unfolding count_of finish
pending_none [] h = omega arith
pending_none (mine e p ∷ xs) h = let ih = pending_none xs h.1 in ground (arith, h.0)
pending_none (other p ∷ xs) h = let ih = pending_none xs h.1 in ground arith

Settled-Unblocked : (xs : List Planned) → All Settled xs → All Unblocked xs
Settled-Unblocked [] h = tt
Settled-Unblocked (mine e p ∷ xs) h = (h.0.0, Settled-Unblocked xs h.1)
Settled-Unblocked (other p ∷ xs) h = (tt, Settled-Unblocked xs h.1)

unchanged_of : (o : Option SharedPlan) → has_changes o ≡ false → NoChanges o
unchanged_of none h = tt
unchanged_of (some p) h = empty_of p.changes h

of_unchanged : (o : Option SharedPlan) → NoChanges o → has_changes o ≡ false
of_unchanged none h = refl
of_unchanged (some p) h = ground arith

module _ (xs : List Planned) (network mesh : Option SharedPlan) (host : String) where
  abbrev pub fleet : FleetPlan
  fleet = record { services = planned xs; network = network; mesh = mesh; host = host }

  free_iff : (is_blocked fleet ≡ false) ↔ (All Unblocked xs × NoBlockers network × NoBlockers mesh)
  unfolding is_blocked
  free_iff = (
    λ h.
        (none_blocked xs (ground arith), shared network (ground arith), shared mesh (ground arith)),
    λ h. ground (arith, blocked_none xs h.0, quiet network h.1, quiet mesh h.2),
  )
    where
      shared : (o : Option SharedPlan) → has_blockers o ≡ false → NoBlockers o
      shared none h = tt
      shared (some p) h = empty_of p.blockers h

      quiet : (o : Option SharedPlan) → NoBlockers o → has_blockers o ≡ false
      quiet none h = refl
      quiet (some p) h = ground arith

  -- A plan's status is 1 unless no service of this host, nor the network nor the mesh, has a blocker.
  -- It is 0 exactly when there is no blocker, every service of this host is there and has no change,
  -- and neither the network nor the mesh has one. Other hosts' services count for nothing.
  pub exit_status_iff :
      ((exit_status fleet ≢ 1) ↔ (All Unblocked xs × NoBlockers network × NoBlockers mesh))
      × ((exit_status fleet ≡ 0) ↔ (
          All Settled xs
          × NoBlockers network
          × NoBlockers mesh
          × NoChanges network
          × NoChanges mesh))
  unfolding exit_status
  exit_status_iff = (
    (λ h. free_iff.0 (ground (arith, h)), λ free e. let b = free_iff.1 free in ground (arith, e)),
    (
      λ h.
          let b : is_blocked fleet ≡ false = ground arith in
          let q : is_pending fleet ≡ false = ground arith in
          let (u, n, m) = free_iff.0 b in
          unfold is_pending in
          (
            none_pending xs u (ground arith),
            n,
            m,
            unchanged_of network (ground arith),
            unchanged_of mesh (ground arith),
          ),
      λ (all, n, m, nc, mc).
          let b = free_iff.1 (Settled-Unblocked xs all, n, m) in
          unfold is_pending in
          ground (arith, pending_none xs all, of_unchanged network nc, of_unchanged mesh mc),
    ),
  )
