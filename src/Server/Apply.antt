-- ===== src/Server/Apply.antt =====
-- What POST /v1/apply does to the host, the plan and its approval (`handleApply` of pkg/server/apply.go).
use native_ops.Base.{
  ℕ, ◌<◌, String, ◌≡◌, ◌≢◌, ◌⊎◌, ap, refl, inl, inr, Bool, true, false, Option, none, some, [],
  arith, eq_iff, eq_refl, Option-cases, ok, is_ok,
}
use native_ops.Base.Dict.{lookup, insert, lookup-insert}
use native_ops.Base.Prune.{prune_map-lookup}
use native_ops.Queue
use native_ops.Plans
use native_ops.Plans.{
  Approval, PlanRecord, PlanUse, PlanSeen, PlanError, approval_used, seen_again, check, record_plan,
  is_approved, keep_plans, used_up,
}
use native_ops.Jobs.{Job}
use native_ops.Fleet.{FleetPlan, exit_status}
use native_ops.Server.{Server, Io, JobSpec, launch, prepared, end_job}
use native_ops.Server.Requests.{
  Reply, accepted, used_plan, Upload, handle_apply, apply_planned, apply_spec, seen_of,
}

-- what the store says of a plan that has just been made
recorded :
    (s : PlanSeen) (now : ℕ) (wrote : Bool) (p : Plans.Plans)
    → (lookup s.hash (record_plan s now wrote p).0.by_id ≡ none)
      ⊎ (lookup s.hash (record_plan s now wrote p).0.by_id
          ≡ some (seen_again s now (lookup s.hash p.by_id)))
unfolding record_plan Plans.prune Plans.persist
recorded s now wrote p =
    let r = seen_again s now (lookup s.hash p.by_id) in
    ground (
      arith,
      eq_refl s.hash,
      lookup-insert s.hash s.hash r p.by_id,
      prune_map-lookup (λ x. x.hash) (is_approved now) (λ x. x.last_seen) keep_plans s.hash
          (insert s.hash r p.by_id),
    )

check_recorded :
    (s : PlanSeen) (now : ℕ) (wrote : Bool) (p : Plans.Plans)
    → check s.hash now (record_plan s now wrote p).0 ≢ some approval_used
unfolding check seen_again
check_recorded s now wrote p e = elim (recorded s now wrote p) [
  | inl gone ↦ ground arith
  | inr here ↦ elim (Option-cases (lookup s.hash p.by_id)) [
    | inl new ↦ ground arith
    | inr (r, old) ↦ ground arith
  ]
]

-- a plan just made anew that may be applied stood approved before
approved_before :
    (s : PlanSeen) (now : ℕ) (wrote : Bool) (p : Plans.Plans)
    → check s.hash now (record_plan s now wrote p).0 ≡ none
    → (r : PlanRecord) × (a : Approval) × (lookup s.hash p.by_id ≡ some r)
      × ((r.approval ≡ some a) × (r.used ≡ none) × (now < a.expires))
      × (lookup s.hash (record_plan s now wrote p).0.by_id ≡ some (seen_again s now (some r)))
approved_before s now wrote p may = elim (Option-cases (lookup s.hash p.by_id)) [
  | inl new ↦ elim (recorded s now wrote p) [
    | inl gone ↦ unfold check in absurd (ground arith)
    | inr here ↦ unfold check seen_again in absurd (ground arith)
  ]
  | inr (r, old) ↦ elim (recorded s now wrote p) [
    | inl gone ↦ unfold check in absurd (ground arith)
    | inr here ↦ elim (Option-cases r.approval) [
      | inl never ↦ unfold check seen_again in absurd (ground arith)
      | inr (a, given) ↦
          let facts : (r.used ≡ none) × (now < a.expires) =
            unfold check seen_again in ground arith in
          (r, a, old, (given, facts.0, facts.1), ground arith)
    ]
  ]
]

-- the host and the line for it, without the tickets that were ever issued
abbrev pub SameHost : Queue.HostQueue → Queue.HostQueue → Type 0
SameHost q q' = (q'.busy ≡ q.busy) × (q'.closed ≡ q.closed) × (q'.waiting ≡ q.waiting)

abbrev pub is_accepted : Reply → Bool
is_accepted (accepted _) = true
is_accepted _ = false

module _ (hash_of render : FleetPlan → String) where
  -- An apply is never answered that the plan's approval was used: it makes the plan anew before it looks
  -- at the approval, and a plan made anew has no used approval. Such an apply is answered as not approved.
  pub handle_apply-not_used :
      (io : Io) (id actor expect : String) (tree : Option Upload) (plan : Option FleetPlan)
      (s : Server)
      → (handle_apply hash_of render io id actor expect tree plan s).1 ≢ used_plan
  unfolding handle_apply apply_planned seen_of
  handle_apply-not_used io id actor expect none plan s e = ground arith
  handle_apply-not_used io id actor expect (some u) none s e = ground arith
  handle_apply-not_used io id actor expect (some u) (some fp) s e =
      let never = check_recorded (seen_of hash_of render actor u fp) io.now io.begun s.plans in
      unfold seen_of in ground (arith, never)

  launch_refused :
      (io : Io) (id : String) (t : ℕ) (spec : JobSpec) (s : Server)
      → s.queue.closed ≡ false
      → s.queue.waiting ≡ []
      → is_ok (launch io id t spec s).1 ≡ false
      → ((launch io id t spec s).0.queue.busy ≡ false)
        × ((launch io id t spec s).0.queue.closed ≡ false)
        × ((launch io id t spec s).0.queue.waiting ≡ [])
  unfolding launch prepared end_job Queue.name Queue.abandon Queue.release Queue.hand_on
  launch_refused io id t spec s open' nobody bad = ground arith

  -- Whatever refuses an apply, from a bad request to a job that could not be recorded or an approval
  -- that could not be used up: the host is free again if it was free, and the line is as it was.
  pub handle_apply-refused :
      (io : Io) (id actor expect : String) (tree : Option Upload) (plan : Option FleetPlan)
      (s : Server)
      → is_accepted (handle_apply hash_of render io id actor expect tree plan s).1 ≡ false
      → SameHost s.queue (handle_apply hash_of render io id actor expect tree plan s).0.queue
  unfolding handle_apply apply_planned Queue.try_ticket Queue.grant Queue.release Queue.hand_on
  handle_apply-refused io id actor expect none plan s h = ground arith
  handle_apply-refused io id actor expect (some u) none s h = ground arith
  handle_apply-refused io id actor expect (some u) (some fp) s h =
      let s1 : Server = record s {
        queue = Queue.grant s.queue;
        plans = (record_plan (seen_of hash_of render actor u fp) io.now io.begun s.plans).0;
      } in
      let spec = apply_spec hash_of render actor u fp in
      let no_job = launch_refused io id s.queue.next spec s1 in ground (arith, no_job)

  -- the record that an apply has used up
  used_record :
      (hash job : String) (now : ℕ) (wrote : Bool) (p : Plans.Plans) (r : PlanRecord)
      → lookup hash p.by_id ≡ some r
      → check hash now p ≡ none
      → lookup hash (Plans.consume hash job now wrote p).0.by_id ≡ some (used_up job now r)
  unfolding Plans.consume Plans.persist
  used_record hash job now wrote p r here may =
      ground (arith, eq_refl hash, lookup-insert hash hash (used_up job now r) p.by_id)

  launch_used :
      (io : Io) (id actor : String) (u : Upload) (fp : FleetPlan) (t : ℕ) (s : Server)
      (job : Option Job)
      → (launch io id t (apply_spec hash_of render actor u fp) s).1 ≡ ok job
      → (check (hash_of fp) io.now s.plans ≡ none)
        × ((launch io id t (apply_spec hash_of render actor u fp) s).0.plans
            ≡ (Plans.consume (hash_of fp) id io.now io.used s.plans).0)
        × ((launch io id t (apply_spec hash_of render actor u fp) s).0.queue.busy ≡ s.queue.busy)
  unfolding launch prepared Plans.consume Queue.name
  launch_used io id actor u fp t s job h = (ground arith, ground arith, ground arith)

  planned_accepted :
      (io : Io) (id actor expect : String) (u : Upload) (fp : FleetPlan) (t : ℕ) (s : Server)
      (job : Option Job)
      → (apply_planned hash_of render io id actor expect u fp t s).1 ≡ accepted job
      → (hash_of fp ≡ expect)
        × (exit_status fp ≡ 2)
        × ((launch io id t (apply_spec hash_of render actor u fp) s).1 ≡ ok job)
        × ((apply_planned hash_of render io id actor expect u fp t s).0
            ≡ (launch io id t (apply_spec hash_of render actor u fp) s).0)
  unfolding apply_planned exit_status
  planned_accepted io id actor expect u fp t s job h =
      (ground (arith, eq_iff (hash_of fp) expect), ground arith, ground arith, ground arith)

  -- What an apply that is accepted stands on, and what it has done before its work starts: the plan that
  -- was made is the one that was asked for, is not blocked and has changes; the host was free with nobody
  -- in line; before the request the plan stood approved, the approval not used up and not expired, and the
  -- apply's job has used it up; and the host is taken.
  pub handle_apply-accepted :
      (io : Io) (id actor expect : String) (tree : Option Upload) (plan : Option FleetPlan)
      (s : Server) (job : Option Job)
      → (handle_apply hash_of render io id actor expect tree plan s).1 ≡ accepted job
      → (fp : FleetPlan) × (r : PlanRecord) × (a : Approval) × (r' : PlanRecord) × (plan ≡ some fp)
        × (hash_of fp ≡ expect)
        × (exit_status fp ≡ 2)
        × ((s.queue.busy ≡ false) × (s.queue.closed ≡ false) × (s.queue.waiting ≡ []))
        × (lookup expect s.plans.by_id ≡ some r)
        × ((r.approval ≡ some a) × (r.used ≡ none) × (io.now < a.expires))
        × (lookup expect (handle_apply hash_of render io id actor expect tree plan s).0.plans.by_id
            ≡ some r')
        × (r'.used ≡ some (record { job = id; at = io.now }))
        × ((handle_apply hash_of render io id actor expect tree plan s).0.queue.busy ≡ true)
  unfolding handle_apply
  handle_apply-accepted io id actor expect none plan s job h = absurd (ground arith)
  handle_apply-accepted io id actor expect (some u) none s job h = absurd (ground arith)
  handle_apply-accepted io id actor expect (some u) (some fp) s job h =
      let s1 : Server = record s {
        queue = Queue.grant s.queue;
        plans = (record_plan (seen_of hash_of render actor u fp) io.now io.begun s.plans).0;
      } in
      let free : (s.queue.busy ≡ false) × (s.queue.closed ≡ false) × (s.queue.waiting ≡ []) =
        unfold Queue.try_ticket in (ground arith, ground arith, ground arith) in
      let same : handle_apply hash_of render io id actor expect (some u) (some fp) s
          ≡ apply_planned hash_of render io id actor expect u fp s.queue.next s1 =
        unfold Queue.try_ticket in ground arith in
      let (name, two, began, left) =
        planned_accepted io id actor expect u fp s.queue.next s1 job (cc (h, ap (λ x. x.1) same)) in
      let (may, spent, busy) = launch_used io id actor u fp s.queue.next s1 job began in
      let (r, a, old, was, now_is) =
        approved_before (seen_of hash_of render actor u fp) io.now io.begun s.plans
          (unfold seen_of in may) in
      let renewed = seen_again (seen_of hash_of render actor u fp) io.now (some r) in
      let now_used =
        used_record (hash_of fp) id io.now io.used s1.plans renewed (unfold seen_of in now_is)
          may in
      (
        fp,
        r,
        a,
        used_up id io.now renewed,
        refl,
        name,
        two,
        free,
        (let old' : lookup (hash_of fp) s.plans.by_id ≡ some r = unfold seen_of in old in
            cc (old', name)),
        was,
        cc (same, left, spent, now_used, name),
        refl,
        (let taken : s1.queue.busy ≡ true = unfold Queue.grant Queue.send Queue.issue in refl in
            cc (same, left, busy, taken)),
      )
