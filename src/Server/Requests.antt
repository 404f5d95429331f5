-- ===== src/Server/Requests.antt =====
-- The requests on plans and their approvals, and POST /v1/apply (handlePlanApprove, handlePlanRevoke,
-- handleApply), with when the host last changed (lastHostChange) and how a plan is shown (viewWith).
use native_ops.Base.{
  ℕ, String, codes, Bool, true, false, not, ◌&&◌, ◌||◌, Option, none, some, List, [], ◌∷◌, ltb,
  ◌==◌, str_eq, str_append, str_take, if◌then◌else◌, Result, ok, err, length,
}
use native_ops.Queue
use native_ops.Plans
use native_ops.Plans.{
  PlanRecord, PlanError, PlanState, pending, approved, expired, stale, no_such_plan, approval_used,
  approval_expiry, not_approvable, PlanSeen, valid_hash,
}
use native_ops.Jobs
use native_ops.Jobs.{Job, not_started}
use native_ops.Fleet.{FleetPlan, exit_status, counts, is_blocked, is_pending}
use native_ops.Server.{Server, Io, JobSpec, StartError, host_released, noted, launch}

abbrev starts_with : List ℕ → List ℕ → Bool
starts_with [] s = true
starts_with (c ∷ cs) [] = false
starts_with (c ∷ cs) (d ∷ ds) = c == d && starts_with cs ds

unfoldable pub changes_host : String → Bool
changes_host kind =
    (str_eq kind "apply"
      || (str_eq kind "deploy"
          || (str_eq kind "edge:apply" || (str_eq kind "restore" || str_eq kind "image:build"))))
    || (ltb 9 (length (codes kind)) && starts_with (codes "instance:") (codes kind))

-- when a job that ended changed the host, if it did
unfoldable pub change_time : Job → Option ℕ
unfolding changes_host
change_time j = elim j.finished [
  | none ↦ none
  | some at ↦ if changes_host j.kind && not (str_eq j.error not_started) then some at else none
]

-- the loop of `lastHostChange`
unfoldable pub latest : List Job → ℕ → ℕ
unfolding change_time
latest [] last = last
latest (j ∷ js) last =
    latest js (elim (change_time j) [ none ↦ last | some at ↦ if ltb last at then at else last ])

unfoldable pub last_host_change : Server → ℕ
unfolding latest
last_host_change s = latest (Jobs.list s.jobs) 0

-- `viewWith`: a plan that no apply can be for any more is stale
unfoldable pub view_with : PlanRecord → ℕ → ℕ → PlanState
view_with r last now =
    let changed = ltb r.last_seen last in
    elim (Plans.state r now) [
      | pending ↦ if changed then stale else pending
      | approved ↦ if changed then stale else approved
      | expired ↦ if changed then stale else expired
      | st ↦ st
    ]

pub data Reply : Type 0 where
  bad_request not_found stale_plan not_approvable_plan used_plan expired_plan unapproved_plan :
      Reply
  internal busy_host tree_refused plan_refused plan_changed plan_blocked nothing_to_do : Reply
  shown : PlanState → Reply
  accepted : Option Job → Reply

abbrev pub is_stale : PlanState → Bool
is_stale stale = true
is_stale _ = false

unfoldable pub handle_plan_approve : Io → String → String → Server → Server × Reply
unfolding view_with last_host_change
handle_plan_approve io hash by s =
    if not (valid_hash hash)
    then (s, not_found)
    else if elim (Plans.get hash s.plans) [
      | none ↦ false
      | some r ↦ is_stale (view_with r (last_host_change s) io.now)
    ]
    then (s, stale_plan)
    else (let (plans, r) = Plans.approve hash by io.now io.used s.plans in
        let s1 = record s { plans = plans } in
        elim r [
          | ok rec ↦ (s1, shown (view_with rec (last_host_change s1) io.now))
          | err no_such_plan ↦ (s1, not_found)
          | err not_approvable ↦ (s1, not_approvable_plan)
          | err approval_used ↦ (s1, used_plan)
          | err _ ↦ (s1, internal)
        ])

unfoldable pub handle_plan_revoke : Io → String → Server → Server × Reply
unfolding view_with last_host_change
handle_plan_revoke io hash s =
    if not (valid_hash hash)
    then (s, not_found)
    else (let (plans, r) = Plans.revoke hash io.used s.plans in
        let s1 = record s { plans = plans } in
        elim r [
          | ok rec ↦ (s1, shown (view_with rec (last_host_change s1) io.now))
          | err no_such_plan ↦ (s1, not_found)
          | err approval_used ↦ (s1, used_plan)
          | err _ ↦ (s1, internal)
        ])

-- an uploaded tree: the service that it is about, and its commit
pub record Upload : Type 0 where
  pub service : String
  pub sha : String

-- SHA-256 over the plan's JSON stands outside the model: `hash_of` is `FleetPlan.Hash`, and `render`
-- is `FleetPlan.Render`.
module _ (hash_of render : FleetPlan → String) where
  -- `recordPlan`, on what the plan says
  unfoldable pub seen_of : String → Upload → FleetPlan → PlanSeen
  seen_of actor u fp = record {
    hash = hash_of fp;
    actor = actor;
    sha = u.sha;
    service = u.service;
    exit = exit_status fp;
    counts = counts fp;
    text = render fp;
  }

  abbrev pub apply_spec : String → Upload → FleetPlan → JobSpec
  apply_spec actor u fp = record {
    kind = "apply";
    actor = actor;
    sha = u.sha;
    subject = u.service;
    plan_hash = hash_of fp;
    what = str_append "apply of plan " (str_take 12 (hash_of fp));
    audit = "apply";
    prepare = some (hash_of fp);
  }

  -- the deferred release of a request that started no job
  abbrev pub let_go : String → Server → Server
  let_go id s = noted (host_released id) (record s { queue = Queue.release s.queue })

  abbrev pub started : Server × Result StartError (Option Job) → Server × Reply
  started (s, r) = elim r [ ok job ↦ (s, accepted job) | err e ↦ (s, internal) ]

  -- `handleApply` once it holds the host, has a plan and has recorded it
  unfoldable pub apply_planned :
      Io → String → String → String → Upload → FleetPlan → ℕ → Server → Server × Reply
  apply_planned io id actor expect u fp t s =
      if not (str_eq (hash_of fp) expect)
      then (let_go id s, plan_changed)
      else if is_blocked fp
      then (let_go id s, plan_blocked)
      else if not (is_pending fp)
      then (let_go id s, nothing_to_do)
      else elim (Plans.check (hash_of fp) io.now s.plans) [
        | some approval_used ↦ (let_go id s, used_plan)
        | some approval_expiry ↦ (let_go id s, expired_plan)
        | some _ ↦ (let_go id s, unapproved_plan)
        | none ↦ started (launch io id t (apply_spec actor u fp) s)
      ]

  unfoldable pub handle_apply :
      Io → String → String → String → Option Upload → Option FleetPlan → Server → Server × Reply
  unfolding apply_planned seen_of
  handle_apply io id actor expect tree plan s =
      if not (valid_hash expect)
      then (s, bad_request)
      else (let (q, free) = Queue.try_ticket s.queue in
          elim free [
            | none ↦ (s, busy_host)
            | some t ↦
                let s1 = record s { queue = q } in
                elim tree [
                  | none ↦ (let_go id s1, tree_refused)
                  | some u ↦ elim plan [
                    | none ↦ (let_go id s1, plan_refused)
                    | some fp ↦
                        let (plans, r) =
                          Plans.record_plan (seen_of actor u fp) io.now io.begun s1.plans in
                        apply_planned io id actor expect u fp t (record s1 { plans = plans })
                  ]
                ]
          ])
