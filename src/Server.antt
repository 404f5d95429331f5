-- ===== src/Server.antt =====
-- The daemon's changes to the host (pkg/server/apply.go, approvals.go and deploy.go): a request takes or
-- awaits the host, is recorded as a job, runs, and hands the host on.
-- What a request does outside these stores comes as arguments: the tree that it uploaded, the plan that
-- was made of it, what the job's work did. `trace` lists what an observer sees, in order.
pub mod Requests
pub mod Launch
pub mod Apply
pub mod Stale
pub mod Deploy
mod Tests
use native_ops.Base.{
  ℕ, zero, suc, ◌+◌, ◌*◌, String, codes, Bool, true, false, not, ◌&&◌, ◌||◌, Option, none, some,
  List, [], ◌∷◌, ◌++◌, ltb, leb, ◌==◌, str_eq, str_append, if◌then◌else◌, Result, ok, err, length,
}
use native_ops.Queue
use native_ops.Queue.Threads
use native_ops.Queue.{HostQueue, QueueError, queue_full, queue_closed}
use native_ops.Plans
use native_ops.Plans.{
  PlanRecord, PlanError, PlanState, pending, approved, expired, stale, no_such_plan, approval_used,
  approval_expiry, not_approvable, not_approved, not_written, PlanSeen, Plans,
}
use native_ops.Jobs
use native_ops.Jobs.{Job, Jobs, JobStatus, queued, not_started}
use native_ops.Fleet.{FleetPlan, exit_status, counts, is_blocked, is_pending}

pub data Event : Type 0 where
  work_ran cleaned_up job_ended job_interrupted : String → Event
  host_released : String → Event
  audited : String → Bool → Event
  followed : String → Event
  plan_applied : String → Event

pub record Server : Type 0 where
  pub queue : HostQueue
  pub jobs : Jobs
  pub plans : Plans
  pub trace : List Event

-- the clock's answer in a step, whether each of its files could be written, and the system's error text if
-- one could not
pub record Io : Type 0 where
  pub now : ℕ
  pub made : Bool
  pub begun : Bool
  pub used : Bool
  pub logged : Bool
  pub ended : Bool
  pub why : String

-- `prepare` is the hash of the plan whose approval the job uses up, if it is an apply
pub record JobSpec : Type 0 where
  pub kind : String
  pub actor : String
  pub sha : String
  pub subject : String
  pub plan_hash : String
  pub what : String
  pub audit : String
  pub prepare : Option String

pub data StartError : Type 0 where
  busy : StartError
  refused : QueueError → StartError
  not_recorded : StartError
  not_prepared : PlanError → StartError

abbrev pub noted : Event → Server → Server
noted e s = record s { trace = s.trace ++ e ∷ [] }

-- `PlanError` as text
abbrev pub plan_error_text : String → PlanError → String
plan_error_text why no_such_plan = "no such plan"
plan_error_text why not_approvable = "this plan cannot be approved"
plan_error_text why not_approved = "the plan has not been approved"
plan_error_text why approval_used = "the approval was already used"
plan_error_text why approval_expiry = "the approval has expired"
plan_error_text why not_written = why

abbrev pub not_usable : String → PlanError → Option String
not_usable why e = some (str_append "the approval could not be used: " (plan_error_text why e))

-- the closure `end` of `launch`
unfoldable pub end_job : Io → String → Option String → Bool → Server → Server
end_job io id outcome gives s =
    let s1 = noted (cleaned_up id) s in
    let s2 =
      noted (job_ended id) (record s1 { jobs = Jobs.finish id outcome io.now io.ended s1.jobs }) in
    let s3 =
      if gives
      then noted (host_released id) (record s2 { queue = Queue.release s2.queue })
      else s2 in
    noted (audited id (not (Plans.is_some outcome))) s3

-- what `launch` answers: the job as it is stored, without its log, and its place in line
unfoldable pub answer : String → Bool → Server → Option Job
answer id granted s = elim (Jobs.get id s.jobs) [
  | none ↦ none
  | some job ↦ some (
      if granted
      then record job { log = [] }
      else record job { log = []; position = Queue.position id s.queue })
]

-- `launch` up to where the job's goroutine starts; `id` is the new job's identifier
unfoldable pub prepared :
    Io → String → ℕ → JobSpec → Server → Server × Result StartError (Option Job)
unfolding end_job answer
prepared io id t spec s =
    let granted = (s.queue.heap t).granted in
    elim spec.prepare [
      | none ↦ (s, ok (answer id granted s))
      | some hash ↦
          let (plans, used) = Plans.consume hash id io.now io.used s.plans in
          let s1 = record s { plans = plans } in
          elim used [
            | ok r ↦ (s1, ok (answer id granted s1))
            | err e ↦ (
              if granted
                  then end_job io id (not_usable io.why e) true s1
                  else end_job io id (not_usable io.why e) false
                      (record s1 { queue = Queue.abandon t s1.queue }),
              err (not_prepared e),
            )
          ]
    ]

unfoldable pub launch : Io → String → ℕ → JobSpec → Server → Server × Result StartError (Option Job)
unfolding prepared
launch io id t spec s =
    let (jobs, made) =
      Jobs.create_queued id spec.kind spec.actor spec.sha spec.subject spec.plan_hash io.now io.made
        s.jobs in
    elim made [
      | none ↦
          (noted (cleaned_up id) (record s { queue = Queue.abandon t s.queue }), err not_recorded)
      | some job ↦
          let s1 = record s { jobs = jobs; queue = Queue.name t id s.queue } in
          let s2 =
            if (s1.queue.heap t).granted
            then record s1 { jobs = Jobs.start id io.now io.begun s1.jobs }
            else s1 in
          prepared io id t spec s2
    ]

-- how a job's work ends: a panic is recovered and is an error too
pub data Work : Type 0 where
  returned : Option String → Work
  panicked : String → Work

abbrev pub outcome_of : String → Work → Option String
outcome_of what (returned e) = e
outcome_of what (panicked p) = some (str_append what (str_append " panicked: " p))

abbrev pub last_line : Option String → List ℕ
last_line none = codes "done"
last_line (some e) = codes "FAILED: " ++ codes e

-- the state in which a job's work starts, once its goroutine was told that it has the host. `stamp` is the
-- formatted time of its log lines, and `waited` the text on how long it waited.
unfoldable pub begun : Io → String → Bool → JobSpec → List ℕ → List ℕ → Server → Server
begun io id granted spec stamp waited s =
    let jobs1 = if granted then s.jobs else Jobs.start id io.now io.begun s.jobs in
    let first =
      codes spec.what
      ++ codes " started by "
      ++ codes spec.actor
      ++ (if granted then [] else waited) in
    noted (work_ran id) (record s { jobs = Jobs.logf id stamp first io.logged jobs1 })

-- the goroutine from there on. The work is what it does to the state, with what other callers do while it
-- runs, and how it ends.
unfoldable pub run_work :
    Io → String → Bool → JobSpec → List ℕ → List ℕ → (Server → Server × Work) → Server → Server
unfolding begun end_job
run_work io id granted spec stamp waited work s =
    let (s2, how) = work (begun io id granted spec stamp waited s) in
    let jobs = Jobs.logf id stamp (last_line (outcome_of spec.what how)) io.logged s2.jobs in
    end_job io id (outcome_of spec.what how) true (record s2 { jobs = jobs })

-- the goroutine of `launch`: nothing while its ticket's channel is empty
unfoldable pub run_job :
    Io → String → ℕ → JobSpec → List ℕ → List ℕ → (Server → Server × Work) → Server → Option Server
unfolding run_work
run_job io id t spec stamp waited work s =
    let ticket = s.queue.heap t in
    elim ticket.ch [
      | [] ↦ none
      | false ∷ rest ↦
          let s1 = noted (cleaned_up id) (record s { queue = Threads.receive t s.queue }) in
          some (
            noted (audited id false) (
              noted (job_interrupted id)
                (record s1 { jobs = Jobs.interrupt id not_started io.now io.ended s1.jobs })))
      | true ∷ rest ↦ some (
          run_work io id ticket.granted spec stamp waited work
            (record s { queue = Threads.receive t s.queue }))
    ]

unfoldable pub queue_job : Io → String → JobSpec → Server → Server × Result StartError (Option Job)
unfolding launch
queue_job io id spec s =
    let (q, t) = Queue.enqueue s.queue in
    elim t [ err e ↦ (s, err (refused e)) | ok p ↦ launch io id p spec (record s { queue = q }) ]

unfoldable pub run_job_now :
    Io → String → JobSpec → Server → Server × Result StartError (Option Job)
unfolding launch
run_job_now io id spec s =
    let (q, t) = Queue.try_ticket s.queue in
    elim t [ none ↦ (s, err busy) | some p ↦ launch io id p spec (record s { queue = q }) ]
