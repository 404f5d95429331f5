-- ===== src/Server/Launch.antt =====
-- What a job does once its turn comes or the daemon stops (`launch` of pkg/server/apply.go).
use native_ops.Base.{
  ℕ, String, ◌≡◌, ap, refl, inl, inr, Bool, true, false, not, Option, none, some, List, [], ◌∷◌,
  ◌++◌, arith, eq_refl,
}
use native_ops.Base.Dict.{lookup}
use native_ops.Queue
use native_ops.Queue.Threads
use native_ops.Plans
use native_ops.Jobs
use native_ops.Jobs.{
  Job, Jobs, JobStatus, succeeded, failed, interrupted, not_started, started_job, finished_job,
  interrupted_job,
}
use native_ops.Jobs.Keeping.{lookup-update, logf-update}
use native_ops.Server.{
  Server, Io, JobSpec, Event, cleaned_up, job_ended, job_interrupted, host_released, audited, Work,
  outcome_of, begun, run_work, run_job, end_job,
}

abbrev pub status_of : Option String → JobStatus
status_of none = succeeded
status_of (some e) = failed

-- the job is over: when, how, and with what error
abbrev pub Over : JobStatus → ℕ → Option String → Option Job → Type 0
Over status now error none = ⊥
Over status now error (some j) =
    (j.status ≡ status) × (j.finished ≡ some now) × ((e : String) → error ≡ some e → j.error ≡ e)

-- it is in the store before the call and after it
abbrev pub Held : String → Jobs → Type 0
Held id j = (x : Job) × (lookup id j.jobs ≡ some x)

pub start-Held :
    (id : String) (now : ℕ) (wrote : Bool) (j : Jobs)
    → Held id j
    → Held id (Jobs.start id now wrote j)
unfolding Jobs.start
start-Held id now wrote j (x, e) =
    (started_job now x, ground (arith, eq_refl id, lookup-update id id (started_job now) wrote j))

pub logf-Held :
    (id : String) (stamp text : List ℕ) (wrote : Bool) (j : Jobs)
    → Held id j
    → Held id (Jobs.logf id stamp text wrote j)
logf-Held id stamp text wrote j (x, e) = elim (logf-update id stamp text wrote j) [
  | inl same ↦ rw same (x, e)
  | inr same ↦ rw same (
    Jobs.logged (Jobs.log_line stamp text) x,
    ground
        (arith, eq_refl id, lookup-update id id (Jobs.logged (Jobs.log_line stamp text)) wrote j),
  )
]

finish-Over :
    (id : String) (outcome : Option String) (now : ℕ) (wrote : Bool) (j : Jobs)
    → Held id j
    → Over (status_of outcome) now outcome (lookup id (Jobs.finish id outcome now wrote j).jobs)
unfolding Jobs.finish
finish-Over id outcome now wrote j (x, e) =
    let here : lookup id (Jobs.update id (finished_job now outcome) wrote j).jobs
        ≡ some (finished_job now outcome x) =
      ground (arith, eq_refl id, lookup-update id id (finished_job now outcome) wrote j) in
    rw here (over outcome)
  where
    over : (o : Option String) → Over (status_of o) now o (some (finished_job now o x))
    over none = (refl, refl, λ e h. ground arith)
    over (some e) = (refl, refl, λ e h. ground arith)

-- when its work starts, the job is in the store, and the queue is as it was
pub begun-Held :
    (io : Io) (id : String) (granted : Bool) (spec : JobSpec) (stamp waited : List ℕ) (s : Server)
    → Held id s.jobs
    → Held id (begun io id granted spec stamp waited s).jobs
unfolding begun
begun-Held io id true spec stamp waited s h = logf-Held id stamp _ io.logged s.jobs h
begun-Held io id false spec stamp waited s h =
    logf-Held id stamp _ io.logged _ (start-Held id io.now io.begun s.jobs h)

in_order :
    (xs : List Event) (b c d e : Event)
    → (((xs ++ b ∷ []) ++ c ∷ []) ++ d ∷ []) ++ e ∷ [] ≡ xs ++ b ∷ c ∷ d ∷ e ∷ []
in_order [] b c d e = refl
in_order (y ∷ ys) b c d e = ap (λ zs. y ∷ zs) (in_order ys b c d e)

-- A job that has the host, and is still in the store after its work, ends as succeeded or failed by how the
-- work ended, as of now. An observer sees, after the work and in this order, the cleanup, the end of the
-- job, the release of the host and the entry in the audit log. The plans are as the work left them, and the
-- host goes to the next in line.
pub run_job-ends :
    (io : Io) (id : String) (t : ℕ) (spec : JobSpec) (stamp waited : List ℕ)
    (work : Server → Server × Work) (s : Server) (rest : List Bool)
    → (s.queue.heap t).ch ≡ true ∷ rest
    → let s1 = record s { queue = Threads.receive t s.queue } in
      let after = work (begun io id (s.queue.heap t).granted spec stamp waited s1) in
      let outcome = outcome_of spec.what after.1 in
      Held id after.0.jobs
      → (s' : Server) × (run_job io id t spec stamp waited work s ≡ some s')
        × (s'.trace
            ≡ after.0.trace
              ++ (cleaned_up id
                  ∷ job_ended id
                  ∷ host_released id
                  ∷ audited id (not (Plans.is_some outcome))
                  ∷ []))
        × Over (status_of outcome) io.now outcome (lookup id s'.jobs.jobs)
        × (s'.queue ≡ Queue.release after.0.queue)
        × (s'.plans ≡ after.0.plans)
unfolding run_job run_work end_job
run_job-ends io id t spec stamp waited work s rest told held =
    let s1 = record s { queue = Threads.receive t s.queue } in
    let after = work (begun io id (s.queue.heap t).granted spec stamp waited s1) in
    let outcome = outcome_of spec.what after.1 in
    (
      run_work io id (s.queue.heap t).granted spec stamp waited work s1,
      ground (arith, told),
      in_order after.0.trace _ _ _ _,
      finish-Over id outcome io.now io.ended _ (logf-Held id stamp _ io.logged _ held),
      refl,
      refl,
    )

-- A job whose turn did not come before the daemon stopped is interrupted with the error that nothing was
-- done. Its work does not run and it gives no host away: the line and who holds the host are as they were.
pub run_job-told_no :
    (io : Io) (id : String) (t : ℕ) (spec : JobSpec) (stamp waited : List ℕ)
    (work : Server → Server × Work) (s : Server) (x : Job) (rest : List Bool)
    → lookup id s.jobs.jobs ≡ some x
    → (s.queue.heap t).ch ≡ false ∷ rest
    → (s' : Server) × (run_job io id t spec stamp waited work s ≡ some s')
      × (s'.trace ≡ s.trace ++ cleaned_up id ∷ job_interrupted id ∷ audited id false ∷ [])
      × Over interrupted io.now (some not_started) (lookup id s'.jobs.jobs)
      × (s'.queue.busy ≡ s.queue.busy)
      × (s'.queue.waiting ≡ s.queue.waiting)
      × (s'.plans ≡ s.plans)
unfolding run_job Jobs.interrupt
run_job-told_no io id t spec stamp waited work s x rest here told = (
  record s {
    queue = Threads.receive t s.queue;
    trace = ((s.trace ++ cleaned_up id ∷ []) ++ job_interrupted id ∷ []) ++ audited id false ∷ [];
    jobs = Jobs.interrupt id not_started io.now io.ended s.jobs;
  },
  ground arith,
  in_order s.trace _ _ _,
  stopped,
  refl,
  refl,
  refl,
)
  where
    in_order :
        (xs : List Event) (a b c : Event)
        → ((xs ++ a ∷ []) ++ b ∷ []) ++ c ∷ [] ≡ xs ++ a ∷ b ∷ c ∷ []
    in_order [] a b c = refl
    in_order (y ∷ ys) a b c = ap (λ zs. y ∷ zs) (in_order ys a b c)

    stopped :
        Over interrupted io.now
          (some not_started)
          (lookup id (Jobs.update id (interrupted_job io.now not_started) io.ended s.jobs).jobs)
    stopped =
        let there : lookup id
              (Jobs.update id (interrupted_job io.now not_started) io.ended s.jobs).jobs
            ≡ some (interrupted_job io.now not_started x) =
          ground (
            arith,
            eq_refl id,
            lookup-update id id (interrupted_job io.now not_started) io.ended s.jobs,
          ) in
        rw there (refl, refl, λ e h. ground arith)
