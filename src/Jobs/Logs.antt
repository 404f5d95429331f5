-- ===== src/Jobs/Logs.antt =====
-- The bound on a job's log (`Logf` of pkg/server/jobs.go).
use native_ops.Base.{
  ℕ, ◌+◌, ◌≤◌, String, ◌≡◌, ◌⊎◌, refl, inl, inr, Bool, true, false, none, some, List, ◌++◌, arith,
  if◌then◌else◌, str_eq, eq_iff, Option-cases, Bool-cases, length, length-append, leb,
}
use native_ops.Base.Dict.{lookup, insert, lookup-insert}
use native_ops.Base.Prune.{prune_map-sub}
use native_ops.Jobs.{
  Job, Jobs, max_job_log_bytes, truncated_note, keep_jobs, pending, persist, prune, new_job, create,
  update, start, interrupt, finish, started_job, interrupted_job, finished_job, logf, logged,
  log_line,
}
use native_ops.Jobs.Keeping.{
  id_of, created_at, JobCall, made, got_host, stopped, ended, wrote_line, amended, Detail, detailed,
  sha_is, plan_hash_is, result_is, next_is, call, lookup-update,
}

abbrev pub LogFits : Job → Type 0
LogFits x = length x.log ≤ (if x.log_truncated then max_job_log_bytes + 22 else max_job_log_bytes)

abbrev pub AllFit : Jobs → Type 0
AllFit j = (k : String) (x : Job) → lookup k j.jobs ≡ some x → LogFits x

note_length : length truncated_note ≡ 22
note_length = refl

pub logged-LogFits :
    (line : List ℕ) (x : Job) → x.log_truncated ≡ false → LogFits x → LogFits (logged line x)
unfolding logged
logged-LogFits line x open' h =
    ground (arith, length-append x.log line, length-append x.log truncated_note)

update-AllFit :
    (id : String) (change : Job → Job) (wrote : Bool) (j : Jobs)
    → ((x : Job) → lookup id j.jobs ≡ some x → LogFits (change x))
    → AllFit j
    → AllFit (update id change wrote j)
update-AllFit id change wrote j fits h k x e = elim (Bool-cases (str_eq id k)) [
  | inr other ↦ h k x (ground (arith, lookup-update id k change wrote j))
  | inl same ↦ elim (Option-cases (lookup id j.jobs)) [
    | inl absent ↦ absurd (ground (arith, lookup-update id k change wrote j))
    | inr (y, here) ↦
        let new : change y ≡ x = ground (arith, lookup-update id k change wrote j) in
        rw (← new) (fits y here)
  ]
]

create-AllFit :
    (job : Job) (wrote : Bool) (j : Jobs) → LogFits job → AllFit j → AllFit (create job wrote j).0
unfolding create persist prune
create-AllFit job false j f h k x e = h k x e
create-AllFit job true j f h k x e =
    let here = prune_map-sub id_of pending created_at keep_jobs k x (insert job.id job j.jobs) e in
    elim (Bool-cases (str_eq job.id k)) [
      | inl same ↦
          let new : job ≡ x = ground (arith, lookup-insert job.id k job j.jobs) in rw (← new) f
      | inr other ↦ h k x (ground (arith, lookup-insert job.id k job j.jobs))
    ]

-- logging changes nothing, or one job whose log still fits
pub logf-cases :
    (id : String) (stamp text : List ℕ) (wrote : Bool) (j : Jobs)
    → AllFit j
    → (logf id stamp text wrote j ≡ j)
      ⊎ ((logf id stamp text wrote j ≡ update id (logged (log_line stamp text)) wrote j)
          × ((x : Job) → lookup id j.jobs ≡ some x → LogFits (logged (log_line stamp text) x)))
unfolding logf update
logf-cases id stamp text wrote j h = elim (Option-cases (lookup id j.jobs)) [
  | inl e ↦ inl (ground (arith, e))
  | inr (y, e) ↦ elim (Bool-cases y.log_truncated) [
    | inl cut ↦ inl (ground (arith, e, cut))
    | inr open' ↦ inr (
      ground (arith, e, open'),
      λ x here.
          logged-LogFits (log_line stamp text) x (ground (arith, e, here, open')) (h id x here),
    )
  ]
]

logf-AllFit :
    (id : String) (stamp text : List ℕ) (wrote : Bool) (j : Jobs)
    → AllFit j
    → AllFit (logf id stamp text wrote j)
logf-AllFit id stamp text wrote j h = elim (logf-cases id stamp text wrote j h) [
  | inl same ↦ rw same h
  | inr (changed, fits) ↦
      rw changed (update-AllFit id (logged (log_line stamp text)) wrote j fits h)
]

pub detailed-LogFits : (d : Detail) (x : Job) → LogFits x → LogFits (detailed d x)
detailed-LogFits (sha_is t) x h = h
detailed-LogFits (plan_hash_is t) x h = h
detailed-LogFits (result_is t) x h = h
detailed-LogFits (next_is t) x h = h

pub call-AllFit : (c : JobCall) (j : Jobs) → AllFit j → AllFit (call c j)
unfolding call
call-AllFit (made status id kind actor sha service plan now wrote) j h =
    create-AllFit (new_job status id kind actor sha service plan now) wrote j
      (unfold new_job in omega arith) h
call-AllFit (got_host id now wrote) j h =
    unfold start in update-AllFit id (started_job now) wrote j (h id) h
call-AllFit (stopped id reason now wrote) j h =
    unfold interrupt in update-AllFit id (interrupted_job now reason) wrote j (h id) h
call-AllFit (ended id none now wrote) j h =
    unfold finish in update-AllFit id (finished_job now none) wrote j (h id) h
call-AllFit (ended id (some e) now wrote) j h =
    unfold finish in update-AllFit id (finished_job now (some e)) wrote j (h id) h
call-AllFit (wrote_line id stamp text wrote) j h = logf-AllFit id stamp text wrote j h
call-AllFit (amended id d wrote) j h =
    update-AllFit id (detailed d) wrote j (λ x here. detailed-LogFits d x (h id x here)) h

-- Logging to a job that is there: a log that was cut does not change; any other has the line behind
-- it if that fits 256 KiB, and else the note, and is marked as cut. No other job changes.
pub logf_lem :
    (id k : String) (stamp text : List ℕ) (wrote : Bool) (j : Jobs) (x : Job)
    → lookup id j.jobs ≡ some x
    → lookup k (logf id stamp text wrote j).jobs ≡ (
        if str_eq id k
        then some (
            if x.log_truncated
            then x
            else if leb (length x.log + length (log_line stamp text)) max_job_log_bytes
            then record x { log = x.log ++ log_line stamp text }
            else record x { log = x.log ++ truncated_note; log_truncated = true })
        else lookup k j.jobs)
unfolding logf persist logged
logf_lem id k stamp text wrote j x e =
    ground (arith, eq_iff id k, lookup-insert id k (logged (log_line stamp text) x) j.jobs)
