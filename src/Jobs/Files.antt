-- ===== src/Jobs/Files.antt =====
-- The bound on the logs in a job's file, and of a daemon that starts again (pkg/server/jobs.go).
use native_ops.Base.{
  ℕ, String, ◌≡◌, ◌⊎◌, inl, inr, Bool, true, false, Option, none, some, List, [], ◌∷◌, arith, All,
  ◌&&◌, str_eq, Option-cases, Bool-cases, length, leb, drop,
}
use native_ops.Base.Dict.{Dict, lookup, insert, lookup-insert, values}
use native_ops.Base.Sort.{sort_desc}
use native_ops.Base.Prune.{prune_map-sub, drop_old-kept}
use native_ops.Jobs.{
  Job, Jobs, JobFile, keep_jobs, pending, persist, prune, new_job, create, update, start, interrupt,
  finish, started_job, interrupted_job, finished_job, logf, logged, log_line, reopen, load_file,
  load_all, open_jobs, valid_job_id,
}
use native_ops.Jobs.Keeping.{
  id_of, created_at, JobCall, made, got_host, stopped, ended, wrote_line, amended, detailed, call,
  calls,
}
use native_ops.Jobs.Logs.{LogFits, AllFit, logf-cases, detailed-LogFits, call-AllFit}

abbrev FitIn : Dict Job → Type 0
FitIn m = (k : String) (x : Job) → lookup k m ≡ some x → LogFits x

-- the logs in the files fit too
abbrev pub DiskFits : Jobs → Type 0
DiskFits j = FitIn j.disk

insert-FitIn : (k : String) (x : Job) (m : Dict Job) → LogFits x → FitIn m → FitIn (insert k x m)
insert-FitIn k x m f h i y e = elim (Bool-cases (str_eq k i)) [
  | inl same ↦ let new : x ≡ y = ground (arith, lookup-insert k i x m) in rw (← new) f
  | inr other ↦ h i y (ground (arith, lookup-insert k i x m))
]

update-DiskFits :
    (id : String) (change : Job → Job) (wrote : Bool) (j : Jobs)
    → ((x : Job) → lookup id j.jobs ≡ some x → LogFits (change x))
    → DiskFits j
    → DiskFits (update id change wrote j)
unfolding update persist
update-DiskFits id change false j fits h k x e = elim (Option-cases (lookup id j.jobs)) [
  | inl absent ↦ h k x (ground (arith, absent))
  | inr (y, here) ↦ h k x (ground (arith, here))
]
update-DiskFits id change true j fits h k x e = elim (Option-cases (lookup id j.jobs)) [
  | inl absent ↦ h k x (ground (arith, absent))
  | inr (y, here) ↦
      insert-FitIn (change y).id (change y) j.disk (fits y here) h k x (ground (arith, here))
]

create-DiskFits :
    (job : Job) (wrote : Bool) (j : Jobs)
    → LogFits job
    → DiskFits j
    → DiskFits (create job wrote j).0
unfolding create persist prune
create-DiskFits job false j f h k x e = h k x e
create-DiskFits job true j f h k x e =
    let m = insert job.id job j.jobs in
    let new = insert-FitIn job.id job j.disk f h k x in
    elim (Bool-cases (leb (length m) keep_jobs)) [
      | inl few ↦ new (ground (arith, few))
      | inr many ↦ new (
          drop_old-kept id_of pending (drop keep_jobs (sort_desc created_at (values m)))
            (insert job.id job j.disk) k x (ground (arith, many)))
    ]

logf-DiskFits :
    (id : String) (stamp text : List ℕ) (wrote : Bool) (j : Jobs)
    → AllFit j
    → DiskFits j
    → DiskFits (logf id stamp text wrote j)
logf-DiskFits id stamp text wrote j a h = elim (logf-cases id stamp text wrote j a) [
  | inl same ↦ rw same h
  | inr (changed, fits) ↦
      rw changed (update-DiskFits id (logged (log_line stamp text)) wrote j fits h)
]

call-DiskFits : (c : JobCall) (j : Jobs) → AllFit j → DiskFits j → DiskFits (call c j)
unfolding call
call-DiskFits (made status id kind actor sha service plan now wrote) j a h =
    create-DiskFits (new_job status id kind actor sha service plan now) wrote j
      (unfold new_job in omega arith) h
call-DiskFits (got_host id now wrote) j a h =
    unfold start in update-DiskFits id (started_job now) wrote j (a id) h
call-DiskFits (stopped id reason now wrote) j a h =
    unfold interrupt in update-DiskFits id (interrupted_job now reason) wrote j (a id) h
call-DiskFits (ended id none now wrote) j a h =
    unfold finish in update-DiskFits id (finished_job now none) wrote j (a id) h
call-DiskFits (ended id (some e) now wrote) j a h =
    unfold finish in update-DiskFits id (finished_job now (some e)) wrote j (a id) h
call-DiskFits (wrote_line id stamp text wrote) j a h = logf-DiskFits id stamp text wrote j a h
call-DiskFits (amended id d wrote) j a h =
    update-DiskFits id (detailed d) wrote j (λ x here. detailed-LogFits d x (a id x here)) h

all_calls-Fit :
    (cs : List JobCall) (j : Jobs)
    → AllFit j
    → AllFit (calls cs j) × (DiskFits j → DiskFits (calls cs j))
unfolding calls
all_calls-Fit [] j a = (a, λ h. h)
all_calls-Fit (c ∷ cs) j a =
    let rest = all_calls-Fit cs (call c j) (call-AllFit c j a) in
    (rest.0, λ h. rest.1 (call-DiskFits c j a h))

-- the files are some of the directory's; one that does not decode holds no job
abbrev pub FoundOn : Dict Job → List (JobFile × Bool) → Type 0
FoundOn disk = All (λ f. (f.0.1 ≡ none) ⊎ (lookup f.0.0 disk ≡ f.0.1))

abbrev HoldsFit : Option Job → Type 0
HoldsFit none = Unit
HoldsFit (some x) = LogFits x

FoundOn-Fit :
    (disk : Dict Job) (files : List (JobFile × Bool))
    → FitIn disk
    → FoundOn disk files
    → All (λ f. HoldsFit f.0.1) files
FoundOn-Fit disk [] h f = tt
FoundOn-Fit disk (((name, none), wrote) ∷ fs) h f = (tt, FoundOn-Fit disk fs h f.1)
FoundOn-Fit disk (((name, some x), wrote) ∷ fs) h f = (h name x there, FoundOn-Fit disk fs h f.1)
  where
    there : lookup name disk ≡ some x
    there = elim (f.0) [ inl e ↦ absurd (ground arith) | inr e ↦ e ]

reopen-LogFits : (now : ℕ) (x : Job) → LogFits x → LogFits (reopen now x)
unfolding reopen
reopen-LogFits now x h = ground (arith, h)

load_file-Fit :
    (now : ℕ) (wrote : Bool) (f : JobFile) (j : Jobs)
    → HoldsFit f.1
    → AllFit j × DiskFits j
    → AllFit (load_file now wrote f j) × DiskFits (load_file now wrote f j)
unfolding load_file persist
load_file-Fit now wrote (name, none) j f h = h
load_file-Fit now wrote (name, some x) j f h =
    let y = reopen now x in
    let fits = reopen-LogFits now x f in
    let jobs = insert-FitIn x.id y j.jobs fits h.0 in
    let disk = insert-FitIn y.id y j.disk fits h.1 in
    elim (Bool-cases (valid_job_id name && str_eq x.id name)) [
      | inr other ↦ rw (other, load_file) h
      | inl its_own ↦ elim (Bool-cases (pending x && wrote)) [
        | inl saved ↦ (
          λ k z e. jobs k z (ground (arith, its_own, saved, e)),
          λ k z e. disk k z (ground (arith, its_own, saved, e)),
        )
        | inr left ↦ (
          λ k z e. jobs k z (ground (arith, its_own, left, e)),
          λ k z e. h.1 k z (ground (arith, its_own, left, e)),
        )
      ]
    ]

load_all-Fit :
    (now : ℕ) (files : List (JobFile × Bool)) (j : Jobs)
    → All (λ f. HoldsFit f.0.1) files
    → AllFit j × DiskFits j
    → AllFit (load_all now files j) × DiskFits (load_all now files j)
unfolding load_all
load_all-Fit now [] j f h = h
load_all-Fit now ((file, wrote) ∷ fs) j f h =
    load_all-Fit now fs (load_file now wrote file j) f.1 (load_file-Fit now wrote file j f.0 h)

prune-Fit : (j : Jobs) → AllFit j × DiskFits j → AllFit (prune j) × DiskFits (prune j)
unfolding prune
prune-Fit j h = (
  λ k x e. h.0 k x (prune_map-sub id_of pending created_at keep_jobs k x j.jobs e),
  λ k x e. elim (Bool-cases (leb (length j.jobs) keep_jobs)) [
    | inl few ↦ h.1 k x (ground (arith, few, e))
    | inr many ↦ h.1 k x (
        drop_old-kept id_of pending (drop keep_jobs (sort_desc created_at (values j.jobs))) j.disk k
          x (ground (arith, many, e)))
  ],
)

-- Whatever is called on the store of a running daemon - jobs recorded, started, interrupted and ended, lines
-- logged, the commit, the plan, the result and the next job written into a job - from a store whose logs
-- fit: no job's log passes 256 KiB, but for the 22 bytes of the note that says it was cut, and only if it is
-- marked as cut. If the logs in the files fit too, they still do, and the logs of a daemon that starts again
-- on some of the files fit.
pub calls-AllFit :
    (cs : List JobCall) (j : Jobs)
    → AllFit j
    → AllFit (calls cs j)
      × (DiskFits j
          → DiskFits (calls cs j)
            × ((now : ℕ) (files : List (JobFile × Bool))
                → FoundOn (calls cs j).disk files
                → AllFit (open_jobs now files (calls cs j).disk)
                  × DiskFits (open_jobs now files (calls cs j).disk)))
unfolding open_jobs
calls-AllFit cs j a =
    let (fit, on_disk) = all_calls-Fit cs j a in
    (
      fit,
      λ h. (
        on_disk h,
        λ now files f.
            let disk = (calls cs j).disk in
            prune-Fit (load_all now files (record { jobs = []; disk = disk })) (
              load_all-Fit now files (record { jobs = []; disk = disk })
                (FoundOn-Fit disk files (on_disk h) f)
                ((λ k x e. absurd (nothing k x e)), on_disk h)),
      ),
    )
  where
    nothing : (k : String) (x : Job) → lookup k [] ≡ some x → ⊥
    nothing k x e = unfold lookup in ground arith
