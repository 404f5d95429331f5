-- ===== src/Jobs/Restart.antt =====
-- What the daemon finds of its jobs when it starts (`OpenJobs` of pkg/server/jobs.go).
use native_ops.Base.{
  ℕ, suc, ◌+◌, ◌≤◌, length, String, ◌≡◌, ◌≢◌, refl, Bool, true, false, Option, none, some, List, [],
  ◌∷◌, arith, eq_iff,
}
use native_ops.Base.Dict.{Dict, lookup, insert, lookup-insert, Unique}
use native_ops.Base.Prune.{prune_map-sub, prune_map, Keyed}
use native_ops.Jobs.{
  queued, running, interrupted, Job, Jobs, JobFile, keep_jobs, pending, persist, prune, reopen,
  load_file, load_all, open_jobs, valid_job_id, not_started, part_way,
}
use native_ops.Jobs.Keeping.{id_of, created_at}

abbrev pub NonePending : Jobs → Type 0
NonePending j = (k : String) (x : Job) → lookup k j.jobs ≡ some x → pending x ≡ false

reopen_ended : (now : ℕ) (x : Job) → pending (reopen now x) ≡ false
unfolding reopen
reopen_ended now x = ground arith

load_file-NonePending :
    (now : ℕ) (wrote : Bool) (f : JobFile) (j : Jobs)
    → NonePending j
    → NonePending (load_file now wrote f j)
unfolding load_file persist
load_file-NonePending now wrote (name, none) j h k x e = h k x e
load_file-NonePending now wrote (name, some job) j h k x e = ground (
  arith,
  h k x,
  reopen_ended now job,
  lookup-insert job.id k (reopen now job) j.jobs,
  eq_iff job.id k,
)

load_all-NonePending :
    (now : ℕ) (fs : List (JobFile × Bool)) (j : Jobs)
    → NonePending j
    → NonePending (load_all now fs j)
unfolding load_all
load_all-NonePending now [] j h = h
load_all-NonePending now ((f, wrote) ∷ fs) j h =
    load_all-NonePending now fs (load_file now wrote f j) (load_file-NonePending now wrote f j h)

-- Whatever the directory holds, no job is queued or running when the daemon has started.
pub open_jobs_ended :
    (now : ℕ) (files : List (JobFile × Bool)) (disk : Dict Job) (k : String) (x : Job)
    → lookup k (open_jobs now files disk).jobs ≡ some x
    → (x.status ≢ queued) × (x.status ≢ running)
unfolding open_jobs prune
open_jobs_ended now files disk k x e =
    let start : Jobs = record { jobs = []; disk = disk } in
    let loaded = load_all now files start in
    let here = prune_map-sub id_of pending created_at keep_jobs k x loaded.jobs e in
    let ended =
      load_all-NonePending now files start (λ i y n. absurd (unfold lookup in ground arith)) k x
        here in
    (λ q. ground arith, λ r. ground arith)

-- the directory as the previous daemon left it, every file readable and named after its job
abbrev pub files_of : Dict Job → List (JobFile × Bool)
files_of [] = []
files_of ((k, x) ∷ d) = ((k, some x), true) ∷ files_of d

abbrev pub AllValid : Dict Job → Type 0
AllValid [] = Unit
AllValid ((k, x) ∷ d) = (valid_job_id k ≡ true) × AllValid d

abbrev pub reopened : ℕ → Option Job → Option Job → Option Job
reopened now none o = o
reopened now (some x) o = some (reopen now x)

lookup-load_all :
    (now : ℕ) (k : String) (d : Dict Job) (j : Jobs)
    → Unique d
    → Keyed id_of d
    → AllValid d
    → lookup k (load_all now (files_of d) j).jobs ≡ reopened now (lookup k d) (lookup k j.jobs)
unfolding load_all load_file persist lookup
lookup-load_all now k [] j u w v = refl
lookup-load_all now k ((i, x) ∷ d) j u w v =
    let j' = load_file now true (i, some x) j in
    ground (
      arith,
      lookup-load_all now k d j' u.1 w.1 v.1,
      lookup-insert x.id k (reopen now x) j.jobs,
      eq_iff x.id i,
      eq_iff x.id k,
      eq_iff i k,
    )

length-insert : (k : String) (x : Job) (m : Dict Job) → length (insert k x m) ≤ suc (length m)
unfolding insert
length-insert k x [] = omega arith
length-insert k x ((i, y) ∷ m) = ground (arith, length-insert k x m)

length-load_all :
    (now : ℕ) (d : Dict Job) (j : Jobs)
    → length (load_all now (files_of d) j).jobs ≤ length d + length j.jobs
unfolding load_all load_file persist
length-load_all now [] j = omega arith
length-load_all now ((i, x) ∷ d) j = ground (
  arith,
  length-load_all now d (load_file now true (i, some x) j),
  length-insert x.id (reopen now x) j.jobs,
)

-- From a directory of at most 200 jobs, each in a file named after it: the daemon starts with exactly
-- those jobs. One that was running or queued is interrupted, as of now, with the error that says
-- whether it had begun; every other job is as it was.
pub open_jobs-reopen :
    (now : ℕ) (k : String) (d : Dict Job)
    → Unique d
    → Keyed id_of d
    → AllValid d
    → length d ≤ 200
    → lookup k (open_jobs now (files_of d) d).jobs ≡ elim (lookup k d) [
      | none ↦ none
      | some x ↦ some (elim x.status [
        | running ↦ record x { status = interrupted; finished = some now; error = part_way }
        | queued ↦ record x { status = interrupted; finished = some now; error = not_started }
        | _ ↦ x
      ])
    ]
unfolding open_jobs prune prune_map reopen lookup
open_jobs-reopen now k d u w v few =
    let start : Jobs = record { jobs = []; disk = d } in
    let short = length-load_all now d start in
    ground (arith, lookup-load_all now k d start u w v, short)
