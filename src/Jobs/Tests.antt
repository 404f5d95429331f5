-- ===== src/Jobs/Tests.antt =====
-- Runs of the job store, and the theorems at concrete inputs.
use native_ops.Base.{
  ℕ, ◌<◌, String, codes, ◌≡◌, ◌⊎◌, refl, Bool, true, false, none, some, List, [], ◌∷◌, arith,
}
use native_ops.Base.Dict.{lookup, insert, values}
use native_ops.Base.Sort.{count}
use native_ops.Base.Prune.{at_least, newer_than, prune_map}
use native_ops.Jobs.{
  queued, running, interrupted, Job, Jobs, pending, new_job, create, start, finish, prune, logf,
  JobFile, valid_job_id, open_jobs, part_way, not_started,
}
use native_ops.Jobs.Keeping.{
  created_at, IsWell, JobCall, made, got_host, ended, wrote_line, amended, sha_is, call, calls,
  job_prune_exact,
}
use native_ops.Jobs.Logs.{AllFit}
use native_ops.Jobs.Files.{DiskFits, FoundOn, calls-AllFit}
use native_ops.Jobs.Restart.{files_of, open_jobs-reopen}

abbrev no_jobs : Jobs
no_jobs = record { jobs = []; disk = [] }

no_jobs-IsWell : IsWell no_jobs
no_jobs-IsWell = record { unique = tt; keyed = tt }

abbrev id : String
id = "j-1700000000-0123abcd"

id_valid : valid_job_id id ≡ true
unfolding valid_job_id
id_valid = refl

id_short : valid_job_id "j-17-0123abcd" ≡ false
unfolding valid_job_id
id_short = refl

abbrev job : Job
job = record {
  id = id;
  kind = "apply";
  status = queued;
  actor = "ci";
  sha = "c0ffee";
  service = "";
  plan_hash = "ab";
  created = 5;
  started = none;
  finished = none;
  error = "";
  result = "";
  log = [];
  log_truncated = false;
  position = 0;
  next = "";
}

abbrev life : List JobCall
life =
    made queued id "apply" "ci" "c0ffee" "" "ab" 5 true
    ∷ got_host id 6 true
    ∷ amended id (sha_is "c0ffee") true
    ∷ wrote_line id (codes "10:00:00 ") (codes "done\n\n") true
    ∷ ended id none 7 true
    ∷ []

logged_once :
    (elim (lookup id (calls life no_jobs).jobs) as (λ _. List ℕ) [ none ↦ [] | some x ↦ x.log ])
    ≡ codes "10:00:00 done\n"
unfolding calls call create new_job start finish logf prune prune_map lookup insert
logged_once = refl

no_jobs-AllFit : AllFit no_jobs
no_jobs-AllFit k x e = absurd (unfold lookup in ground arith)

calls-AllFit_example :
    AllFit (calls life no_jobs)
    × (DiskFits no_jobs
        → DiskFits (calls life no_jobs)
          × ((now : ℕ) (files : List (JobFile × Bool))
              → FoundOn (calls life no_jobs).disk files
              → AllFit (open_jobs now files (calls life no_jobs).disk)
                × DiskFits (open_jobs now files (calls life no_jobs).disk)))
calls-AllFit_example = calls-AllFit life no_jobs no_jobs-AllFit

abbrev one_job : Jobs
one_job = record { jobs = (id, job) ∷ []; disk = (id, job) ∷ [] }

one_job-IsWell : IsWell one_job
unfolding lookup
one_job-IsWell = record { unique = (refl, tt); keyed = (refl, tt) }

here : lookup id one_job.jobs ≡ some job
unfolding lookup
here = refl

job_prune_exact_example :
    ((lookup id (prune one_job).jobs ≡ some job)
      × ((pending job ≡ true) ⊎ (count (newer_than created_at job) (values one_job.jobs) < 200)))
    ⊎ ((lookup id (prune one_job).jobs ≡ none)
        × (pending job ≡ false)
        × (200 < count (at_least created_at job) (values one_job.jobs)))
job_prune_exact_example = job_prune_exact id job one_job one_job-IsWell here

abbrev stopped_job : Job
stopped_job = record job { status = interrupted; finished = some 90; error = not_started }

reopened_job : lookup id (open_jobs 90 (files_of one_job.disk) one_job.disk).jobs ≡ some stopped_job
unfolding open_jobs prune_map lookup insert
reopened_job = refl

open_jobs-reopen_example :
    lookup id (open_jobs 90 (files_of one_job.disk) one_job.disk).jobs
    ≡ elim (lookup id one_job.disk) [
      | none ↦ none
      | some x ↦ some (elim x.status [
        | running ↦ record x { status = interrupted; finished = some 90; error = part_way }
        | queued ↦ record x { status = interrupted; finished = some 90; error = not_started }
        | _ ↦ x
      ])
    ]
open_jobs-reopen_example =
    open_jobs-reopen 90 id one_job.disk one_job-IsWell.unique one_job-IsWell.keyed (id_valid, tt)
      (omega arith)
