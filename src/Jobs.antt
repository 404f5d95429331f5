-- ===== src/Jobs.antt =====
-- The store of jobs (pkg/server/jobs.go), and when the host last changed (pkg/server/deploy.go).
-- A `*Job` is shared by the map alone, so a change to a job is a change to the map's entry. A log is a
-- list of bytes. `now` is the clock's answer in the call, `id` the identifier that `newJobID` made, and
-- `wrote` says whether the job's file could be written; `disk` is the directory of jobs.
pub mod Logs
pub mod Files
pub mod Restart
pub mod Keeping
mod Tests
use native_ops.Base.{
  ℕ, zero, suc, ◌+◌, ◌*◌, String, codes, Bool, true, false, not, ◌&&◌, ◌||◌, Option, none, some,
  List, [], ◌∷◌, ◌++◌, map, ltb, leb, ◌==◌, str_eq, if◌then◌else◌, Result, ok, err, length, drop,
  all,
}
use native_ops.Base.Dict.{Dict, lookup, insert, values}
use native_ops.Base.Sort.{sort_desc}
use native_ops.Base.Prune.{prune_map, drop_old}

pub data JobStatus : Type 0 where
  queued running succeeded failed interrupted : JobStatus

pub record Job : Type 0 where
  pub id : String
  pub kind : String
  pub status : JobStatus
  pub actor : String
  pub sha : String
  pub service : String
  pub plan_hash : String
  pub created : ℕ
  pub started : Option ℕ
  pub finished : Option ℕ
  pub error : String
  pub result : String
  pub log : List ℕ
  pub log_truncated : Bool
  pub position : ℕ
  pub next : String

-- `validJobID`: j-<9 to 12 digits>-<8 lowercase hexadecimal digits>
abbrev is_digit : ℕ → Bool
is_digit c = leb b'0' c && leb c b'9'

abbrev is_hex : ℕ → Bool
is_hex c = is_digit c || (leb b'a' c && leb c b'f')

-- the rest of the pattern, after `n` digits
id_tail : ℕ → List ℕ → Bool
id_tail n [] = false
id_tail n (c ∷ cs) =
    let rest = id_tail (n + 1) cs in
    if is_digit c
    then rest
    else (leb 9 n && leb n 12) && (c == b'-' && ((length cs == 8) && all is_hex cs))

id_head : List ℕ → Bool
unfolding id_tail
id_head (a ∷ b ∷ cs) = (a == b'j' && b == b'-') && id_tail 0 cs
id_head _ = false

unfoldable pub valid_job_id : String → Bool
unfolding id_head
valid_job_id s = id_head (codes s)

abbrev pub max_job_log_bytes : ℕ
max_job_log_bytes = 256 * 1024

abbrev pub keep_jobs : ℕ
keep_jobs = 200

pub record Jobs : Type 0 where
  pub jobs : Dict Job
  pub disk : Dict Job

abbrev pub pending : Job → Bool
pending j = elim j.status [ queued ↦ true | running ↦ true | _ ↦ false ]

unfoldable pub persist : Job → Bool → Jobs → Jobs
persist job wrote j = if wrote then record j { disk = insert job.id job j.disk } else j

unfoldable pub prune : Jobs → Jobs
prune j = record {
  jobs = prune_map (λ x. x.id) pending (λ x. x.created) keep_jobs j.jobs;
  disk =
      if leb (length j.jobs) keep_jobs
      then j.disk
      else drop_old (λ x. x.id) pending
          (drop keep_jobs (sort_desc (λ x. x.created) (values j.jobs))) j.disk;
}

abbrev pub not_started : String
not_started = "the daemon stopped before this job's turn came, so nothing was done. Run it again."

abbrev pub part_way : String
part_way =
    "the daemon stopped while this was running; the host may be part-way through it. Run the apply again: it converges and is safe to repeat."

-- a `.json` file of the directory: its name without the extension, and the job that it decodes to
abbrev pub JobFile : Type 0
JobFile = String × Option Job

-- what a job that the previous daemon left is now
unfoldable pub reopen : ℕ → Job → Job
reopen now job = elim job.status [
  | running ↦ record job { status = interrupted; finished = some now; error = part_way }
  | queued ↦ record job { status = interrupted; finished = some now; error = not_started }
  | _ ↦ job
]

-- `wrote` says of each file whether its new text could be written
unfoldable pub load_file : ℕ → Bool → JobFile → Jobs → Jobs
unfolding reopen valid_job_id persist
load_file now wrote (name, none) j = j
load_file now wrote (name, some job) j =
    if valid_job_id name && str_eq job.id name
    then (let job' = reopen now job in
        let k = if pending job then persist job' wrote j else j in
        record k { jobs = insert job.id job' k.jobs })
    else j

unfoldable pub load_all : ℕ → List (JobFile × Bool) → Jobs → Jobs
load_all now [] j = j
load_all now ((f, wrote) ∷ fs) j = load_all now fs (load_file now wrote f j)

unfoldable pub open_jobs : ℕ → List (JobFile × Bool) → Dict Job → Jobs
unfolding load_all load_file prune
open_jobs now files disk = prune (load_all now files (record { jobs = []; disk = disk }))

unfoldable pub new_job : JobStatus → String → String → String → String → String → String → ℕ → Job
new_job status id kind actor sha service plan_hash now = record {
  id = id;
  kind = kind;
  status = status;
  actor = actor;
  sha = sha;
  service = service;
  plan_hash = plan_hash;
  created = now;
  started = elim status [ running ↦ some now | _ ↦ none ];
  finished = none;
  error = "";
  result = "";
  log = [];
  log_truncated = false;
  position = 0;
  next = "";
}

-- `create` on the job made by `new_job`: it is recorded only if its file can be written
unfoldable pub create : Job → Bool → Jobs → Jobs × Option Job
unfolding persist prune
create job wrote j =
    if wrote
    then (let k = persist job true j in
        (prune (record k { jobs = insert job.id job k.jobs }), some job))
    else (j, none)

unfoldable pub create_queued :
    String → String → String → String → String → String → ℕ → Bool → Jobs → Jobs × Option Job
unfolding create new_job
create_queued id kind actor sha service plan_hash now wrote j =
    create (new_job queued id kind actor sha service plan_hash now) wrote j

unfoldable pub create_kind :
    String → String → String → String → String → String → ℕ → Bool → Jobs → Jobs × Option Job
unfolding create new_job
create_kind id kind actor sha service plan_hash now wrote j =
    create (new_job running id kind actor sha service plan_hash now) wrote j

-- `update`: a change to a job that is there, saved if it can be
unfoldable pub update : String → (Job → Job) → Bool → Jobs → Jobs
unfolding persist
update id change wrote j = elim (lookup id j.jobs) [
  | none ↦ j
  | some job ↦
      let k = persist (change job) wrote j in record k { jobs = insert id (change job) k.jobs }
]

abbrev pub started_job : ℕ → Job → Job
started_job now job = record job { status = running; started = some now }

abbrev pub interrupted_job : ℕ → String → Job → Job
interrupted_job now reason job = record job {
  status = interrupted;
  finished = some now;
  error = reason;
}

-- the error of a job's work is the text of a Go error, or none
abbrev pub finished_job : ℕ → Option String → Job → Job
finished_job now outcome job = elim outcome [
  | none ↦ record job { finished = some now; status = succeeded }
  | some e ↦ record job { finished = some now; status = failed; error = e }
]

unfoldable pub start : String → ℕ → Bool → Jobs → Jobs
unfolding update
start id now wrote j = update id (started_job now) wrote j

unfoldable pub interrupt : String → String → ℕ → Bool → Jobs → Jobs
unfolding update
interrupt id reason now wrote j = update id (interrupted_job now reason) wrote j

unfoldable pub finish : String → Option String → ℕ → Bool → Jobs → Jobs
unfolding update
finish id outcome now wrote j = update id (finished_job now outcome) wrote j

-- `strings.TrimRight(s, "\n")`
unfoldable pub trim_newlines : List ℕ → List ℕ
trim_newlines [] = []
trim_newlines (c ∷ cs) =
    let rest = trim_newlines cs in
    elim rest [ [] ↦ if c == b'\n' then [] else c ∷ [] | d ∷ ds ↦ c ∷ d ∷ ds ]

abbrev pub truncated_note : List ℕ
truncated_note = codes "... log truncated ...\n"

-- `stamp` is the formatted time, `text` the formatted message
unfoldable pub log_line : List ℕ → List ℕ → List ℕ
unfolding trim_newlines
log_line stamp text = stamp ++ trim_newlines text ++ b'\n' ∷ []

unfoldable pub logged : List ℕ → Job → Job
logged line job =
    if ltb max_job_log_bytes (length job.log + length line)
    then record job { log_truncated = true; log = job.log ++ truncated_note }
    else record job { log = job.log ++ line }

unfoldable pub logf : String → List ℕ → List ℕ → Bool → Jobs → Jobs
unfolding logged log_line persist
logf id stamp text wrote j = elim (lookup id j.jobs) [
  | none ↦ j
  | some job ↦
      if job.log_truncated
      then j
      else (let job' = logged (log_line stamp text) job in
          let k = persist job' wrote j in record k { jobs = insert id job' k.jobs })
]

unfoldable pub get : String → Jobs → Option Job
get id j = lookup id j.jobs

unfoldable pub without_log : Job → Job
without_log job = record job { log = [] }

unfoldable pub list : Jobs → List Job
unfolding without_log
list j = sort_desc (λ x. x.created) (map without_log (values j.jobs))

-- the loop of `Running`
first_running : List Job → Option Job
unfolding without_log
first_running [] = none
first_running (job ∷ rest) = elim job.status [
  | running ↦ some (without_log job)
  | _ ↦ first_running rest
]

unfoldable pub running_job : Jobs → Option Job
unfolding first_running
running_job j = first_running (values j.jobs)
