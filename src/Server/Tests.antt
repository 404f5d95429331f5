-- ===== src/Server/Tests.antt =====
-- Runs of the requests that change the host, and the theorems at concrete inputs.
use native_ops.Base.{
  ◌<◌, String, ◌≡◌, refl, Bool, true, false, not, none, some, List, [], ◌∷◌, ◌++◌, ◌⊎◌, ok, arith,
}
use native_ops.Base.Dict.{lookup, insert}
use native_ops.Base.Prune.{prune_map}
use native_ops.Queue
use native_ops.Queue.Threads
use native_ops.Queue.{HostQueue}
use native_ops.Plans
use native_ops.Plans.{Approval, PlanRecord, PlanUse, Plans, valid_hash}
use native_ops.Jobs
use native_ops.Jobs.{
  Job, Jobs, JobStatus, queued, running, succeeded, interrupted, not_started, new_job,
}
use native_ops.Fleet.{FleetPlan, create, exit_status, is_blocked, is_pending}
use native_ops.Server.{
  Server, Io, Event, JobSpec, cleaned_up, job_ended, host_released, audited, begun, run_job, launch,
}
use native_ops.Server.Requests.{
  accepted, stale_plan, Upload, handle_apply, handle_plan_approve, change_time,
}
use native_ops.Server.Launch.{Over, status_of}
use native_ops.Server.Deploy.Ended.{outcome_in, run_job-deploys}
use native_ops.Server.Apply.{SameHost, handle_apply-refused, handle_apply-accepted}
use native_ops.Server.Deploy.{World, deploy_work, deploy_job}
use native_ops.Server.Deploy.Applied.{applied_in, deploy_work-applies}
use native_ops.Server.Stale.{stale_not_approved}

abbrev hash : String
hash = "00112233445566778899aabbccddeeff00112233445566778899aabbccddeeff"

abbrev hashed : FleetPlan → String
hashed fp = hash

abbrev shown_text : FleetPlan → String
shown_text fp = "1 change"

abbrev fp : FleetPlan
fp = record {
  services =
      record {
        service = "crew";
        action = create;
        changes = [];
        notes = [];
        blockers = [];
        host = "";
      }
      ∷ [];
  network = none;
  mesh = none;
  host = "h1";
}

abbrev reviewed : PlanRecord
reviewed = record {
  hash = hash;
  created = 100;
  last_seen = 100;
  actor = "ci";
  sha = "c0ffee";
  service = "";
  exit = 2;
  counts = [];
  text = "1 change";
  approval = some (record { by = "admin"; at = 200; expires = 3600 });
  used = none;
}

abbrev one_ticket : Bool → HostQueue
one_ticket told = record {
  busy = true;
  closed = false;
  waiting = [];
  heap = λ p. record { id = "j-1700000000-0123abcd"; granted = true; ch = told ∷ [] };
  next = 1;
}

abbrev free_queue : HostQueue
free_queue = record {
  busy = false;
  closed = false;
  waiting = [];
  heap = λ p. record { id = ""; granted = false; ch = [] };
  next = 0;
}

abbrev id : String
id = "j-1700000000-0123abcd"

abbrev job : JobStatus → Job
job status = new_job status id "apply" "ci" "c0ffee" "" hash 300

abbrev server : HostQueue → Jobs → Server
server q js = record {
  queue = q;
  jobs = js;
  plans = record { ttl = 3600; by_id = (hash, reviewed) ∷ []; disk = [] };
  trace = [];
}

abbrev io : Io
io = record {
  now = 300;
  made = true;
  begun = true;
  used = true;
  logged = true;
  ended = true;
  why = "";
}

abbrev no_jobs : Jobs
no_jobs = record { jobs = []; disk = [] }

abbrev one_job : Job → Jobs
one_job x = record { jobs = (id, x) ∷ []; disk = [] }

abbrev upload : Upload
upload = record { service = ""; sha = "c0ffee" }

abbrev spec : JobSpec
spec = record {
  kind = "apply";
  actor = "ci";
  sha = "c0ffee";
  subject = "";
  plan_hash = hash;
  what = "apply of plan";
  audit = "apply";
  prepare = some hash;
}

-- the upload was refused, so no job started
handle_apply-refused_example :
    SameHost free_queue
      (handle_apply hashed shown_text io id "ci" hash none
        (some fp)
        (server free_queue no_jobs)).0.queue
handle_apply-refused_example =
    handle_apply-refused hashed shown_text io id "ci" hash none (some fp)
      (server free_queue no_jobs) (unfold handle_apply valid_hash Queue.try_ticket in refl)

abbrev changed : Job
changed = record (job succeeded) { finished = some 150 }

stale_not_approved_example :
    handle_plan_approve io hash "admin" (server free_queue (one_job changed))
    ≡ (server free_queue (one_job changed), stale_plan)
stale_not_approved_example =
    stale_not_approved io hash "admin" id (server free_queue (one_job changed)) reviewed changed 150
      (unfold valid_hash in refl) (unfold lookup in refl) refl refl (unfold lookup in refl)
      (unfold change_time new_job in refl) (omega arith)

applied :
    (handle_apply hashed shown_text io id "ci" hash
      (some upload)
      (some fp)
      (server free_queue no_jobs)).1
    ≡ accepted (some (job running))
unfolding handle_apply valid_hash Queue.try_ticket is_blocked is_pending Plans.check lookup
    Plans.record_plan Plans.prune prune_map insert launch Jobs.create_queued Plans.consume
    Queue.name Jobs.get Jobs.start
applied = refl

handle_apply-accepted_example :
    (f : FleetPlan) × (r : PlanRecord) × (a : Approval) × (r' : PlanRecord) × (some fp ≡ some f)
    × (hashed f ≡ hash)
    × (exit_status f ≡ 2)
    × ((false ≡ false) × (false ≡ false) × (free_queue.waiting ≡ []))
    × (lookup hash ((hash, reviewed) ∷ []) ≡ some r)
    × ((r.approval ≡ some a) × (r.used ≡ none) × (300 < a.expires))
    × (lookup hash
          (handle_apply hashed shown_text io id "ci" hash
            (some upload)
            (some fp)
            (server free_queue no_jobs)).0.plans.by_id
        ≡ some r')
    × (r'.used ≡ some (record { job = id; at = 300 }))
    × ((handle_apply hashed shown_text io id "ci" hash
          (some upload)
          (some fp)
          (server free_queue no_jobs)).0.queue.busy
        ≡ true)
handle_apply-accepted_example =
    handle_apply-accepted hashed shown_text io id "ci" hash (some upload) (some fp)
      (server free_queue no_jobs) (some (job running)) applied

abbrev world : World
world = record {
  resolved = ok ("c0ffee", "deploy-*");
  fetched = none;
  pinned = ok "";
  schedule = none;
  remotes = none;
  plan = ok fp;
  applied = none;
  quoted = λ t. t;
}

abbrev deployed : Server
deployed =
    (deploy_work hashed shown_text io [] id "deploy-1" "ci" world
      (server free_queue (one_job (job running)))).0

-- the plan was applied, whether or not it had an approval before
one_applied : applied_in deployed.trace ≡ hash ∷ []
unfolding deploy_work is_blocked is_pending Plans.use_for_deploy lookup Plans.record_plan
    Plans.prune prune_map insert
one_applied = refl

deploy_work-applies_example :
    (applied_in deployed.trace ≡ [])
    ⊎ ((f : FleetPlan) × (r : PlanRecord) × (world.plan ≡ ok f)
        × (exit_status f ≡ 2)
        × (applied_in deployed.trace ≡ [] ++ hashed f ∷ [])
        × (lookup (hashed f) deployed.plans.by_id ≡ some r)
        × (r.used ≡ some (record { job = id; at = 300 })))
deploy_work-applies_example =
    deploy_work-applies hashed shown_text io [] id "deploy-1" "ci" world
      (server free_queue (one_job (job running)))

abbrev waits : Server
waits = server (one_ticket true) (one_job (job running))

run_job-deploys_example :
    let q = Threads.receive 0 waits.queue in
    let s1 = begun io id true spec [] [] (record waits { queue = q }) in
    let outcome = outcome_in hashed shown_text io [] id "deploy-1" "ci" world s1 in
    (s' : Server) × (run_job io id 0 spec [] []
        (deploy_job hashed shown_text io [] id "deploy-1" "ci" world)
        waits
      ≡ some s')
    × Over (status_of outcome) 300 outcome (lookup id s'.jobs.jobs)
    × (s'.queue ≡ Queue.release q)
    × ((applied_in s'.trace ≡ [])
        ⊎ ((f : FleetPlan) × (r : PlanRecord) × (world.plan ≡ ok f)
            × (exit_status f ≡ 2)
            × (applied_in s'.trace ≡ [] ++ hashed f ∷ [])
            × (lookup (hashed f) s'.plans.by_id ≡ some r)
            × (r.used ≡ some (record { job = id; at = 300 }))))
    × ((before : List Event) × (applied_in before ≡ applied_in s'.trace)
        × (s'.trace
            ≡ before
              ++ cleaned_up id
                ∷ job_ended id
                ∷ host_released id
                ∷ audited id (not (Plans.is_some outcome))
                ∷ []))
run_job-deploys_example =
    run_job-deploys hashed shown_text io [] id "deploy-1" "ci" world 0 spec [] waits (job running)
      [] (unfold lookup in refl) refl
