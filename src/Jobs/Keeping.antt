-- ===== src/Jobs/Keeping.antt =====
-- Calls on the store of jobs, and the jobs it keeps (update, create and prune of pkg/server/jobs.go).
use native_ops.Base.{
  ℕ, ◌<◌, String, ◌≡◌, ◌⊎◌, refl, inl, inr, ◌∙◌, Bool, true, false, Option, none, some, List, [],
  ◌∷◌, arith, if◌then◌else◌, str_eq, eq_iff, Option-cases, Bool-cases,
}
use native_ops.Base.Dict.{lookup, insert, lookup-insert, insert-Unique, Unique, values}
use native_ops.Base.Sort.{count}
use native_ops.Base.Prune.{
  prune_map-lookup, prune_map-gone, prune_map-stays, prune_map-Unique, prune_map-Keyed, Keyed,
  lookup-Keyed, insert-Keyed, at_least, newer_than,
}
use native_ops.Jobs.{
  JobStatus, Job, Jobs, keep_jobs, pending, persist, prune, new_job, create, update, start,
  interrupt, finish, started_job, interrupted_job, finished_job, logf, logged, log_line,
}

abbrev pub id_of : Job → String
id_of x = x.id

abbrev pub created_at : Job → ℕ
created_at x = x.created

-- no identifier has two jobs, and each job stands under its own identifier
pub record IsWell (j : Jobs) : Type 0 where
  pub unique : Unique j.jobs
  pub keyed : Keyed id_of j.jobs

-- what a job's work and a resumed deploy write into a job (`update`, from deploy.go, migrate.go and pin.go)
pub data Detail : Type 0 where
  sha_is plan_hash_is result_is next_is : String → Detail

abbrev pub detailed : Detail → Job → Job
detailed (sha_is t) x = record x { sha = t }
detailed (plan_hash_is t) x = record x { plan_hash = t }
detailed (result_is t) x = record x { result = t }
detailed (next_is t) x = record x { next = t }

pub data JobCall : Type 0 where
  made : JobStatus → String → String → String → String → String → String → ℕ → Bool → JobCall
  got_host : String → ℕ → Bool → JobCall
  stopped : String → String → ℕ → Bool → JobCall
  ended : String → Option String → ℕ → Bool → JobCall
  wrote_line : String → List ℕ → List ℕ → Bool → JobCall
  amended : String → Detail → Bool → JobCall

unfoldable pub call : JobCall → Jobs → Jobs
call (made status id kind actor sha service plan now wrote) j =
    (create (new_job status id kind actor sha service plan now) wrote j).0
call (got_host id now wrote) j = start id now wrote j
call (stopped id reason now wrote) j = interrupt id reason now wrote j
call (ended id outcome now wrote) j = finish id outcome now wrote j
call (wrote_line id stamp text wrote) j = logf id stamp text wrote j
call (amended id d wrote) j = update id (detailed d) wrote j

unfoldable pub calls : List JobCall → Jobs → Jobs
calls [] j = j
calls (c ∷ cs) j = calls cs (call c j)

-- `update` as one equation: the job is changed in place, and the others are not touched
pub lookup-update :
    (id k : String) (change : Job → Job) (wrote : Bool) (j : Jobs)
    → lookup k (update id change wrote j).jobs ≡ (
        if str_eq id k
        then elim (lookup id j.jobs) [ none ↦ none | some job ↦ some (change job) ]
        else lookup k j.jobs)
unfolding update persist
lookup-update id k change wrote j = elim (Option-cases (lookup id j.jobs)) [
  | inl e ↦ ground (arith, eq_iff id k)
  | inr (job, e) ↦ ground (arith, eq_iff id k, lookup-insert id k (change job) j.jobs)
]

update-IsWell :
    (id : String) (change : Job → Job) (wrote : Bool) (j : Jobs)
    → ((x : Job) → (change x).id ≡ x.id)
    → IsWell j
    → IsWell (update id change wrote j)
unfolding update persist
update-IsWell id change wrote j same w = elim (Option-cases (lookup id j.jobs)) [
  | inl e ↦ ground arith
  | inr (job, e) ↦
      let name = same job ∙ lookup-Keyed id_of id job j.jobs w.keyed e in
      let u = insert-Unique id (change job) j.jobs w.unique in
      let k = insert-Keyed id_of id (change job) j.jobs name w.keyed in ground arith
]

prune-IsWell : (j : Jobs) → IsWell j → IsWell (prune j)
unfolding prune
prune-IsWell j w = record {
  unique = prune_map-Unique id_of pending created_at keep_jobs j.jobs w.unique;
  keyed = prune_map-Keyed id_of pending created_at keep_jobs j.jobs w.keyed;
}

create-IsWell : (job : Job) (wrote : Bool) (j : Jobs) → IsWell j → IsWell (create job wrote j).0
unfolding create persist
create-IsWell job false j w = w
create-IsWell job true j w = prune-IsWell _ (record {
  unique = insert-Unique job.id job j.jobs w.unique;
  keyed = insert-Keyed id_of job.id job j.jobs refl w.keyed;
})

pub logf-update :
    (id : String) (stamp text : List ℕ) (wrote : Bool) (j : Jobs)
    → (logf id stamp text wrote j ≡ j)
      ⊎ (logf id stamp text wrote j ≡ update id (logged (log_line stamp text)) wrote j)
unfolding logf update
logf-update id stamp text wrote j = elim (Option-cases (lookup id j.jobs)) [
  | inl e ↦ inl (ground arith)
  | inr (job, e) ↦ ground arith
]

pub call-IsWell : (c : JobCall) (j : Jobs) → IsWell j → IsWell (call c j)
unfolding call
call-IsWell (made status id kind actor sha service plan now wrote) j w =
    create-IsWell (new_job status id kind actor sha service plan now) wrote j w
call-IsWell (got_host id now wrote) j w =
    unfold start in update-IsWell id (started_job now) wrote j (λ x. refl) w
call-IsWell (stopped id reason now wrote) j w =
    unfold interrupt in update-IsWell id (interrupted_job now reason) wrote j (λ x. refl) w
call-IsWell (ended id none now wrote) j w =
    unfold finish in update-IsWell id (finished_job now none) wrote j (λ x. refl) w
call-IsWell (ended id (some e) now wrote) j w =
    unfold finish in update-IsWell id (finished_job now (some e)) wrote j (λ x. refl) w
call-IsWell (wrote_line id stamp text wrote) j w = elim (logf-update id stamp text wrote j) [
  | inl e ↦ rw e w
  | inr e ↦ rw e (
      update-IsWell id (logged (log_line stamp text)) wrote j (λ x. unfold logged in ground arith)
        w)
]
call-IsWell (amended id d wrote) j w = update-IsWell id (detailed d) wrote j (same_id d) w
  where
    same_id : (d : Detail) (x : Job) → (detailed d x).id ≡ x.id
    same_id (sha_is t) x = refl
    same_id (plan_hash_is t) x = refl
    same_id (result_is t) x = refl
    same_id (next_is t) x = refl

-- Whatever calls are made of a well-formed store of jobs, it stays well formed: no identifier has two
-- jobs, and each job stands under its own identifier.
pub job_calls-IsWell : (cs : List JobCall) (j : Jobs) → IsWell j → IsWell (calls cs j)
unfolding calls
job_calls-IsWell [] j w = w
job_calls-IsWell (c ∷ cs) j w = job_calls-IsWell cs (call c j) (call-IsWell c j w)

-- What pruning a well-formed store does to each job: it stays as it is, and then it is queued or
-- running or fewer than 200 jobs are newer; or it goes, and then it has ended and more than 200 jobs,
-- itself among them, are at least as new.
pub job_prune_exact :
    (k : String) (x : Job) (j : Jobs)
    → IsWell j
    → lookup k j.jobs ≡ some x
    → ((lookup k (prune j).jobs ≡ some x)
        × ((pending x ≡ true) ⊎ (count (newer_than created_at x) (values j.jobs) < 200)))
      ⊎ ((lookup k (prune j).jobs ≡ none)
          × (pending x ≡ false)
          × (200 < count (at_least created_at x) (values j.jobs)))
unfolding prune
job_prune_exact k x j w here = elim (prune_map-lookup id_of pending created_at keep_jobs k j.jobs) [
  | inl gone ↦
      let (free, old) =
        prune_map-gone id_of pending created_at keep_jobs k x j.jobs w.unique w.keyed here gone in
      inr (gone, free, old)
  | inr same ↦
      let stays = same ∙ here in
      inl (stays, prune_map-stays id_of pending created_at keep_jobs k x j.jobs w.keyed stays)
]

update_keeps :
    (id k : String) (change : Job → Job) (wrote : Bool) (j : Jobs) (x : Job)
    → lookup k j.jobs ≡ some x
    → (y : Job) × (lookup k (update id change wrote j).jobs ≡ some y) × ((id ≡ k) ⊎ (y ≡ x))
update_keeps id k change wrote j x e = elim (Bool-cases (str_eq id k)) [
  | inl same ↦
      let name = (eq_iff id k).0 same in
      (change x, ground (arith, lookup-update id k change wrote j), inl name)
  | inr other ↦ (x, ground (arith, lookup-update id k change wrote j), inr refl)
]

create_keeps :
    (job : Job) (wrote : Bool) (k : String) (j : Jobs) (x : Job)
    → IsWell j
    → pending job ≡ true
    → pending x ≡ true
    → lookup k j.jobs ≡ some x
    → (y : Job) × (lookup k (create job wrote j).0.jobs ≡ some y) × ((job.id ≡ k) ⊎ (y ≡ x))
unfolding create persist
create_keeps job false k j x w new old e = (x, e, inr refl)
create_keeps job true k j x w new old e = elim (Bool-cases (str_eq job.id k)) [
  | inl same ↦
      let name = (eq_iff job.id k).0 same in
      let here : lookup k (insert job.id job j.jobs) ≡ some job =
        ground (arith, lookup-insert job.id k job j.jobs) in
      (job, ground (arith, job_prune_exact k job added well here, new), inl name)
  | inr other ↦
      let here : lookup k (insert job.id job j.jobs) ≡ some x =
        ground (arith, lookup-insert job.id k job j.jobs) in
      (x, ground (arith, job_prune_exact k x added well here, old), inr refl)
]
  where
    added : Jobs
    added = record { jobs = insert job.id job j.jobs; disk = insert job.id job j.disk }

    well : IsWell added
    well = record {
      unique = insert-Unique job.id job j.jobs w.unique;
      keyed = insert-Keyed id_of job.id job j.jobs refl w.keyed;
    }

-- the identifier that a call is about
abbrev pub target : JobCall → String
target (made status id kind actor sha service plan now wrote) = id
target (got_host id now wrote) = id
target (stopped id reason now wrote) = id
target (ended id outcome now wrote) = id
target (wrote_line id stamp text wrote) = id
target (amended id d wrote) = id

-- a job is recorded queued or running
abbrev pub MadePending : JobCall → Type 0
MadePending (made status id kind actor sha service plan now wrote) =
    pending (new_job status id kind actor sha service plan now) ≡ true
MadePending _ = Unit

-- No call loses a job that is queued or running: it is still in a well-formed store after any call,
-- and unchanged if the call is about another job.
pub pending_never_lost :
    (c : JobCall) (k : String) (x : Job) (j : Jobs)
    → IsWell j
    → MadePending c
    → lookup k j.jobs ≡ some x
    → pending x ≡ true
    → (y : Job) × (lookup k (call c j).jobs ≡ some y) × ((target c ≡ k) ⊎ (y ≡ x))
unfolding call new_job
pending_never_lost (made status id kind actor sha service plan now wrote) k x j w new e old =
    create_keeps (new_job status id kind actor sha service plan now) wrote k j x w new old e
pending_never_lost (got_host id now wrote) k x j w _ e old =
    unfold start in update_keeps id k (started_job now) wrote j x e
pending_never_lost (stopped id reason now wrote) k x j w _ e old =
    unfold interrupt in update_keeps id k (interrupted_job now reason) wrote j x e
pending_never_lost (ended id outcome now wrote) k x j w _ e old =
    unfold finish in update_keeps id k (finished_job now outcome) wrote j x e
pending_never_lost (wrote_line id stamp text wrote) k x j w _ e old =
    elim (logf-update id stamp text wrote j) [
      | inl same ↦ (x, rw same e, inr refl)
      | inr same ↦ rw same (update_keeps id k (logged (log_line stamp text)) wrote j x e)
    ]
pending_never_lost (amended id d wrote) k x j w _ e old = update_keeps id k (detailed d) wrote j x e
