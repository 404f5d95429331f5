-- ===== src/Server/Deploy/Ended.antt =====
-- A deploy as a job of the daemon, from its turn on (startDeploy of pkg/server/deploy.go, and launch of
-- pkg/server/apply.go).
use native_ops.Base.{
  ℕ, ◌≡◌, ◌⊎◌, inl, inr, refl, arith, String, Bool, true, not, Option, some, List, [], ◌∷◌, ◌++◌,
  str_eq, ok, eq_refl, codes, str_take, Option-cases, Bool-cases, Result-cases, ◌∙◌, ap, sym,
  append-nil,
}
use native_ops.Base.Dict.{lookup}
use native_ops.Queue
use native_ops.Queue.Threads
use native_ops.Plans
use native_ops.Plans.{PlanRecord, PlanUse}
use native_ops.Jobs.{Job}
use native_ops.Jobs.Keeping.{lookup-update}
use native_ops.Fleet.{FleetPlan, exit_status, is_blocked, is_pending}
use native_ops.Server.{
  Server, Io, Event, JobSpec, work_ran, cleaned_up, job_ended, host_released, audited, begun,
  run_job,
}
use native_ops.Server.Launch.{Over, Held, status_of, logf-Held, begun-Held, run_job-ends}
use native_ops.Server.Deploy.{
  World, say, amend, with_sha, with_result, with_plan_hash, tag_line, by_tag, deploy_seen,
  deploy_planned, deploy_work, deploy_job,
}
use native_ops.Server.Deploy.Applied.{applied_in, deploy_work-applies, applied_in_append}

-- the line and the host are as they were, and the job is in the store if it was
abbrev Kept : String → Server → Server → Type 0
Kept id s s' = (s'.queue ≡ s.queue) × (Held id s.jobs → Held id s'.jobs)

say-Kept :
    (io : Io) (stamp : List ℕ) (id : String) (text : List ℕ) (s s' : Server)
    → Kept id s s'
    → Kept id s (say io stamp id text s')
say-Kept io stamp id text s s' k = (k.0, λ h. logf-Held id stamp text io.logged s'.jobs (k.1 h))

amend-Kept :
    (io : Io) (id : String) (change : Job → Job) (s s' : Server)
    → Kept id s s'
    → Kept id s (amend io id change s')
amend-Kept io id change s s' k = (
  k.0,
  λ h.
      let (x, e) = k.1 h in
      (change x, ground (arith, e, eq_refl id, lookup-update id id change io.ended s'.jobs)),
)

begun_lem :
    (io : Io) (id : String) (granted : Bool) (spec : JobSpec) (stamp waited : List ℕ) (s : Server)
    → ((begun io id granted spec stamp waited s).queue ≡ s.queue)
      × ((begun io id granted spec stamp waited s).trace ≡ s.trace ++ work_ran id ∷ [])
unfolding begun
begun_lem io id granted spec stamp waited s = (refl, refl)

-- events that apply nothing
abbrev Quiet : List Event → Type 0
Quiet es = applied_in es ≡ []

applied_in-Quiet : (xs ys : List Event) → Quiet ys → applied_in (xs ++ ys) ≡ applied_in xs
applied_in-Quiet xs ys q =
    applied_in_append xs ys ∙ (ap (λ t. applied_in xs ++ t) q ∙ append-nil (applied_in xs))

module _ (hash_of render : FleetPlan → String) (io : Io) (stamp : List ℕ) (id tag actor : String)
    (w : World) where
  planned-Kept :
      (sha : String) (fp : FleetPlan) (s0 s : Server)
      → Kept id s0 s
      → Kept id s0 (deploy_planned hash_of render io stamp id tag actor sha w fp s).0
  unfolding deploy_planned
  planned-Kept sha fp s0 s k =
      let hash = hash_of fp in
      let seen = record s {
        plans =
            (Plans.record_plan (deploy_seen hash_of render actor sha fp) io.now io.begun s.plans).0;
      } in
      let s1 = amend io id (with_plan_hash hash) seen in
      let k1 : Kept id s0 s1 = amend-Kept io id (with_plan_hash hash) s0 seen k in
      let same_as = codes "nothing to change: the host already matches " ++ codes tag in
      let text = codes "plan " ++ codes (str_take 12 hash) ++ codes ":\n" ++ codes (render fp) in
      let s2 = say io stamp id text s1 in
      let k2 : Kept id s0 s2 = say-Kept io stamp id text s0 s1 k1 in
      elim (Bool-cases (is_blocked fp)) [
        | inl blocked ↦ rw (blocked, deploy_planned) k2
        | inr free ↦ elim (Bool-cases (is_pending fp)) [
          | inr settled ↦
              rw (free, settled, deploy_planned)
                (amend-Kept io id (with_result "no_changes") s0 (say io stamp id same_as s2)
                  (say-Kept io stamp id same_as s0 s2 k2))
          | inl changes ↦
              elim (Result-cases
                (Plans.use_for_deploy hash (by_tag hash_of render tag sha) id io.now io.used
                  s2.plans).1) [
                    | inl (e, bad) ↦ rw (free, changes, bad, deploy_planned) k2
                    | inr (r, good) ↦ elim (Option-cases w.applied) [
                      | inr (e, failed) ↦ rw (free, changes, good, failed, deploy_planned) k2
                      | inl done ↦
                          rw (free, changes, good, done, deploy_planned)
                            (amend-Kept io id (with_result "applied") s0 s2 k2)
                    ]
                  ]
        ]
      ]

  work-Kept : (s : Server) → Kept id s (deploy_work hash_of render io stamp id tag actor w s).0
  unfolding deploy_work
  work-Kept s = elim (Result-cases w.resolved) [
    | inl (e, h) ↦ rw (h, deploy_work) (refl, λ x. x)
    | inr (found, h) ↦
        let s1 =
          say io stamp id (tag_line w tag found.0 found.1) (amend io id (with_sha found.0) s) in
        let k1 : Kept id s s1 =
          say-Kept io stamp id (tag_line w tag found.0 found.1) s (amend io id (with_sha found.0) s)
            (amend-Kept io id (with_sha found.0) s s (refl, λ x. x)) in
        elim (Option-cases w.fetched) [
          | inr (e, h1) ↦ rw (h, h1, deploy_work) k1
          | inl h1 ↦ elim (Result-cases w.pinned) [
            | inl (e, h2) ↦ rw (h, h1, h2, deploy_work) k1
            | inr (restarted, h2) ↦ elim (Bool-cases (str_eq restarted "")) [
              | inr moved ↦
                  rw (h, h1, h2, moved, deploy_work)
                    (amend-Kept io id (with_result restarted) s s1 k1)
              | inl stays ↦ elim (Option-cases w.schedule) [
                | inr (e, h3) ↦ rw (h, h1, h2, stays, h3, deploy_work) k1
                | inl h3 ↦ elim (Option-cases w.remotes) [
                  | inr (e, h4) ↦ rw (h, h1, h2, stays, h3, h4, deploy_work) k1
                  | inl h4 ↦ elim (Result-cases w.plan) [
                    | inl (e, h5) ↦ rw (h, h1, h2, stays, h3, h4, h5, deploy_work) k1
                    | inr (fp, h5) ↦
                        rw (h, h1, h2, stays, h3, h4, h5, deploy_work)
                          (planned-Kept found.0 fp s _ k1)
                  ]
                ]
              ]
            ]
          ]
        ]
  ]

  -- the error of the deploy's work in a state
  abbrev pub outcome_in : Server → Option String
  outcome_in s = (deploy_work hash_of render io stamp id tag actor w s).1

  -- A deploy that has the host, whose job is in the store, runs and ends: its job is succeeded or failed by
  -- how the deploy's work ended, as of now, and the host goes to the next in line. At most one plan was
  -- applied: none, or the plan that was made of the tag's commit, which was not blocked and has changes, and
  -- which the store says this job used up. And it was applied before the rest, which an observer sees last
  -- and in this order: the cleanup, the end of the job, the release of the host and the entry in the audit
  -- log. (What other callers do while the deploy runs is left out.)
  pub run_job-deploys :
      (t : ℕ) (spec : JobSpec) (waited : List ℕ) (s : Server) (x : Job) (rest : List Bool)
      → lookup id s.jobs.jobs ≡ some x
      → (s.queue.heap t).ch ≡ true ∷ rest
      → let q = Threads.receive t s.queue in
        let s1 = begun io id (s.queue.heap t).granted spec stamp waited (record s { queue = q }) in
        let outcome = outcome_in s1 in
        (s' : Server) × (run_job io id t spec stamp waited
            (deploy_job hash_of render io stamp id tag actor w)
            s
          ≡ some s')
        × Over (status_of outcome) io.now outcome (lookup id s'.jobs.jobs)
        × (s'.queue ≡ Queue.release q)
        × ((applied_in s'.trace ≡ applied_in s.trace)
            ⊎ ((fp : FleetPlan) × (r : PlanRecord) × (w.plan ≡ ok fp)
                × (exit_status fp ≡ 2)
                × (applied_in s'.trace ≡ applied_in s.trace ++ hash_of fp ∷ [])
                × (lookup (hash_of fp) s'.plans.by_id ≡ some r)
                × (r.used ≡ some (record { job = id; at = io.now }))))
        × ((before : List Event) × (applied_in before ≡ applied_in s'.trace)
            × (s'.trace
                ≡ before
                  ++ cleaned_up id
                    ∷ job_ended id
                    ∷ host_released id
                    ∷ audited id (not (Plans.is_some outcome))
                    ∷ []))
  run_job-deploys t spec waited s x rest here told =
      let q = Threads.receive t s.queue in
      let s0 : Server = record s { queue = q } in
      let s1 = begun io id (s.queue.heap t).granted spec stamp waited s0 in
      let after = deploy_work hash_of render io stamp id tag actor w s1 in
      let kept = work-Kept s1 in
      let held = begun-Held io id (s.queue.heap t).granted spec stamp waited s0 (x, here) in
      let (s', ran, trace, over, queue, plans) =
        run_job-ends io id t spec stamp waited (deploy_job hash_of render io stamp id tag actor w) s
          rest told (kept.1 held) in
      let done = deploy_work-applies hash_of render io stamp id tag actor w s1 in
      let (same_line, noted_so) = begun_lem io id (s.queue.heap t).granted spec stamp waited s0 in
      let end =
        cleaned_up id
        ∷ job_ended id
        ∷ host_released id
        ∷ audited id (not (Plans.is_some after.1))
        ∷ [] in
      let later : applied_in s'.trace ≡ applied_in after.0.trace =
        ap applied_in trace ∙ applied_in-Quiet after.0.trace end refl in
      let earlier : applied_in s1.trace ≡ applied_in s.trace =
        ap applied_in noted_so ∙ applied_in-Quiet s.trace (work_ran id ∷ []) refl in
      (
        s',
        ran,
        over,
        queue ∙ ap Queue.release (kept.0 ∙ same_line),
        elim done [
          | inl nothing ↦ inl (later ∙ (nothing ∙ earlier))
          | inr (fp, r, made, two, grown, there, used) ↦ inr (
            fp,
            r,
            made,
            two,
            later ∙ (grown ∙ ap (λ l. l ++ hash_of fp ∷ []) earlier),
            ap (λ p. lookup (hash_of fp) p.by_id) plans ∙ there,
            used,
          )
        ],
        (after.0.trace, sym later, trace),
      )
