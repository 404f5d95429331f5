-- ===== src/Server/Deploy.antt =====
-- A deploy: the job that plans and applies the commit of a protected tag (startDeploy of
-- pkg/server/deploy.go).
pub mod Applied
pub mod Ended
use native_ops.Base.{
  ℕ, ◌≡◌, ◌⊎◌, inl, inr, refl, arith, String, codes, Bool, true, false, not, Option, none, some,
  List, [], ◌∷◌, ◌++◌, map, str_eq, str_append, str_take, if◌then◌else◌, Result, ok, err, eq_refl,
  eq_iff, Option-cases, Bool-cases, Result-cases, ◌∙◌,
}
use native_ops.Base.Dict.{lookup, insert, lookup-insert}
use native_ops.Plans
use native_ops.Plans.{PlanRecord, PlanUse, PlanSeen}
use native_ops.Jobs
use native_ops.Jobs.{Job}
use native_ops.Fleet.{FleetPlan, exit_status, counts, is_blocked, is_pending}
use native_ops.Server.{
  Server, Io, Event, followed, plan_applied, noted, plan_error_text, Work, returned,
}

-- what the world answers: the tag's commit and the rule that protects it; whether the tree could be
-- fetched; what following the daemon's pin came to ("" if the daemon stays); the errors of the two other
-- things to follow; the plan; the error of applying it; and `quoted`, the %q of a text
pub record World : Type 0 where
  pub resolved : Result String (String × String)
  pub fetched : Option String
  pub pinned : Result String String
  pub schedule : Option String
  pub remotes : Option String
  pub plan : Result String FleetPlan
  pub applied : Option String
  pub quoted : String → String

abbrev pub with_result : String → Job → Job
with_result r job = record job { result = r }

abbrev pub with_sha : String → Job → Job
with_sha sha job = record job { sha = sha }

abbrev pub with_plan_hash : String → Job → Job
with_plan_hash h job = record job { plan_hash = h }

-- a line of the job's log, and a change to the job
abbrev pub say : Io → List ℕ → String → List ℕ → Server → Server
say io stamp id text s = record s { jobs = Jobs.logf id stamp text io.logged s.jobs }

abbrev pub amend : Io → String → (Job → Job) → Server → Server
amend io id change s = record s { jobs = Jobs.update id change io.ended s.jobs }

abbrev pub tag_line : World → String → String → String → List ℕ
tag_line w tag sha rule =
    codes "tag "
    ++ codes tag
    ++ codes " is commit "
    ++ codes (str_take 12 sha)
    ++ codes ", protected by the rule "
    ++ codes (w.quoted rule)

module _ (hash_of render : FleetPlan → String) where
  unfoldable pub deploy_seen : String → String → FleetPlan → PlanSeen
  deploy_seen actor sha fp = record {
    hash = hash_of fp;
    actor = actor;
    sha = sha;
    service = "";
    exit = exit_status fp;
    counts = counts fp;
    text = render fp;
  }

  abbrev pub by_tag : String → String → String
  by_tag tag sha =
      str_append "tag " (str_append tag (str_append " (" (str_append (str_take 12 sha) ")")))

  -- from the plan on: what is blocked or settled is not applied, and what is applied is recorded first
  unfoldable pub deploy_planned :
      Io
      → List ℕ
      → String
      → String
      → String
      → String
      → World
      → FleetPlan
      → Server
      → Server × Option String
  unfolding deploy_seen
  deploy_planned io stamp id tag actor sha w fp s =
      let hash = hash_of fp in
      let s1 = amend io id (with_plan_hash hash) (record s {
        plans = (Plans.record_plan (deploy_seen actor sha fp) io.now io.begun s.plans).0;
      }) in
      let text = codes "plan " ++ codes (str_take 12 hash) ++ codes ":\n" ++ codes (render fp) in
      let s2 = say io stamp id text s1 in
      if is_blocked fp
      then (s2, some "the plan is blocked: apply would fail, so nothing was changed")
      else if not (is_pending fp)
      then (
        amend io id (with_result "no_changes") (
            say io stamp id (codes "nothing to change: the host already matches " ++ codes tag) s2),
        none,
      )
      else (let (plans, used) =
            Plans.use_for_deploy hash (by_tag tag sha) id io.now io.used s2.plans in
          let s3 = record s2 { plans = plans } in
          elim used [
            | err e ↦ (s3, some (str_append "record the deploy: " (plan_error_text io.why e)))
            | ok r ↦
                let s4 = noted (plan_applied hash) s3 in
                elim w.applied [
                  | some e ↦ (s4, some e)
                  | none ↦ (amend io id (with_result "applied") s4, none)
                ]
          ])

  -- the work of the job: its new state, and its error
  unfoldable pub deploy_work :
      Io → List ℕ → String → String → String → World → Server → Server × Option String
  unfolding deploy_planned
  deploy_work io stamp id tag actor w s = elim w.resolved [
    | err e ↦ (s, some e)
    | ok found ↦
        let sha = found.0 in
        let s1 = say io stamp id (tag_line w tag sha found.1) (amend io id (with_sha sha) s) in
        elim w.fetched [
          | some e ↦ (s1, some e)
          | none ↦
              let s2 = noted (followed "pin") (noted (followed "recipe") s1) in
              elim w.pinned [
                | err e ↦ (s2, some e)
                | ok restarted ↦
                    if not (str_eq restarted "")
                    then (amend io id (with_result restarted) s2, none)
                    else (let s3 = noted (followed "backup schedule") s2 in
                        elim w.schedule [
                          | some e ↦ (s3, some e)
                          | none ↦
                              let s4 = noted (followed "host remotes") s3 in
                              elim w.remotes [
                                | some e ↦ (s4, some e)
                                | none ↦ elim w.plan [
                                  | err e ↦ (
                                    s4,
                                    some (
                                        str_append "plan commit "
                                          (str_append (str_take 12 sha) (str_append ": " e))),
                                  )
                                  | ok fp ↦ deploy_planned io stamp id tag actor sha w fp s4
                                ]
                              ]
                        ])
              ]
        ]
  ]

  -- the work of the deploy as `launch` runs it
  abbrev pub deploy_job : Io → List ℕ → String → String → String → World → Server → Server × Work
  deploy_job io stamp id tag actor w s =
      let (s', outcome) = deploy_work io stamp id tag actor w s in (s', returned outcome)
