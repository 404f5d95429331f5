-- ===== src/Server/Deploy/Applied.antt =====
-- What a deploy applies (startDeploy of pkg/server/deploy.go).
use native_ops.Base.{
  ℕ, ◌≡◌, ◌⊎◌, inl, inr, refl, arith, String, Bool, some, List, [], ◌∷◌, ◌++◌, str_eq, Result, ok,
  err, eq_refl, Option-cases, Bool-cases, Result-cases, ◌∙◌,
}
use native_ops.Base.Dict.{lookup, lookup-insert}
use native_ops.Plans
use native_ops.Plans.{PlanRecord, PlanUse, PlanSeen}
use native_ops.Fleet.{FleetPlan, exit_status, is_blocked, is_pending}
use native_ops.Server.{Server, Io, Event, followed, plan_applied}
use native_ops.Server.Deploy.{
  World, say, amend, with_sha, tag_line, by_tag, deploy_seen, deploy_planned, deploy_work,
}

-- the plans that the events say were applied
abbrev pub applied_in : List Event → List String
applied_in [] = []
applied_in (plan_applied h ∷ es) = h ∷ applied_in es
applied_in (_ ∷ es) = applied_in es

pub applied_in_append :
    (xs ys : List Event) → applied_in (xs ++ ys) ≡ applied_in xs ++ applied_in ys
applied_in_append [] ys = refl
applied_in_append (e ∷ es) ys = ground (arith, applied_in_append es ys)

quiet : (name : String) (xs : List Event) → applied_in (xs ++ followed name ∷ []) ≡ applied_in xs
quiet name [] = refl
quiet name (e ∷ es) = ground (arith, quiet name es)

used_for_deploy :
    (hash by job : String) (now : ℕ) (wrote : Bool) (p : Plans.Plans) (r : PlanRecord)
    → (Plans.use_for_deploy hash by job now wrote p).1 ≡ ok r
    → (lookup hash (Plans.use_for_deploy hash by job now wrote p).0.by_id ≡ some r)
      × (r.used ≡ some (record { job = job; at = now }))
unfolding Plans.use_for_deploy Plans.persist
used_for_deploy hash by job now wrote p r h = elim (Option-cases (lookup hash p.by_id)) [
  | inl e ↦ absurd (ground arith)
  | inr (old, e) ↦
      let spent = Plans.used_up job now (Plans.granted by now 0 old) in
      let is : spent ≡ r = ground arith in
      rw (← is) (ground (arith, eq_refl hash, lookup-insert hash hash spent p.by_id), refl)
]

module _ (hash_of render : FleetPlan → String) (io : Io) (stamp : List ℕ) (id tag actor : String)
    (w : World) where
  -- nothing was applied, or this plan was, which is not blocked and has changes, and the store says that
  -- this job used it
  abbrev Outcome : FleetPlan → List Event → Server → Type 0
  Outcome fp before s' =
      (applied_in s'.trace ≡ applied_in before)
      ⊎ ((r : PlanRecord) × (exit_status fp ≡ 2)
          × (applied_in s'.trace ≡ applied_in before ++ hash_of fp ∷ [])
          × (lookup (hash_of fp) s'.plans.by_id ≡ some r)
          × (r.used ≡ some (record { job = id; at = io.now })))

  planned-Outcome :
      (sha : String) (fp : FleetPlan) (s : Server)
      → Outcome fp s.trace (deploy_planned hash_of render io stamp id tag actor sha w fp s).0
  unfolding deploy_planned
  planned-Outcome sha fp s = go (Plans.use_for_deploy (hash_of fp) by id io.now io.used p1).1 refl
    where
      p1 : Plans.Plans
      p1 = (Plans.record_plan (deploy_seen hash_of render actor sha fp) io.now io.begun s.plans).0

      by : String
      by = by_tag hash_of render tag sha

      go :
          (o : Result Plans.PlanError PlanRecord)
          → (Plans.use_for_deploy (hash_of fp) by id io.now io.used p1).1 ≡ o
          → Outcome fp s.trace (deploy_planned hash_of render io stamp id tag actor sha w fp s).0
      go (err e) h = inl (ground arith)
      go (ok r) h =
          let (here, used) = used_for_deploy (hash_of fp) by id io.now io.used p1 r h in
          let grown = applied_in_append s.trace (plan_applied (hash_of fp) ∷ []) in
          elim (Bool-cases (is_blocked fp)) [
            | inl blocked ↦ inl (ground arith)
            | inr free ↦ elim (Bool-cases (is_pending fp)) [
              | inr settled ↦ inl (ground arith)
              | inl changes ↦ inr (
                r,
                unfold exit_status in ground arith,
                ground (arith, grown),
                ground (arith, here),
                used,
              )
            ]
          ]

  -- the deploy as far as its plan
  before_plan :
      (s : Server)
      → (applied_in (deploy_work hash_of render io stamp id tag actor w s).0.trace
          ≡ applied_in s.trace)
        ⊎ ((fp : FleetPlan) × (sha : String) × (s4 : Server) × (w.plan ≡ ok fp)
            × (deploy_work hash_of render io stamp id tag actor w s
                ≡ deploy_planned hash_of render io stamp id tag actor sha w fp s4)
            × (applied_in s4.trace ≡ applied_in s.trace))
  unfolding deploy_work
  before_plan s = elim (Result-cases w.resolved) [
    | inl (e, h) ↦ inl (ground arith)
    | inr (found, h) ↦
        let told =
          say io stamp id (tag_line w tag found.0 found.1) (amend io id (with_sha found.0) s) in
        let t1 = s.trace ++ followed "recipe" ∷ [] in
        let t2 = t1 ++ followed "pin" ∷ [] in
        let t3 = t2 ++ followed "backup schedule" ∷ [] in
        let s4 : Server = record told { trace = t3 ++ followed "host remotes" ∷ [] } in
        let q1 : applied_in t1 ≡ applied_in s.trace = quiet "recipe" s.trace in
        let q2 : applied_in t2 ≡ applied_in s.trace = quiet "pin" t1 ∙ q1 in
        let q3 : applied_in t3 ≡ applied_in s.trace = quiet "backup schedule" t2 ∙ q2 in
        let q4 : applied_in (t3 ++ followed "host remotes" ∷ []) ≡ applied_in s.trace =
          quiet "host remotes" t3 ∙ q3 in
        elim (Option-cases w.fetched) [
          | inr (e, h1) ↦ inl (ground arith)
          | inl h1 ↦ elim (Result-cases w.pinned) [
            | inl (e, h2) ↦ inl (ground (arith, q2))
            | inr (restarted, h2) ↦ elim (Bool-cases (str_eq restarted "")) [
              | inr moved ↦ inl (ground (arith, q2))
              | inl stays ↦ elim (Option-cases w.schedule) [
                | inr (e, h3) ↦ inl (ground (arith, q3))
                | inl h3 ↦ elim (Option-cases w.remotes) [
                  | inr (e, h4) ↦ inl (ground (arith, q4))
                  | inl h4 ↦ elim (Result-cases w.plan) [
                    | inl (e, h5) ↦ inl (ground (arith, q4))
                    | inr (fp, h5) ↦ inr (fp, found.0, s4, h5, ground arith, q4)
                  ]
                ]
              ]
            ]
          ]
        ]
  ]

  -- A deploy applies at most one plan: none, or the plan that was made of the tag's commit, which is then
  -- not blocked and has changes, and which the store already says this job used up.
  pub deploy_work-applies :
      (s : Server)
      → let s' = (deploy_work hash_of render io stamp id tag actor w s).0 in
        (applied_in s'.trace ≡ applied_in s.trace)
        ⊎ ((fp : FleetPlan) × (r : PlanRecord) × (w.plan ≡ ok fp)
            × (exit_status fp ≡ 2)
            × (applied_in s'.trace ≡ applied_in s.trace ++ hash_of fp ∷ [])
            × (lookup (hash_of fp) s'.plans.by_id ≡ some r)
            × (r.used ≡ some (record { job = id; at = io.now })))
  deploy_work-applies s = elim (before_plan s) [
    | inl nothing ↦ inl nothing
    | inr (fp, sha, s4, made, same, quiet_so_far) ↦ elim (planned-Outcome sha fp s4) [
      | inl nothing ↦ inl (cc (same, nothing, quiet_so_far))
      | inr (r, two, grown, here, used) ↦
          inr (fp, r, made, two, cc (same, grown, quiet_so_far), cc (same, here), used)
    ]
  ]
