-- ===== src/Server/Stale.antt =====
-- Approving a plan after the host changed (`handlePlanApprove` and `lastHostChange` of pkg/server).
use native_ops.Base.{
  ℕ, ◌≤◌, ◌<◌, String, ◌≡◌, inl, inr, ap, true, none, some, List, [], ◌∷◌, map, arith, Option-cases,
  ltb, if◌then◌else◌, lt→ltb,
}
use native_ops.Base.Dict.{lookup, values}
use native_ops.Base.Sort.{Member, sort_desc-Member}
use native_ops.Base.Prune.{lookup-Member}
use native_ops.Plans
use native_ops.Plans.{PlanRecord, approved, pending, expired, stale, valid_hash, granted}
use native_ops.Jobs
use native_ops.Jobs.{Job, Jobs, without_log}
use native_ops.Jobs.Keeping.{id_of, created_at}
use native_ops.Server.{Server, Io}
use native_ops.Server.Requests.{
  stale_plan, change_time, latest, last_host_change, view_with, handle_plan_approve,
}

latest-ge-last : (js : List Job) (last : ℕ) → last ≤ latest js last
unfolding latest
latest-ge-last [] last = omega arith
latest-ge-last (j ∷ js) last = elim (Option-cases (change_time j)) [
  | inl e ↦ let ih = latest-ge-last js last in ground arith
  | inr (at, e) ↦
      let next = if ltb last at then at else last in let ih = latest-ge-last js next in ground arith
]

latest-ge :
    (j : Job) (at : ℕ) (js : List Job) (last : ℕ)
    → Member j js
    → change_time j ≡ some at
    → at ≤ latest js last
unfolding latest
latest-ge j at [] last h e = absurd h
latest-ge j at (x ∷ js) last (inl same) e =
    let ex : change_time x ≡ some at = cc (ap change_time same, e) in
    let ih = latest-ge-last js (if ltb last at then at else last) in ground arith
latest-ge j at (x ∷ js) last (inr h) e =
    latest-ge j at js
      (elim (change_time x) [ none ↦ last | some t ↦ if ltb last t then t else last ]) h e

Member-map : (j : Job) (js : List Job) → Member j js → Member (without_log j) (map without_log js)
Member-map j [] h = absurd h
Member-map j (x ∷ js) (inl e) = inl (ap without_log e)
Member-map j (x ∷ js) (inr h) = inr (Member-map j js h)

last_host_change-ge :
    (k : String) (j : Job) (at : ℕ) (s : Server)
    → lookup k s.jobs.jobs ≡ some j
    → change_time j ≡ some at
    → at ≤ last_host_change s
unfolding last_host_change Jobs.list
last_host_change-ge k j at s here e =
    latest-ge (without_log j) at (Jobs.list s.jobs) 0
      (sort_desc-Member created_at (without_log j) (map without_log (values s.jobs.jobs))
        (Member-map j (values s.jobs.jobs) (lookup-Member id_of k j s.jobs.jobs here)))
      (unfold change_time without_log in e)

-- A plan with changes that no apply has used, and that was last made before a job ended that changed
-- the host, cannot be approved: the request is answered that the plan is stale, and nothing changes.
pub stale_not_approved :
    (io : Io) (hash by k : String) (s : Server) (r : PlanRecord) (j : Job) (at : ℕ)
    → valid_hash hash ≡ true
    → lookup hash s.plans.by_id ≡ some r
    → r.exit ≡ 2
    → r.used ≡ none
    → lookup k s.jobs.jobs ≡ some j
    → change_time j ≡ some at
    → r.last_seen < at
    → handle_plan_approve io hash by s ≡ (s, stale_plan)
unfolding handle_plan_approve view_with Plans.state Plans.get
stale_not_approved io hash by k s r j at v here two unused job change old =
    let late = last_host_change-ge k j at s job change in
    let past = lt→ltb r.last_seen (last_host_change s) (omega arith) in ground (arith, past)
