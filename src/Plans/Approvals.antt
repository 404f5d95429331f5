-- ===== src/Plans/Approvals.antt =====
-- Calls on the store of plans, and the approvals they give and use up (pkg/server/plans.go).
use native_ops.Base.{
  ℕ, ◌+◌, ◌≤◌, ◌<◌, String, ◌≡◌, ◌≢◌, ◌⊎◌, ◌↔◌, inl, inr, Bool, true, false, Option, none, some,
  List, [], ◌∷◌, arith, Result, ok, err, is_ok, eq_iff, eq_refl, ◌&&◌, not, str_eq, Option-cases,
}
use native_ops.Base.Dict.{lookup, lookup-insert}
use native_ops.Base.Prune.{prune_map-lookup}
use native_ops.Plans.{
  PlanRecord, Plans, PlanError, not_written, approval_used, PlanSeen, check, approve, revoke,
  consume, use_for_deploy, persist, record_plan, prune, seen_again, is_some, is_approved,
  keep_plans, granted, used_up, withdrawn,
}

pub data PlanCall : Type 0 where
  made : PlanSeen → ℕ → Bool → PlanCall
  approved_by : String → String → ℕ → Bool → PlanCall
  revoked : String → Bool → PlanCall
  consumed_by : String → String → ℕ → Bool → PlanCall
  deployed : String → String → String → ℕ → Bool → PlanCall

unfoldable pub call : PlanCall → Plans → Plans
call (made s now wrote) p = (record_plan s now wrote p).0
call (approved_by hash by now wrote) p = (approve hash by now wrote p).0
call (revoked hash wrote) p = (revoke hash wrote p).0
call (consumed_by hash job now wrote) p = (consume hash job now wrote p).0
call (deployed hash by job now wrote) p = (use_for_deploy hash by job now wrote p).0

unfoldable pub calls : List PlanCall → Plans → Plans
calls [] p = p
calls (c ∷ cs) p = calls cs (call c p)

-- the call went through: the record was changed, whether or not its file could be written
abbrev pub changed : Result PlanError PlanRecord → Bool
changed (ok _) = true
changed (err not_written) = true
changed (err _) = false

abbrev pub one_if : Bool → ℕ
one_if true = 1
one_if false = 0

-- the approvals of a hash that the calls give, and the applies that they let through
unfoldable pub approval_in : String → PlanCall → Plans → ℕ
approval_in h (approved_by hash by now wrote) p =
    one_if (str_eq hash h && changed (approve hash by now wrote p).1)
approval_in h _ p = 0

unfoldable pub use_in : String → PlanCall → Plans → ℕ
use_in h (consumed_by hash job now wrote) p =
    one_if (str_eq hash h && is_ok (consume hash job now wrote p).1)
use_in h _ p = 0

unfoldable pub approvals : String → List PlanCall → Plans → ℕ
approvals h [] p = 0
approvals h (c ∷ cs) p = approval_in h c p + approvals h cs (call c p)

unfoldable pub uses : String → List PlanCall → Plans → ℕ
uses h [] p = 0
uses h (c ∷ cs) p = use_in h c p + uses h cs (call c p)

-- 1 if the record stands approved and not used up
abbrev open_approval : Option PlanRecord → ℕ
open_approval none = 0
open_approval (some r) = one_if (is_some r.approval && not (is_some r.used))

open-prune :
    (h : String) (now : ℕ) (p : Plans)
    → open_approval (lookup h (prune now p).by_id) ≤ open_approval (lookup h p.by_id)
unfolding prune
open-prune h now p = ground (
  arith,
  prune_map-lookup (λ r. r.hash) (is_approved now) (λ r. r.last_seen) keep_plans h p.by_id,
)

open-made :
    (h : String) (s : PlanSeen) (now : ℕ) (wrote : Bool) (p : Plans)
    → open_approval (lookup h (record_plan s now wrote p).0.by_id)
      ≤ open_approval (lookup h p.by_id)
unfolding record_plan seen_again persist
open-made h s now wrote p =
    let r = seen_again s now (lookup s.hash p.by_id) in
    ground (
      arith,
      open-prune h now (persist s.hash r wrote p).0,
      lookup-insert s.hash h r p.by_id,
      eq_iff s.hash h,
    )

open-call :
    (h : String) (c : PlanCall) (p : Plans)
    → use_in h c p + open_approval (lookup h (call c p).by_id)
      ≤ approval_in h c p + open_approval (lookup h p.by_id)
unfolding call approval_in use_in
open-call h (made s now wrote) p = omega (arith, open-made h s now wrote p)
open-call h (approved_by hash by now wrote) p = elim (Option-cases (lookup hash p.by_id)) [
  | inl e ↦ unfold approve in ground arith
  | inr (r, e) ↦
      unfold approve persist in
      ground (arith, eq_iff hash h, lookup-insert hash h (granted by now p.ttl r) p.by_id)
]
open-call h (revoked hash wrote) p = elim (Option-cases (lookup hash p.by_id)) [
  | inl e ↦ unfold revoke in ground arith
  | inr (r, e) ↦
      unfold revoke persist in
      ground (arith, eq_iff hash h, lookup-insert hash h (withdrawn r) p.by_id)
]
open-call h (consumed_by hash job now wrote) p = elim (Option-cases (lookup hash p.by_id)) [
  | inl e ↦ unfold consume check in ground arith
  | inr (r, e) ↦
      unfold consume check persist in
      ground (arith, eq_iff hash h, lookup-insert hash h (used_up job now r) p.by_id)
]
open-call h (deployed hash by job now wrote) p = elim (Option-cases (lookup hash p.by_id)) [
  | inl e ↦ unfold use_for_deploy in ground arith
  | inr (r, e) ↦
      let spent = used_up job now (granted by now 0 r) in
      unfold use_for_deploy persist in
      ground (arith, eq_iff hash h, lookup-insert hash h spent p.by_id)
]

uses_within :
    (h : String) (cs : List PlanCall) (p : Plans)
    → uses h cs p + open_approval (lookup h (calls cs p).by_id)
      ≤ approvals h cs p + open_approval (lookup h p.by_id)
unfolding uses approvals calls
uses_within h [] p = omega arith
uses_within h (c ∷ cs) p = omega (arith, open-call h c p, uses_within h cs (call c p))

-- From a store that has no unused approval of a hash, however plans are made, approved, revoked,
-- applied and deployed, in any order and with any failing writes: no more applies of the hash are
-- let through than approvals were given to it.
pub uses-le-approvals :
    (h : String) (cs : List PlanCall) (p : Plans)
    → ((r : PlanRecord) → lookup h p.by_id ≡ some r → (r.approval ≡ none) ⊎ (r.used ≢ none))
    → uses h cs p ≤ approvals h cs p
uses-le-approvals h cs p none_open = elim (Option-cases (lookup h p.by_id)) [
  | inl e ↦ ground (arith, uses_within h cs p)
  | inr (r, e) ↦ ground (arith, uses_within h cs p, none_open r e)
]

-- A second apply is refused: once an apply has used a plan's approval, and until the plan is made or
-- approved anew, every later apply of it is refused because the approval was used.
pub consume_once :
    (hash job job2 : String) (now later : ℕ) (wrote wrote2 : Bool) (p : Plans)
    → changed (consume hash job now wrote p).1 ≡ true
    → (consume hash job2 later wrote2 (consume hash job now wrote p).0).1 ≡ err approval_used
consume_once hash job job2 now later wrote wrote2 p h = elim (Option-cases (lookup hash p.by_id)) [
  | inl e ↦ unfold consume check in ground arith
  | inr (r, e) ↦
      unfold consume check persist in
      ground (arith, eq_refl hash, lookup-insert hash hash (used_up job now r) p.by_id)
]

-- What an approval given at `now` is good for: an apply at `later`, with nothing done to the store in
-- between, may go ahead exactly when `later` is before `now` plus the store's lifetime. That holds
-- also if the approval's file could not be written and the admin was told that approving failed.
pub approve_lifetime :
    (hash by : String) (now later : ℕ) (wrote : Bool) (p : Plans)
    → changed (approve hash by now wrote p).1 ≡ true
    → (check hash later (approve hash by now wrote p).0 ≡ none) ↔ (later < now + p.ttl)
approve_lifetime hash by now later wrote p h = elim (Option-cases (lookup hash p.by_id)) [
  | inl e ↦ unfold approve in absurd (ground arith)
  | inr (r, e) ↦
      unfold approve check persist in
      (
        λ k. ground (arith, eq_refl hash, lookup-insert hash hash (granted by now p.ttl r) p.by_id),
        λ k. ground (arith, eq_refl hash, lookup-insert hash hash (granted by now p.ttl r) p.by_id),
      )
]

-- A call that is refused, for whatever reason other than a failed write, leaves the store as it was:
-- an approval, a withdrawal, an apply and a deploy alike.
pub refused_unchanged :
    (hash by job : String) (now : ℕ) (wrote : Bool) (p : Plans)
    → ((changed (approve hash by now wrote p).1 ≡ false) → (approve hash by now wrote p).0 ≡ p)
      × ((changed (revoke hash wrote p).1 ≡ false) → (revoke hash wrote p).0 ≡ p)
      × ((changed (consume hash job now wrote p).1 ≡ false) → (consume hash job now wrote p).0 ≡ p)
      × ((changed (use_for_deploy hash by job now wrote p).1 ≡ false)
          → (use_for_deploy hash by job now wrote p).0 ≡ p)
unfolding approve revoke consume check use_for_deploy persist
refused_unchanged hash by job now wrote p =
    (λ h. ground arith, λ h. ground arith, λ h. ground arith, λ h. ground arith)
