-- ===== src/Plans/Keeping.antt =====
-- The records that the store keeps (`prune` of pkg/server/plans.go).
use native_ops.Base.{
  ℕ, ◌<◌, String, ◌≡◌, ◌≢◌, ◌⊎◌, inl, inr, ◌∙◌, Bool, none, some, List, [], ◌∷◌, arith,
  Option-cases,
}
use native_ops.Base.Dict.{lookup, insert-Unique, Unique, values}
use native_ops.Base.Sort.{count}
use native_ops.Base.Prune.{
  prune_map-lookup, prune_map-gone, prune_map-stays, prune_map-Unique, prune_map-Keyed, Keyed,
  lookup-Keyed, insert-Keyed, at_least, newer_than,
}
use native_ops.Plans.{
  PlanRecord, Plans, approved, state, PlanSeen, approve, revoke, consume, check, use_for_deploy,
  persist, record_plan, prune, seen_again, is_approved, keep_plans, granted, used_up, withdrawn,
}
use native_ops.Plans.Approvals.{
  PlanCall, made, approved_by, revoked, consumed_by, deployed, call, calls,
}

abbrev pub hash_of : PlanRecord → String
hash_of r = r.hash

abbrev pub seen_at : PlanRecord → ℕ
seen_at r = r.last_seen

-- no hash has two records, and each record stands under its own hash
pub record IsWell (p : Plans) : Type 0 where
  pub unique : Unique p.by_id
  pub keyed : Keyed hash_of p.by_id

persist-IsWell :
    (hash : String) (r : PlanRecord) (wrote : Bool) (p : Plans)
    → r.hash ≡ hash
    → IsWell p
    → IsWell (persist hash r wrote p).0
unfolding persist
persist-IsWell hash r wrote p e w =
    ground
      (arith, insert-Unique hash r p.by_id w.unique, insert-Keyed hash_of hash r p.by_id e w.keyed)

prune-IsWell : (now : ℕ) (p : Plans) → IsWell p → IsWell (prune now p)
unfolding prune
prune-IsWell now p w = record {
  unique = prune_map-Unique hash_of (is_approved now) seen_at keep_plans p.by_id w.unique;
  keyed = prune_map-Keyed hash_of (is_approved now) seen_at keep_plans p.by_id w.keyed;
}

pub seen_again-hash :
    (s : PlanSeen) (now : ℕ) (p : Plans)
    → IsWell p
    → (seen_again s now (lookup s.hash p.by_id)).hash ≡ s.hash
unfolding seen_again
seen_again-hash s now p w = elim (Option-cases (lookup s.hash p.by_id)) [
  | inl e ↦ ground arith
  | inr (r, e) ↦ ground (arith, lookup-Keyed hash_of s.hash r p.by_id w.keyed e)
]

pub call-IsWell : (c : PlanCall) (p : Plans) → IsWell p → IsWell (call c p)
unfolding call
call-IsWell (made s now wrote) p w =
    let r = seen_again s now (lookup s.hash p.by_id) in
    unfold record_plan in
    prune-IsWell now (persist s.hash r wrote p).0
      (persist-IsWell s.hash r wrote p (seen_again-hash s now p w) w)
call-IsWell (approved_by hash by now wrote) p w = elim (Option-cases (lookup hash p.by_id)) [
  | inl e ↦ unfold approve in ground arith
  | inr (r, e) ↦
      let name = lookup-Keyed hash_of hash r p.by_id w.keyed e in
      let kept = persist-IsWell hash (granted by now p.ttl r) wrote p name w in
      unfold approve in ground (arith, kept)
]
call-IsWell (revoked hash wrote) p w = elim (Option-cases (lookup hash p.by_id)) [
  | inl e ↦ unfold revoke in ground arith
  | inr (r, e) ↦
      let name = lookup-Keyed hash_of hash r p.by_id w.keyed e in
      let kept = persist-IsWell hash (withdrawn r) wrote p name w in
      unfold revoke in ground (arith, kept)
]
call-IsWell (consumed_by hash job now wrote) p w = elim (Option-cases (lookup hash p.by_id)) [
  | inl e ↦ unfold consume check in ground arith
  | inr (r, e) ↦
      let name = lookup-Keyed hash_of hash r p.by_id w.keyed e in
      let kept = persist-IsWell hash (used_up job now r) wrote p name w in
      unfold consume check in ground (arith, kept)
]
call-IsWell (deployed hash by job now wrote) p w = elim (Option-cases (lookup hash p.by_id)) [
  | inl e ↦ unfold use_for_deploy in ground arith
  | inr (r, e) ↦
      let name = lookup-Keyed hash_of hash r p.by_id w.keyed e in
      let kept = persist-IsWell hash (used_up job now (granted by now 0 r)) wrote p name w in
      unfold use_for_deploy in ground (arith, kept)
]

-- Whatever calls are made of a well-formed store, it stays well formed: no hash has two records, and
-- each record stands under its own hash.
pub plan_calls-IsWell : (cs : List PlanCall) (p : Plans) → IsWell p → IsWell (calls cs p)
unfolding calls
plan_calls-IsWell [] p w = w
plan_calls-IsWell (c ∷ cs) p w = plan_calls-IsWell cs (call c p) (call-IsWell c p w)

-- What pruning a well-formed store does to each record: it stays as it is, and then it stands approved
-- or fewer than 200 records were made later; or it goes, and then it does not stand approved and more
-- than 200 records, itself among them, were made no earlier.
pub plan_prune_exact :
    (now : ℕ) (k : String) (r : PlanRecord) (p : Plans)
    → IsWell p
    → lookup k p.by_id ≡ some r
    → ((lookup k (prune now p).by_id ≡ some r)
        × ((state r now ≡ approved) ⊎ (count (newer_than seen_at r) (values p.by_id) < 200)))
      ⊎ ((lookup k (prune now p).by_id ≡ none)
          × (state r now ≢ approved)
          × (200 < count (at_least seen_at r) (values p.by_id)))
unfolding prune
plan_prune_exact now k r p w here =
    elim (prune_map-lookup hash_of (is_approved now) seen_at keep_plans k p.by_id) [
      | inl gone ↦
          let (free, old) =
            prune_map-gone hash_of (is_approved now) seen_at keep_plans k r p.by_id w.unique w.keyed
              here gone in
          inr (gone, ground arith, old)
      | inr same ↦
          let stays = same ∙ here in
          let why =
            prune_map-stays hash_of (is_approved now) seen_at keep_plans k r p.by_id w.keyed
              stays in
          inl (stays, elim why [ inl a ↦ inl (ground arith) | inr few ↦ inr few ])
    ]
