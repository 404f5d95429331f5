-- ===== src/Plans/State.antt =====
-- What the state of a record says of an apply (State and Check of pkg/server/plans.go).
use native_ops.Base.{
  ℕ, ◌<◌, String, ◌≡◌, ◌≢◌, ◌↔◌, refl, inl, inr, Option, none, some, arith, Option-cases,
}
use native_ops.Base.Dict.{lookup}
use native_ops.Plans.{Approval, PlanRecord, Plans, approved, state, check, check_record}

-- An apply of a plan hash may go ahead exactly when the hash has a record with an approval that no
-- apply has used up and that has not expired.
pub check_iff :
    (hash : String) (now : ℕ) (p : Plans)
    → (check hash now p ≡ none) ↔ (
        (r : PlanRecord) × (a : Approval) × (lookup hash p.by_id ≡ some r)
        × (r.approval ≡ some a)
        × (r.used ≡ none)
        × (now < a.expires))
unfolding check
check_iff hash now p = (fwd (lookup hash p.by_id) refl, bwd)
  where
    fwd :
        (o : Option PlanRecord)
        → lookup hash p.by_id ≡ o
        → check_record o now ≡ none
        → (r : PlanRecord) × (a : Approval) × (lookup hash p.by_id ≡ some r)
          × (r.approval ≡ some a)
          × (r.used ≡ none)
          × (now < a.expires)
    fwd none e h = ground arith
    fwd (some r) e h = elim (Option-cases r.approval) [
      | inl ea ↦ ground arith
      | inr (a, ea) ↦ (r, a, e, ea, ground arith, ground arith)
    ]

    bwd :
        ((r : PlanRecord) × (a : Approval) × (lookup hash p.by_id ≡ some r)
          × (r.approval ≡ some a)
          × (r.used ≡ none)
          × (now < a.expires))
        → check_record (lookup hash p.by_id) now ≡ none
    bwd (r, a, e, ea, eu, lt) = ground arith

-- A record shown as approved is one whose apply may go ahead, and the other way round for a plan with
-- changes that is not blocked.
pub approved_iff_check :
    (hash : String) (now : ℕ) (p : Plans) (r : PlanRecord)
    → lookup hash p.by_id ≡ some r
    → (state r now ≡ approved) ↔ ((r.exit ≢ 0) × (r.exit ≢ 1) × (check hash now p ≡ none))
unfolding check state
approved_iff_check hash now p r e = (λ h. ground arith, λ h. ground arith)
