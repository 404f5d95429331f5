-- ===== src/Plans/Tests.antt =====
-- Runs of the plan store, and the theorems at concrete inputs.
use native_ops.Base.{
  ◌+◌, ◌≤◌, ◌<◌, String, ◌≡◌, ◌↔◌, refl, true, false, none, some, List, [], ◌∷◌, arith, err, pos,
}
use native_ops.Base.Dict.{lookup, insert}
use native_ops.Base.Prune.{prune_map}
use native_ops.Plans.{
  PlanRecord, Plans, PlanSeen, approved, hour, not_written, state, check, approve, consume,
  record_plan, prune, open_plans, approval_ttl, valid_hash,
}
use native_ops.Plans.Approvals.{
  PlanCall, made, approved_by, consumed_by, call, calls, changed, approvals, uses, use_in,
  uses-le-approvals, approve_lifetime,
}
use native_ops.Plans.Keeping.{IsWell, plan_calls-IsWell}
use native_ops.Plans.Restart.{AllValid, files, empty_store, restart_keeps_approvals}

abbrev hash : String
hash = "00112233445566778899aabbccddeeff00112233445566778899aabbccddeeff"

abbrev the_plan : PlanSeen
the_plan = record {
  hash = hash;
  actor = "ci";
  sha = "c0ffee";
  service = "";
  exit = 2;
  counts = [];
  text = "1 change";
}

abbrev first_calls : List PlanCall
first_calls = made the_plan 100 true ∷ approved_by hash "admin" 200 true ∷ []

abbrev approved_store : Plans
approved_store = calls first_calls (empty_store hour)

abbrev the_record : PlanRecord
the_record = record {
  hash = hash;
  created = 100;
  last_seen = 100;
  actor = "ci";
  sha = "c0ffee";
  service = "";
  exit = 2;
  counts = [];
  text = "1 change";
  approval = some (record { by = "admin"; at = 200; expires = 3600000000200 });
  used = none;
}

stored : lookup hash approved_store.by_id ≡ some the_record
unfolding calls call record_plan approve prune prune_map lookup insert
stored = refl

standing : state the_record 300 ≡ approved
unfolding state
standing = refl

abbrev two_applies : List PlanCall
two_applies =
    made the_plan 100 true
    ∷ approved_by hash "admin" 200 true
    ∷ consumed_by hash "j-1" 300 true
    ∷ consumed_by hash "j-2" 400 true
    ∷ []

one_use : uses hash two_applies (empty_store hour) ≡ 1
unfolding uses use_in calls call record_plan approve consume prune prune_map lookup insert
one_use = refl

uses-le-approvals_example :
    uses hash two_applies (empty_store hour) ≤ approvals hash two_applies (empty_store hour)
uses-le-approvals_example =
    uses-le-approvals hash two_applies (empty_store hour)
      (λ r e. absurd (unfold lookup in ground arith))

consumed : changed (consume hash "j-1" 300 true approved_store).1 ≡ true
unfolding calls call record_plan approve consume prune prune_map lookup insert
consumed = refl

-- the admin is told that approving failed, and the apply goes ahead
approve_fails : (approve hash "admin" 500 false approved_store).1 ≡ err not_written
unfolding calls call record_plan approve prune prune_map lookup insert
approve_fails = refl

approve_lifetime_example :
    (check hash 600 (approve hash "admin" 500 false approved_store).0 ≡ none)
    ↔ (600 < 500 + approved_store.ttl)
unfolding calls call record_plan approve prune prune_map lookup insert
approve_lifetime_example = approve_lifetime hash "admin" 500 600 false approved_store refl

approved_store-IsWell : IsWell approved_store
approved_store-IsWell =
    plan_calls-IsWell first_calls (empty_store hour) (record { unique = tt; keyed = tt })

valid : AllValid (calls first_calls (empty_store (approval_ttl (pos 0)))).disk
unfolding calls call record_plan approve prune prune_map lookup insert valid_hash approval_ttl
valid = (refl, tt)

stored_by_default :
    lookup hash (calls first_calls (empty_store (approval_ttl (pos 0)))).by_id ≡ some the_record
unfolding calls call record_plan approve prune prune_map lookup insert approval_ttl
stored_by_default = refl

restart_keeps_approvals_example :
    lookup hash
      (open_plans
        (pos 0)
        300
        (files (calls first_calls (empty_store (approval_ttl (pos 0)))).disk)
        (calls first_calls (empty_store (approval_ttl (pos 0)))).disk).by_id
    ≡ some the_record
restart_keeps_approvals_example =
    restart_keeps_approvals (pos 0) (pos 0) first_calls 300 hash the_record (refl, (refl, tt)) valid
      stored_by_default standing
