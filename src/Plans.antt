-- ===== src/Plans.antt =====
-- The store of plan records and their approvals (pkg/server/plans.go).
-- A `*PlanRecord` is shared by the map alone, so a change to a record is a change to the map's entry.
-- Times and durations are nanoseconds. `now` is the clock's answer in the call, and `wrote` says
-- whether the record's file could be written. `disk` is the directory of records.
pub mod State
pub mod Approvals
pub mod Keeping
pub mod Restart
mod Tests
use native_ops.Base.{
  ℕ, zero, ◌+◌, ◌*◌, String, codes, Bool, true, false, not, ◌&&◌, ◌||◌, Option, none, some, List,
  [], ◌∷◌, map, ltb, leb, ◌==◌, str_eq, if◌then◌else◌, Result, ok, err, length, drop, all, ℤ, pos,
  negsuc,
}
use native_ops.Base.Dict.{Dict, lookup, insert, values}
use native_ops.Base.Sort.{sort_desc}
use native_ops.Base.Prune.{prune_map, drop_old}

pub record Approval : Type 0 where
  pub by : String
  pub at : ℕ
  pub expires : ℕ

pub record PlanUse : Type 0 where
  pub job : String
  pub at : ℕ

pub record PlanRecord : Type 0 where
  pub hash : String
  pub created : ℕ
  pub last_seen : ℕ
  pub actor : String
  pub sha : String
  pub service : String
  pub exit : ℕ
  pub counts : List (String × ℕ)
  pub text : String
  pub approval : Option Approval
  pub used : Option PlanUse

pub data PlanState : Type 0 where
  nothing blocked pending approved expired consumed stale : PlanState

-- the last two cases of the `switch` in `State`
approval_state : Option Approval → ℕ → PlanState
approval_state none now = pending
approval_state (some a) now = if ltb now a.expires then approved else expired

use_state : Option PlanUse → PlanRecord → ℕ → PlanState
unfolding approval_state
use_state (some u) p now = consumed
use_state none p now = approval_state p.approval now

unfoldable pub state : PlanRecord → ℕ → PlanState
unfolding use_state
state p now =
    if p.exit == 1 then blocked else if p.exit == 0 then nothing else use_state p.used p now

pub data PlanError : Type 0 where
  no_such_plan not_approvable not_approved approval_used approval_expiry not_written : PlanError

abbrev pub keep_plans : ℕ
keep_plans = 200

abbrev pub hour : ℕ
hour = 3600 * 1000000000

pub record Plans : Type 0 where
  pub ttl : ℕ
  pub by_id : Dict PlanRecord
  pub disk : Dict PlanRecord

abbrev pub is_approved : ℕ → PlanRecord → Bool
is_approved now r = elim (state r now) [ approved ↦ true | _ ↦ false ]

unfoldable pub prune : ℕ → Plans → Plans
prune now p = record p {
  by_id = prune_map (λ r. r.hash) (is_approved now) (λ r. r.last_seen) keep_plans p.by_id;
  disk =
      if leb (length p.by_id) keep_plans
      then p.disk
      else drop_old (λ r. r.hash) (is_approved now)
          (drop keep_plans (sort_desc (λ r. r.last_seen) (values p.by_id))) p.disk;
}

-- a `.json` file of the directory: its name without the extension, and the record that it decodes to
abbrev pub PlanFile : Type 0
PlanFile = String × Option PlanRecord

-- `hashRe`: 64 lowercase hexadecimal digits
abbrev is_hex : ℕ → Bool
is_hex c = (leb b'0' c && leb c b'9') || (leb b'a' c && leb c b'f')

unfoldable pub valid_hash : String → Bool
valid_hash s = (length (codes s) == 64) && all is_hex (codes s)

load_file : PlanFile → Dict PlanRecord → Dict PlanRecord
unfolding valid_hash
load_file (name, none) m = m
load_file (name, some r) m = if valid_hash name && str_eq r.hash name then insert r.hash r m else m

load_all : List PlanFile → Dict PlanRecord → Dict PlanRecord
load_all [] m = m
load_all (f ∷ fs) m = load_all fs (load_file f m)

unfoldable pub approval_ttl : ℤ → ℕ
approval_ttl (pos zero) = hour
approval_ttl (pos n) = n
approval_ttl (negsuc n) = hour

unfoldable pub open_plans : ℤ → ℕ → List PlanFile → Dict PlanRecord → Plans
unfolding load_all load_file prune approval_ttl
open_plans ttl now files disk =
    prune now (record { ttl = approval_ttl ttl; by_id = load_all files []; disk = disk })

-- `persist` of a record that has just been changed in memory
unfoldable pub persist : String → PlanRecord → Bool → Plans → Plans × Result PlanError PlanRecord
persist hash r wrote p =
    let q = record p { by_id = insert hash r p.by_id } in
    if wrote then (record q { disk = insert r.hash r q.disk }, ok r) else (q, err not_written)

pub record PlanSeen : Type 0 where
  pub hash : String
  pub actor : String
  pub sha : String
  pub service : String
  pub exit : ℕ
  pub counts : List (String × ℕ)
  pub text : String

fresh : String → ℕ → PlanRecord
fresh hash now = record {
  hash = hash;
  created = now;
  last_seen = 0;
  actor = "";
  sha = "";
  service = "";
  exit = 0;
  counts = [];
  text = "";
  approval = none;
  used = none;
}

known : Option PlanRecord → String → ℕ → PlanRecord
unfolding fresh
known none hash now = fresh hash now
known (some r) hash now = r

-- an approval that an apply has used up is not the approval of a new occurrence
renew : Option PlanUse → ℕ → PlanRecord → PlanRecord
renew none now r = r
renew (some u) now r = record r { used = none; approval = none; created = now }

seen : PlanSeen → ℕ → PlanRecord → PlanRecord
seen s now r = record r {
  last_seen = now;
  actor = s.actor;
  sha = s.sha;
  service = s.service;
  exit = s.exit;
  counts = s.counts;
  text = s.text;
}

-- what `Record` makes of the record in the map, if there is one
unfoldable pub seen_again : PlanSeen → ℕ → Option PlanRecord → PlanRecord
unfolding known renew seen
seen_again s now old = let r = known old s.hash now in seen s now (renew r.used now r)

unfoldable pub record_plan : PlanSeen → ℕ → Bool → Plans → Plans × PlanRecord
unfolding seen_again persist
record_plan s now wrote p =
    let r = seen_again s now (lookup s.hash p.by_id) in (prune now (persist s.hash r wrote p).0, r)

abbrev pub is_some : {A : Type 0} → Option A → Bool
is_some none = false
is_some (some _) = true

abbrev pub granted : String → ℕ → ℕ → PlanRecord → PlanRecord
granted by now ttl r = record r {
  approval = some (record { by = by; at = now; expires = now + ttl });
}

abbrev pub used_up : String → ℕ → PlanRecord → PlanRecord
used_up job now r = record r { used = some (record { job = job; at = now }) }

abbrev pub withdrawn : PlanRecord → PlanRecord
withdrawn r = record r { approval = none }

unfoldable pub approve : String → String → ℕ → Bool → Plans → Plans × Result PlanError PlanRecord
unfolding persist
approve hash by now wrote p = elim (lookup hash p.by_id) [
  | none ↦ (p, err no_such_plan)
  | some r ↦
      if not (r.exit == 2)
      then (p, err not_approvable)
      else if is_some r.used
      then (p, err approval_used)
      else persist hash (granted by now p.ttl r) wrote p
]

unfoldable pub revoke : String → Bool → Plans → Plans × Result PlanError PlanRecord
unfolding persist
revoke hash wrote p = elim (lookup hash p.by_id) [
  | none ↦ (p, err no_such_plan)
  | some r ↦ if is_some r.used then (p, err approval_used) else persist hash (withdrawn r) wrote p
]

-- `checkLocked`, on the record in the map
check_record : Option PlanRecord → ℕ → Option PlanError
check_record none now = some not_approved
check_record (some r) now = elim r.approval [
  | none ↦ some not_approved
  | some a ↦
      if is_some r.used
      then some approval_used
      else if ltb now a.expires
      then none
      else some approval_expiry
]

unfoldable pub check : String → ℕ → Plans → Option PlanError
unfolding check_record
check hash now p = check_record (lookup hash p.by_id) now

unfoldable pub consume : String → String → ℕ → Bool → Plans → Plans × Result PlanError PlanRecord
unfolding check persist
consume hash job now wrote p = elim (check hash now p) [
  | some e ↦ (p, err e)
  | none ↦ elim (lookup hash p.by_id) [
    | none ↦ (p, err not_approved)
    | some r ↦ persist hash (used_up job now r) wrote p
  ]
]

unfoldable pub use_for_deploy :
    String → String → String → ℕ → Bool → Plans → Plans × Result PlanError PlanRecord
unfolding persist
use_for_deploy hash by job now wrote p = elim (lookup hash p.by_id) [
  | none ↦ (p, err no_such_plan)
  | some r ↦ persist hash (used_up job now (granted by now 0 r)) wrote p
]

unfoldable pub get : String → Plans → Option PlanRecord
get hash p = lookup hash p.by_id

without_text : PlanRecord → PlanRecord
without_text r = record r { text = "" }

unfoldable pub list : Plans → List PlanRecord
unfolding without_text
list p = sort_desc (λ r. r.last_seen) (map without_text (values p.by_id))
