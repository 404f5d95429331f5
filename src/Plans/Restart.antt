-- ===== src/Plans/Restart.antt =====
-- A restart of the daemon (`OpenPlans` of pkg/server/plans.go on what the earlier calls wrote).
use native_ops.Base.{
  ℕ, String, ◌≡◌, refl, inl, inr, ◌∙◌, true, Option, none, some, List, [], ◌∷◌, arith, drop, eq_iff,
  Option-cases, ℤ, All,
}
use native_ops.Base.Dict.{Dict, lookup, lookup-insert, insert-Unique, Unique, values}
use native_ops.Base.Sort.{sort_desc}
use native_ops.Base.Prune.{
  prune_map-lookup, prune_map-gone, Keyed, lookup-Keyed, insert-Keyed, drop_old-lookup,
  drop_old-Unique, drop_old-Keyed, prune_map,
}
use native_ops.Plans.{
  PlanRecord, Plans, approved, state, PlanFile, load_file, load_all, valid_hash, open_plans,
  approval_ttl, approve, revoke, consume, check, use_for_deploy, persist, record_plan, prune,
  seen_again, is_approved, keep_plans, granted, used_up, withdrawn,
}
use native_ops.Plans.Approvals.{
  PlanCall, made, approved_by, revoked, consumed_by, deployed, call, calls,
}
use native_ops.Plans.Keeping.{hash_of, seen_at, IsWell, call-IsWell, seen_again-hash}

-- Every file is written: what the directory holds is what the store holds.
abbrev pub SameOnDisk : Plans → Type 0
SameOnDisk p = (k : String) → lookup k p.disk ≡ lookup k p.by_id

pub record IsDurable (p : Plans) : Type 0 where
  pub same : SameOnDisk p
  pub unique : Unique p.disk
  pub keyed : Keyed hash_of p.disk

persist-SameOnDisk :
    (hash : String) (r : PlanRecord) (p : Plans)
    → r.hash ≡ hash
    → SameOnDisk p
    → SameOnDisk (persist hash r true p).0
unfolding persist
persist-SameOnDisk hash r p e h k =
    ground (arith, lookup-insert hash k r p.by_id, lookup-insert r.hash k r p.disk, h k)

prune-SameOnDisk : (now : ℕ) (p : Plans) → SameOnDisk p → SameOnDisk (prune now p)
unfolding prune prune_map
prune-SameOnDisk now p h k = ground (
  arith,
  h k,
  drop_old-lookup hash_of (is_approved now) (drop keep_plans (sort_desc seen_at (values p.by_id)))
      p.disk p.by_id k (h k),
)

abbrev pub Written : PlanCall → Type 0
Written (made s now wrote) = wrote ≡ true
Written (approved_by hash by now wrote) = wrote ≡ true
Written (revoked hash wrote) = wrote ≡ true
Written (consumed_by hash job now wrote) = wrote ≡ true
Written (deployed hash by job now wrote) = wrote ≡ true

persist-IsDurable :
    (hash : String) (r : PlanRecord) (p : Plans)
    → r.hash ≡ hash
    → IsDurable p
    → IsDurable (persist hash r true p).0
persist-IsDurable hash r p e d = record {
  same = persist-SameOnDisk hash r p e d.same;
  unique = unfold persist in insert-Unique r.hash r p.disk d.unique;
  keyed = unfold persist in insert-Keyed hash_of r.hash r p.disk refl d.keyed;
}

prune-IsDurable : (now : ℕ) (p : Plans) → IsDurable p → IsDurable (prune now p)
prune-IsDurable now p d =
    let dropped = drop keep_plans (sort_desc seen_at (values p.by_id)) in
    record {
      same = prune-SameOnDisk now p d.same;
      unique =
          unfold prune in
          ground (arith, d.unique, drop_old-Unique hash_of (is_approved now) dropped p.disk);
      keyed =
          unfold prune in
          ground (arith, d.keyed, drop_old-Keyed hash_of (is_approved now) dropped p.disk);
    }

call-IsDurable :
    (c : PlanCall) (p : Plans) → Written c → IsWell p → IsDurable p → IsDurable (call c p)
unfolding call
call-IsDurable (made s now wrote) p written w d =
    let r = seen_again s now (lookup s.hash p.by_id) in
    rw written (
      unfold record_plan in
      prune-IsDurable now (persist s.hash r true p).0
        (persist-IsDurable s.hash r p (seen_again-hash s now p w) d))
call-IsDurable (approved_by hash by now wrote) p written w d =
    elim (Option-cases (lookup hash p.by_id)) [
      | inl e ↦ unfold approve in ground arith
      | inr (r, e) ↦
          let name = lookup-Keyed hash_of hash r p.by_id w.keyed e in
          let kept = persist-IsDurable hash (granted by now p.ttl r) p name d in
          unfold approve in ground (arith, kept)
    ]
call-IsDurable (revoked hash wrote) p written w d = elim (Option-cases (lookup hash p.by_id)) [
  | inl e ↦ unfold revoke in ground arith
  | inr (r, e) ↦
      let name = lookup-Keyed hash_of hash r p.by_id w.keyed e in
      let kept = persist-IsDurable hash (withdrawn r) p name d in
      unfold revoke in ground (arith, kept)
]
call-IsDurable (consumed_by hash job now wrote) p written w d =
    elim (Option-cases (lookup hash p.by_id)) [
      | inl e ↦ unfold consume check in ground arith
      | inr (r, e) ↦
          let name = lookup-Keyed hash_of hash r p.by_id w.keyed e in
          let kept = persist-IsDurable hash (used_up job now r) p name d in
          unfold consume check in ground (arith, kept)
    ]
call-IsDurable (deployed hash by job now wrote) p written w d =
    elim (Option-cases (lookup hash p.by_id)) [
      | inl e ↦ unfold use_for_deploy in ground arith
      | inr (r, e) ↦
          let name = lookup-Keyed hash_of hash r p.by_id w.keyed e in
          let kept = persist-IsDurable hash (used_up job now (granted by now 0 r)) p name d in
          unfold use_for_deploy in ground (arith, kept)
    ]

calls-IsDurable :
    (cs : List PlanCall) (p : Plans)
    → All Written cs
    → IsWell p
    → IsDurable p
    → IsDurable (calls cs p)
unfolding calls
calls-IsDurable [] p written w d = d
calls-IsDurable (c ∷ cs) p written w d =
    calls-IsDurable cs (call c p) written.1 (call-IsWell c p w) (call-IsDurable c p written.0 w d)

-- the directory as `os.ReadDir` lists it
abbrev pub files : Dict PlanRecord → List PlanFile
files [] = []
files ((k, r) ∷ d) = (k, some r) ∷ files d

abbrev pub AllValid : Dict PlanRecord → Type 0
AllValid [] = Unit
AllValid ((k, r) ∷ d) = (valid_hash k ≡ true) × AllValid d

abbrev or_else : Option PlanRecord → Option PlanRecord → Option PlanRecord
or_else none o = o
or_else (some r) o = some r

lookup-load_all :
    (k : String) (d acc : Dict PlanRecord)
    → Unique d
    → Keyed hash_of d
    → AllValid d
    → lookup k (load_all (files d) acc) ≡ or_else (lookup k d) (lookup k acc)
unfolding load_all load_file lookup
lookup-load_all k [] acc u w v = refl
lookup-load_all k ((j, r) ∷ d) acc u w v =
    let acc' = load_file (j, some r) acc in
    ground (
      arith,
      lookup-load_all k d acc' u.1 w.1 v.1,
      lookup-insert r.hash k r acc,
      eq_iff r.hash j,
      eq_iff r.hash k,
      eq_iff j k,
    )

load_file-IsWell :
    (f : PlanFile) (m : Dict PlanRecord)
    → Unique m × Keyed hash_of m
    → Unique (load_file f m) × Keyed hash_of (load_file f m)
unfolding load_file
load_file-IsWell (k, none) m w = w
load_file-IsWell (k, some r) m w =
    ground (arith, insert-Unique r.hash r m, insert-Keyed hash_of r.hash r m refl)

load_all-IsWell :
    (fs : List PlanFile) (m : Dict PlanRecord)
    → Unique m × Keyed hash_of m
    → Unique (load_all fs m) × Keyed hash_of (load_all fs m)
unfolding load_all
load_all-IsWell [] m w = w
load_all-IsWell (f ∷ fs) m w = load_all-IsWell fs (load_file f m) (load_file-IsWell f m w)

abbrev pub empty_store : ℕ → Plans
empty_store ttl = record { ttl = ttl; by_id = []; disk = [] }

-- From an empty store, after any calls whose files could all be written: the daemon that starts next
-- finds in the directory each record that stands approved, unchanged, however many records there are.
-- (The hashes must have the form that the loader accepts.)
pub restart_keeps_approvals :
    (lifetime ttl : ℤ) (cs : List PlanCall) (now : ℕ) (k : String) (r : PlanRecord)
    → All Written cs
    → AllValid (calls cs (empty_store (approval_ttl lifetime))).disk
    → lookup k (calls cs (empty_store (approval_ttl lifetime))).by_id ≡ some r
    → state r now ≡ approved
    → lookup k
        (open_plans ttl now
          (files (calls cs (empty_store (approval_ttl lifetime))).disk)
          (calls cs (empty_store (approval_ttl lifetime))).disk).by_id
      ≡ some r
unfolding open_plans prune
restart_keeps_approvals lifetime ttl cs now k r written valid here standing =
    elim (prune_map-lookup hash_of (is_approved now) seen_at keep_plans k loaded) [
      | inl gone ↦
          let (free, _) =
            prune_map-gone hash_of (is_approved now) seen_at keep_plans k r loaded well.0 well.1
              found gone in
          absurd (ground arith)
      | inr same ↦ same ∙ found
    ]
  where
    before : Plans
    before = calls cs (empty_store (approval_ttl lifetime))

    d : IsDurable before
    d =
        calls-IsDurable cs (empty_store (approval_ttl lifetime)) written
          (record { unique = tt; keyed = tt })
          (record { same = λ j. refl; unique = tt; keyed = tt })

    loaded : Dict PlanRecord
    loaded = load_all (files before.disk) []

    well : Unique loaded × Keyed hash_of loaded
    well = load_all-IsWell (files before.disk) [] (tt, tt)

    found : lookup k loaded ≡ some r
    found = rw (lookup-load_all k before.disk [] d.unique d.keyed valid, d.same k, here) refl
