-- ===== src/Recipes/Approved.antt =====
-- Which recipes may be built from (pkg/server/recipes.go).
use native_ops.Base.{
  ℕ, suc, ◌≡◌, ◌≤◌, refl, sym, ◌∙◌, ap, arith, String, Bool, true, false, not, ◌&&◌, ◌||◌, Option,
  none, some, List, [], ◌∷◌, ltb, str_eq, eq_iff, length, if◌then◌else◌, Bool-cases, Option-cases,
  inl, inr,
}
use native_ops.Base.Dict.{Dict, lookup, insert, values, lookup-insert, Unique, insert-Unique}
use native_ops.Base.Sort.{count, count-sort_desc}
use native_ops.Base.Prune.{Keyed, insert-Keyed}
use native_ops.Recipes.{
  RecipeRecord, RecipeStore, keep_recipes, is_approved, map_of, kept, list_locked, save,
  approved_in, seen, approve, approve_from_git, revoke, put, seen_record, approved_record,
  taken_back,
}

abbrev pub digest_of : RecipeRecord → String
digest_of r = r.digest

-- the map holds each record under its digest, once
abbrev pub Sound : RecipeStore → Type 0
Sound s = Unique s.recs × Keyed digest_of s.recs

-- an approved record of this digest
abbrev approves : String → RecipeRecord → Bool
approves k r = str_eq r.digest k && is_approved r

abbrev has_digest : String → RecipeRecord → Bool
has_digest k r = str_eq r.digest k

abbrev in_map : Option RecipeRecord → ℕ
in_map none = 0
in_map (some r) = 1

abbrev approved_once : Option RecipeRecord → ℕ
approved_once none = 0
approved_once (some r) = if is_approved r then 1 else 0

count-values :
    (k : String) (m : Dict RecipeRecord)
    → Unique m
    → Keyed digest_of m
    → (count (has_digest k) (values m) ≡ in_map (lookup k m))
      × (count (approves k) (values m) ≡ approved_once (lookup k m))
unfolding lookup
count-values k [] u w = (refl, refl)
count-values k ((j, r) ∷ m) u w =
    let ih = count-values k m u.1 w.1 in
    (ground (arith, ih, eq_iff j k), ground (arith, ih, eq_iff j k))

count-map_of :
    (k : String) (rs : List RecipeRecord)
    → count (has_digest k) rs ≤ 1
    → (count (has_digest k) rs ≡ in_map (lookup k (map_of rs)))
      × (count (approves k) rs ≡ approved_once (lookup k (map_of rs)))
unfolding map_of lookup
count-map_of k [] h = (refl, refl)
count-map_of k (r ∷ rs) h =
    let ih = count-map_of k rs (ground arith) in
    let new = lookup-insert r.digest k r (map_of rs) in
    (ground (arith, ih, new, h), ground (arith, ih, new, h))

count-kept :
    (k : String) (n : ℕ) (rs : List RecipeRecord)
    → (count (approves k) (kept n rs) ≡ count (approves k) rs)
      × (count (has_digest k) (kept n rs) ≤ count (has_digest k) rs)
unfolding kept
count-kept k n [] = (refl, omega arith)
count-kept k n (r ∷ rs) =
    let a = count-kept k n rs in
    let b = count-kept k (suc n) rs in (ground (arith, a, b), ground (arith, a, b))

map_of-Sound : (rs : List RecipeRecord) → Unique (map_of rs) × Keyed digest_of (map_of rs)
unfolding map_of
map_of-Sound [] = (tt, tt)
map_of-Sound (r ∷ rs) =
    let ih = map_of-Sound rs in
    (
      insert-Unique r.digest r (map_of rs) ih.0,
      insert-Keyed digest_of r.digest r (map_of rs) refl ih.1,
    )

-- saving keeps the approvals, also when it lets records go
save-approved :
    (wrote : Bool) (s : RecipeStore) (k : String)
    → Sound s
    → Sound (save wrote s) × (approved_in (save wrote s).recs k ≡ approved_in s.recs k)
unfolding save list_locked
save-approved wrote s k v = elim (Bool-cases (ltb keep_recipes (length (list_locked s.recs)))) [
  | inr small ↦ rw small (v, refl)
  | inl large ↦
      let list = list_locked s.recs in
      let c = count-values k s.recs v.0 v.1 in
      let d = count-sort_desc (λ r. r.last_seen) (has_digest k) (values s.recs) in
      let e = count-sort_desc (λ r. r.last_seen) (approves k) (values s.recs) in
      let f = count-kept k 0 list in
      let g = count-map_of k (kept 0 list) (ground (arith, c, d, f)) in
      rw large (map_of-Sound (kept 0 list), ground (arith, c, e, f, g))
]

-- a call on the store, with whether the file could be written then
pub data Call : Type 0 where
  build : String → String → String → String → ℕ → Bool → Call
  allow : String → String → ℕ → Bool → Call
  tagged : String → String → ℕ → Bool → Call
  withdraw : String → Bool → Call

unfoldable pub call : Call → RecipeStore → RecipeStore
call (build digest actor app sha now wrote) s = (seen digest actor app sha now wrote s).0
call (allow digest by now wrote) s = (approve digest by now wrote s).0
call (tagged digest by now wrote) s = (approve_from_git digest by now wrote s).0
call (withdraw digest wrote) s = (revoke digest wrote s).0

unfoldable pub calls : List Call → RecipeStore → RecipeStore
unfolding call
calls [] s = s
calls (c ∷ earlier) s = call c (calls earlier s)

-- the plain description: the set of the recipes that may be built from
abbrev pub allowed : List Call → (String → Bool) → String → Bool
allowed [] start k = start k
allowed (build _ _ _ _ _ _ ∷ earlier) start k = allowed earlier start k
allowed (allow digest _ _ _ ∷ earlier) start k = str_eq digest k || allowed earlier start k
allowed (tagged digest _ _ _ ∷ earlier) start k = str_eq digest k || allowed earlier start k
allowed (withdraw digest _ ∷ earlier) start k = not (str_eq digest k) && allowed earlier start k

put-approved :
    (wrote : Bool) (r : RecipeRecord) (s : RecipeStore) (k : String)
    → Sound s
    → Sound (put wrote r s)
      × (approved_in (put wrote r s).recs k
          ≡ (if str_eq r.digest k then is_approved r else approved_in s.recs k))
put-approved wrote r s k v =
    let new = lookup-insert r.digest k r s.recs in
    let (sound, same_as) =
      save-approved wrote (record s { recs = insert r.digest r s.recs }) k
        (insert-Unique r.digest r s.recs v.0, insert-Keyed digest_of r.digest r s.recs refl v.1) in
    (sound, same_as ∙ ground (arith, new))

seen_record-approved :
    (digest actor app sha : String) (now : ℕ) (m : Dict RecipeRecord)
    → is_approved (seen_record digest actor app sha now m) ≡ approved_in m digest
seen_record-approved digest actor app sha now m = elim (Option-cases (lookup digest m)) [
  | inl e ↦ ground (arith, e)
  | inr (r, e) ↦ ground (arith, e)
]

call-allowed :
    (c : Call) (s : RecipeStore) (k : String)
    → Sound s
    → Sound (call c s) × (approved_in (call c s).recs k ≡ allowed (c ∷ []) (approved_in s.recs) k)
unfolding call seen approve approve_from_git revoke
call-allowed (build digest actor app sha now wrote) s k v =
    let (sound, is) = put-approved wrote (seen_record digest actor app sha now s.recs) s k v in
    let was = seen_record-approved digest actor app sha now s.recs in
    (sound, is ∙ ground (arith, was, eq_iff digest k))
call-allowed (allow digest by now wrote) s k v =
    let (sound, is) = put-approved wrote (approved_record digest by now s.recs) s k v in
    (sound, is ∙ ground arith)
call-allowed (tagged digest by now wrote) s k v = elim (Bool-cases (approved_in s.recs digest)) [
  | inl already ↦ rw (already, call, approve_from_git) (v, ground (arith, already, eq_iff digest k))
  | inr new ↦
      let (sound, is) = put-approved wrote (approved_record digest by now s.recs) s k v in
      rw (new, call, approve_from_git) (sound, is ∙ ground arith)
]
call-allowed (withdraw digest wrote) s k v = elim (Option-cases (lookup digest s.recs)) [
  | inl gone ↦ rw (gone, call, revoke) (v, ground (arith, gone, eq_iff digest k))
  | inr (r, there) ↦
      let (sound, is) = put-approved wrote (taken_back digest r) s k v in
      rw (there, call, revoke) (sound, is ∙ ground arith)
]

one_more :
    (c : Call) (cs : List Call) (start : String → Bool) (m : Dict RecipeRecord) (k : String)
    → approved_in m k ≡ allowed cs start k
    → allowed (c ∷ []) (approved_in m) k ≡ allowed (c ∷ cs) start k
one_more (build _ _ _ _ _ _) cs start m k h = h
one_more (allow digest _ _ _) cs start m k h = ap (λ b. str_eq digest k || b) h
one_more (tagged digest _ _ _) cs start m k h = ap (λ b. str_eq digest k || b) h
one_more (withdraw digest _) cs start m k h = ap (λ b. not (str_eq digest k) && b) h

pub all_calls :
    (cs : List Call) (s : RecipeStore)
    → Sound s
    → Sound (calls cs s)
      × ((k : String) → approved_in (calls cs s).recs k ≡ allowed cs (approved_in s.recs) k)
unfolding calls
all_calls [] s v = (v, λ k. refl)
all_calls (c ∷ cs) s v =
    let ih = all_calls cs s v in
    (
      (call-allowed c (calls cs s) "" ih.0).0,
      λ k.
          (call-allowed c (calls cs s) k ih.0).1
          ∙ one_more c cs (approved_in s.recs) (calls cs s).recs k (ih.1 k),
    )

-- After any calls on the store, whatever recipes it let go to stay small and whether or not each change
-- could be written: the recipes that may be built from are exactly those that were approved, by hand or by a
-- tag, and not withdrawn since; and that is what a request to build is told.
pub calls-allowed :
    (cs : List Call) (s : RecipeStore)
    → Sound s
    → (Sound (calls cs s)
        × ((k : String) → approved_in (calls cs s).recs k ≡ allowed cs (approved_in s.recs) k))
      × ((digest actor app sha : String) (now : ℕ) (wrote : Bool)
          → (seen digest actor app sha now wrote (calls cs s)).1
            ≡ allowed cs (approved_in s.recs) digest)
calls-allowed cs s v =
    let (sound, is) = all_calls cs s v in
    (
      (sound, is),
      λ digest actor app sha now wrote.
          unfold seen in
          seen_record-approved digest actor app sha now (calls cs s).recs ∙ is digest,
    )

save_disk : (s : RecipeStore) → (save false s).disk ≡ s.disk
unfolding save
save_disk s = ground arith

approve_disk :
    (digest by : String) (now : ℕ) (s : RecipeStore)
    → (approve digest by now false s).0.disk ≡ s.disk
unfolding approve
approve_disk digest by now s =
    save_disk (record s { recs = insert digest (approved_record digest by now s.recs) s.recs })

revoke_disk : (digest : String) (s : RecipeStore) → (revoke digest false s).0.disk ≡ s.disk
unfolding revoke
revoke_disk digest s = elim (Option-cases (lookup digest s.recs)) [
  | inl gone ↦ ground (arith, gone)
  | inr (r, there) ↦
      ground
        (arith, there, save_disk (record s { recs = insert digest (taken_back digest r) s.recs }))
]

pub seen_told :
    (digest actor app sha : String) (now : ℕ) (wrote : Bool) (s : RecipeStore)
    → (seen digest actor app sha now wrote s).1 ≡ approved_in s.recs digest
unfolding seen
seen_told digest actor app sha now wrote s = seen_record-approved digest actor app sha now s.recs

-- A change that could not be written counts all the same: after an approval that failed the next build is
-- let through, after a withdrawal that failed it is not, though the file is as it was.
pub unwritten_counts :
    (digest by : String) (now : ℕ) (s : RecipeStore)
    → Sound s
    → (digest2 actor app sha : String) (later : ℕ) (wrote : Bool) → digest2 ≡ digest
    → (((approve digest by now false s).0.disk ≡ s.disk)
        × ((seen digest2 actor app sha later wrote (approve digest by now false s).0).1 ≡ true))
      × (((revoke digest false s).0.disk ≡ s.disk)
          × ((seen digest2 actor app sha later wrote (revoke digest false s).0).1 ≡ false))
unfolding call
unwritten_counts digest by now s v digest2 actor app sha later wrote is =
    let a = (call-allowed (allow digest by now false) s digest2 v).1 in
    let w = (call-allowed (withdraw digest false) s digest2 v).1 in
    let y = (eq_iff digest digest2).1 (sym is) in
    (
      (
        approve_disk digest by now s,
        seen_told digest2 actor app sha later wrote (approve digest by now false s).0
            ∙ a
            ∙ ground (arith, y),
      ),
      (
        revoke_disk digest s,
        seen_told digest2 actor app sha later wrote (revoke digest false s).0
            ∙ w
            ∙ ground (arith, y),
      ),
    )
