-- ===== src/Recipes.antt =====
-- The recipes that images are built from, and their approvals (pkg/server/recipes.go).
-- `recs` is the map; `disk` is the file, none if there is none. A digest is valid if it is 64 characters of
-- hexadecimal (hashRe). Whether the file could be written and the time come as arguments.
pub mod Approved
pub mod Requests
pub mod Built
mod Tests
use native_ops.Base.{
  ℕ, suc, String, codes, Bool, true, false, not, ◌&&◌, ◌||◌, Option, none, some, List, [], ◌∷◌, ltb,
  ◌==◌, str_eq, length, all, if◌then◌else◌,
}
use native_ops.Base.Dict.{Dict, lookup, insert, values}
use native_ops.Base.Sort.{sort_desc}
use native_ops.Labels.{between}

pub record RecipeRecord : Type 0 where
  pub digest : String
  pub first_seen : ℕ
  pub last_seen : ℕ
  pub last_actor : String
  pub last_app : String
  pub last_sha : String
  pub approved_by : String
  pub approved_at : Option ℕ

pub record RecipeStore : Type 0 where
  pub recs : Dict RecipeRecord
  pub disk : Option (List RecipeRecord)

abbrev pub keep_recipes : ℕ
keep_recipes = 200

abbrev is_hex : ℕ → Bool
is_hex c = between b'0' b'9' c || between b'a' b'f' c

unfoldable pub valid_digest : String → Bool
valid_digest d = length (codes d) == 64 && all is_hex (codes d)

abbrev pub is_approved : RecipeRecord → Bool
is_approved r = elim r.approved_at [ none ↦ false | some t ↦ true ]

-- the records of a list in a map
unfoldable pub map_of : List RecipeRecord → Dict RecipeRecord
map_of [] = []
map_of (r ∷ rs) = insert r.digest r (map_of rs)

-- the loop of `OpenRecipeStore`
unfoldable pub valid_records : List RecipeRecord → List RecipeRecord
unfolding valid_digest
valid_records [] = []
valid_records (r ∷ rs) =
    let rest = valid_records rs in if valid_digest r.digest then r ∷ rest else rest

-- `OpenRecipeStore`, on a file that can be read and decodes
unfoldable pub open_recipe_store : Option (List RecipeRecord) → RecipeStore
unfolding valid_records map_of
open_recipe_store none = record { recs = []; disk = none }
open_recipe_store (some rs) = record { recs = map_of (valid_records rs); disk = some rs }

-- the loop of `save`, with the records that it has kept so far
unfoldable pub kept : ℕ → List RecipeRecord → List RecipeRecord
kept n [] = []
kept n (r ∷ rs) =
    let with_r = kept (suc n) rs in
    let without_r = kept n rs in
    if is_approved r || ltb n keep_recipes then r ∷ with_r else without_r

-- `listLocked`
unfoldable pub list_locked : Dict RecipeRecord → List RecipeRecord
list_locked m = sort_desc (λ r. r.last_seen) (values m)

-- `save`: a map that is too large is cut down first, whether the file can be written then or not
unfoldable pub save : Bool → RecipeStore → RecipeStore
unfolding kept list_locked map_of
save wrote s =
    let list = list_locked s.recs in
    if ltb keep_recipes (length list)
    then record { recs = map_of (kept 0 list); disk = if wrote then some (kept 0 list) else s.disk }
    else record s { disk = if wrote then some list else s.disk }

abbrev new_record : String → ℕ → RecipeRecord
new_record digest now = record {
  digest = digest;
  first_seen = now;
  last_seen = now;
  last_actor = "";
  last_app = "";
  last_sha = "";
  approved_by = "";
  approved_at = none;
}

-- the record of a digest, or a new one
abbrev pub record_of : String → ℕ → Dict RecipeRecord → RecipeRecord
record_of digest now m = elim (lookup digest m) [ none ↦ new_record digest now | some r ↦ r ]

abbrev pub put : Bool → RecipeRecord → RecipeStore → RecipeStore
put wrote r s = save wrote (record s { recs = insert r.digest r s.recs })

abbrev pub approved_in : Dict RecipeRecord → String → Bool
approved_in m digest = elim (lookup digest m) [ none ↦ false | some r ↦ is_approved r ]

abbrev pub seen_record : String → String → String → String → ℕ → Dict RecipeRecord → RecipeRecord
seen_record digest actor app sha now m = record (record_of digest now m) {
  digest = digest;
  last_seen = now;
  last_actor = actor;
  last_app = app;
  last_sha = sha;
}

-- `Seen`, and whether the recipe is approved
unfoldable pub seen :
    String → String → String → String → ℕ → Bool → RecipeStore → RecipeStore × Bool
unfolding save
seen digest actor app sha now wrote s =
    let r = seen_record digest actor app sha now s.recs in (put wrote r s, is_approved r)

abbrev pub approved_record : String → String → ℕ → Dict RecipeRecord → RecipeRecord
approved_record digest by now m = record (record_of digest now m) {
  digest = digest;
  approved_by = by;
  approved_at = some now;
}

-- `Approve`
unfoldable pub approve : String → String → ℕ → Bool → RecipeStore → RecipeStore × RecipeRecord
unfolding save
approve digest by now wrote s = let r = approved_record digest by now s.recs in (put wrote r s, r)

-- `ApproveFromGit`, and whether this call approved it
unfoldable pub approve_from_git :
    String → String → ℕ → Bool → RecipeStore → RecipeStore × (RecipeRecord × Bool)
unfolding approve
approve_from_git digest by now wrote s =
    let (s1, r) = approve digest by now wrote s in
    if approved_in s.recs digest then (s, (record_of digest now s.recs, false)) else (s1, (r, true))

abbrev pub taken_back : String → RecipeRecord → RecipeRecord
taken_back digest r = record r { digest = digest; approved_by = ""; approved_at = none }

-- `Revoke`, and the record if there is one
unfoldable pub revoke : String → Bool → RecipeStore → RecipeStore × Option RecipeRecord
unfolding save
revoke digest wrote s = elim (lookup digest s.recs) [
  | none ↦ (s, none)
  | some r0 ↦ let r = taken_back digest r0 in (put wrote r s, some r)
]
