-- ===== src/Recipes/Requests.antt =====
-- The requests that approve a recipe, withdraw its approval and build an image (pkg/server/recipes.go:
-- handleRecipeApprove, handleRecipeRevoke; pkg/server/images.go: handleImageBuild, handleImagePrune).
-- The uploaded tree and its digest (engine.RecipeDigest) come as arguments, none if there is an error. What
-- an upload leaves on the disk is not in the state, but for the cleanup of a job.
use native_ops.Base.{
  ℕ, String, codes, Bool, true, false, not, ◌&&◌, ◌||◌, Option, none, some, List, [], ◌∷◌, leb,
  ◌==◌, str_append, length, all, if◌then◌else◌, Result, ok, err,
}
use native_ops.Server.{Server, Io, JobSpec, StartError, queue_job, run_job_now}
use native_ops.Jobs.{Job}
use native_ops.Labels.{between}
use native_ops.Tokens.{Scope, allows_image}
use native_ops.Images.{valid_image_app}
use native_ops.Recipes.{RecipeStore, RecipeRecord, valid_digest, seen, approve, revoke}

pub record Daemon : Type 0 where
  pub server : Server
  pub recipes : RecipeStore

pub data Reply : Type 0 where
  bad_request out_of_scope tree_refused bad_config internal no_such_recipe recipe_not_approved :
      Reply
  recorded : RecipeRecord → Reply
  started : Option Job → Reply
  no_job : StartError → Reply

-- `handleRecipeApprove`, with whether the file could be written
unfoldable pub handle_recipe_approve :
    String → String → ℕ → Bool → RecipeStore → RecipeStore × Reply
unfolding approve
handle_recipe_approve digest by now wrote s =
    if not (valid_digest digest)
    then (s, bad_request)
    else (let (s1, r) = approve digest by now wrote s in
        (s1, if wrote then recorded r else internal))

-- `handleRecipeRevoke`: nothing is written if there is no such recipe
unfoldable pub handle_recipe_revoke : String → Bool → RecipeStore → RecipeStore × Reply
unfolding revoke
handle_recipe_revoke digest wrote s =
    if not (valid_digest digest)
    then (s, no_such_recipe)
    else (let (s1, found) = revoke digest wrote s in
        elim found [
          | none ↦ (s1, no_such_recipe)
          | some r ↦ (s1, if wrote then recorded r else internal)
        ])

abbrev is_letter : ℕ → Bool
is_letter c = between b'a' b'z' c || (between b'A' b'Z' c || between b'0' b'9' c)

abbrev is_ref_char : ℕ → Bool
is_ref_char c = is_letter c || (c == b'.' || (c == b'_' || (c == b'/' || c == b'-')))

-- `strings.Contains(ref, "..")`
unfoldable pub has_dots : List ℕ → Bool
has_dots [] = false
has_dots (c ∷ []) = false
has_dots (c ∷ d ∷ cs) = c == b'.' && d == b'.' || has_dots (d ∷ cs)

-- `ValidImageRef`: what starts with a letter or a digit does not start with a dash
unfoldable pub valid_image_ref : List ℕ → Bool
unfolding has_dots
valid_image_ref [] = false
valid_image_ref (c ∷ cs) =
    is_letter c && (leb (length cs) 100 && (all is_ref_char cs && not (has_dots (c ∷ cs))))

abbrev pub build_spec : String → String → String → String → JobSpec
build_spec app ref actor sha =
    let subject = str_append app (str_append "@" ref) in
    record {
      kind = "image:build";
      actor = actor;
      sha = sha;
      subject = subject;
      plan_hash = "";
      what = str_append "build " subject;
      audit = str_append "image build " subject;
      prepare = none;
    }

abbrev pub prune_spec : String → String → String → JobSpec
prune_spec actor what audit = record {
  kind = "image:prune";
  actor = actor;
  sha = "";
  subject = "";
  plan_hash = "";
  what = what;
  audit = audit;
  prepare = none;
}

abbrev pub answered : RecipeStore → Server × Result StartError (Option Job) → Daemon × Reply
answered recipes (s, r) =
    (record { server = s; recipes = recipes }, elim r [ ok job ↦ started job | err e ↦ no_job e ])

-- `handleImagePrune`
unfoldable pub handle_image_prune : Io → String → String → Bool → Daemon → Daemon × Reply
handle_image_prune io id actor dry d =
    let what = if dry then "image prune (dry run)" else "image prune" in
    answered d.recipes (queue_job io id (prune_spec actor what what) d.server)

-- `pruneImagesNow`
unfoldable pub prune_images_now : Io → String → Server → Server
prune_images_now io id s =
    (run_job_now io id (prune_spec "native-ops (scheduled)" "image prune (scheduled)" "image prune")
      s).0

-- what a request to build brings: the app and the tag, who calls and within which scope, the commit of the
-- tree if it was received, and the tree's digest
pub record BuildRequest : Type 0 where
  pub app : String
  pub ref : String
  pub actor : String
  pub scope : Option Scope
  pub tree : Option String
  pub digest : Option String

module _ (glob : String → String → Option Bool) (image_prefix : String) where
  abbrev pub may_build : BuildRequest → Bool
  may_build q = elim q.scope [
    | none ↦ true
    | some scope ↦
        allows_image glob scope (str_append image_prefix (str_append q.app (str_append ":" q.ref)))
  ]

  -- `handleImageBuild` once the tree is there and its digest is known
  unfoldable pub build_from :
      Io → String → BuildRequest → Bool → String → String → Daemon → Daemon × Reply
  unfolding seen
  build_from io id q wrote sha digest d =
      let (recipes, approved) = seen digest q.actor q.app sha io.now wrote d.recipes in
      if not wrote
      then (record d { recipes = recipes }, internal)
      else if not approved
      then (record d { recipes = recipes }, recipe_not_approved)
      else answered recipes (queue_job io id (build_spec q.app q.ref q.actor sha) d.server)

  unfoldable pub handle_image_build : Io → String → BuildRequest → Bool → Daemon → Daemon × Reply
  unfolding build_from
  handle_image_build io id q wrote d =
      if not (valid_image_app (codes q.app))
      then (d, bad_request)
      else if not (valid_image_ref (codes q.ref))
      then (d, bad_request)
      else if not (may_build q)
      then (d, out_of_scope)
      else elim q.tree [
        | none ↦ (d, tree_refused)
        | some sha ↦ elim q.digest [
          | none ↦ (d, bad_config)
          | some digest ↦ build_from io id q wrote sha digest d
        ]
      ]
