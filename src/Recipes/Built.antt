-- ===== src/Recipes/Built.antt =====
-- When an image is built (handleImageBuild of pkg/server/images.go, over the recipes of recipes.go).
use native_ops.Base.{
  ◌≡◌, refl, arith, String, codes, Bool, true, false, ◌&&◌, Option, none, some, List, ◌∷◌,
  if◌then◌else◌, Result, ok, err, Result-cases, Bool-cases, Option-cases, inl, inr, ◌⊎◌,
}
use native_ops.Server.{Server, Io, StartError, queue_job}
use native_ops.Jobs.{Job}
use native_ops.Images.{valid_image_app}
use native_ops.Recipes.{RecipeStore, seen, approved_in}
use native_ops.Recipes.Approved.{Call, Sound, build, calls, call, allowed, seen_told, all_calls}
use native_ops.Recipes.Requests.{
  Daemon, Reply, bad_request, out_of_scope, tree_refused, bad_config, started, BuildRequest,
  build_spec, valid_image_ref, may_build, build_from, handle_image_build,
}

abbrev pub is_started : Reply → Bool
is_started (started job) = true
is_started _ = false

-- whether queueJob gave a job
abbrev pub gave_job : Result StartError (Option Job) → Bool
gave_job (ok job) = true
gave_job (err e) = false

module _ (glob : String → String → Option Bool) (image_prefix : String) where
  abbrev asked_well : BuildRequest → Bool
  asked_well q =
      valid_image_app (codes q.app)
      && (valid_image_ref (codes q.ref) && may_build glob image_prefix q)

  -- the job of a build is queued just if all of this holds
  abbrev pub queues_build : BuildRequest → Bool → (String → Bool) → Bool
  queues_build q wrote may = asked_well q && elim q.tree [
    | none ↦ false
    | some sha ↦ elim q.digest [ none ↦ false | some digest ↦ wrote && may digest ]
  ]

  abbrev pub sha_of : BuildRequest → String
  sha_of q = elim q.tree [ none ↦ "" | some sha ↦ sha ]

  build_from_lem :
      (io : Io) (id : String) (q : BuildRequest) (wrote : Bool) (sha digest : String) (d : Daemon)
      → (build_from glob image_prefix io id q wrote sha digest d).0.server ≡ (
          if wrote && approved_in d.recipes.recs digest
          then (queue_job io id (build_spec q.app q.ref q.actor sha) d.server).0
          else d.server)
  unfolding build_from
  build_from_lem io id q wrote sha digest d =
      let told = seen_told digest q.actor q.app sha io.now wrote d.recipes in ground (arith, told)

  build_from_reply :
      (io : Io) (id : String) (q : BuildRequest) (wrote : Bool) (sha digest : String) (d : Daemon)
      → is_started (build_from glob image_prefix io id q wrote sha digest d).1 ≡ (
          (wrote && approved_in d.recipes.recs digest)
          && gave_job (queue_job io id (build_spec q.app q.ref q.actor sha) d.server).1)
  unfolding build_from
  build_from_reply io id q wrote sha digest d =
      let told = seen_told digest q.actor q.app sha io.now wrote d.recipes in
      elim (Result-cases (queue_job io id (build_spec q.app q.ref q.actor sha) d.server).1) [
        | inl (e, h) ↦ ground (arith, told, h)
        | inr (job, h) ↦ ground (arith, told, h)
      ]

  build_from_recipes :
      (io : Io) (id : String) (q : BuildRequest) (wrote : Bool) (sha digest : String) (d : Daemon)
      → (build_from glob image_prefix io id q wrote sha digest d).0.recipes
        ≡ (seen digest q.actor q.app sha io.now wrote d.recipes).0
  unfolding build_from
  build_from_recipes io id q wrote sha digest d = ground arith

  -- a request is refused at once, or comes to the recipe
  handle-cases :
      (io : Io) (id : String) (q : BuildRequest) (wrote : Bool) (may : String → Bool) (d : Daemon)
      → ((reply : Reply) × ((handle_image_build glob image_prefix io id q wrote d ≡ (d, reply))
            × ((is_started reply ≡ false) × (queues_build q wrote may ≡ false))))
        ⊎ ((sha digest : String) × ((handle_image_build glob image_prefix io id q wrote d
                ≡ build_from glob image_prefix io id q wrote sha digest d)
              × ((sha_of q ≡ sha) × (queues_build q wrote may ≡ (wrote && may digest)))))
  unfolding handle_image_build
  handle-cases io id q wrote may d = elim (Bool-cases (valid_image_app (codes q.app))) [
    | inr no_app ↦ inl (bad_request, (ground (arith, no_app), (refl, ground (arith, no_app))))
    | inl app ↦ elim (Bool-cases (valid_image_ref (codes q.ref))) [
      | inr no_ref ↦
          inl (bad_request, (ground (arith, app, no_ref), (refl, ground (arith, no_ref))))
      | inl ref ↦ elim (Bool-cases (may_build glob image_prefix q)) [
        | inr no_scope ↦
            inl
              (out_of_scope, (ground (arith, app, ref, no_scope), (refl, ground (arith, no_scope))))
        | inl scope ↦ elim (Option-cases q.tree) [
          | inl e ↦
              inl (tree_refused, (ground (arith, app, ref, scope, e), (refl, ground (arith, e))))
          | inr (sha, e) ↦ elim (Option-cases q.digest) [
            | inl f ↦
                inl (
                  bad_config,
                  (ground (arith, app, ref, scope, e, f), (refl, ground (arith, e, f))),
                )
            | inr (digest, f) ↦ inr (
              sha,
              digest,
              (
                ground (arith, app, ref, scope, e, f),
                (ground (arith, e), ground (arith, app, ref, scope, e, f)),
              ),
            )
          ]
        ]
      ]
    ]
  ]

  -- A request to build, after any calls on the recipes: a job for that app and tag is asked of the host's
  -- queue exactly if the app and the tag are well formed, the caller's scope allows the image, the tree came
  -- and has a digest, the recipe could be recorded, and a recipe of this digest was approved and not
  -- withdrawn since, where an approval or a withdrawal counts whether or not its file could be written. A
  -- job is answered exactly if the queue then gave one (it refuses when it is full or closed, or when the
  -- job cannot be recorded). If none is asked for, the host, its line, the jobs and the plans stay as they
  -- are. Asking changes no approval.
  pub handle_image_build-allowed :
      (cs : List Call) (s : RecipeStore) (io : Io) (id : String) (q : BuildRequest) (wrote : Bool)
      (sv : Server)
      → Sound s
      → let may = allowed cs (approved_in s.recs) in
        let d : Daemon = record { server = sv; recipes = calls cs s } in
        let (e, reply) = handle_image_build glob image_prefix io id q wrote d in
        let asked = queue_job io id (build_spec q.app q.ref q.actor (sha_of q)) sv in
        (e.server ≡ (if queues_build q wrote may then asked.0 else sv))
        × ((is_started reply ≡ (queues_build q wrote may && gave_job asked.1))
            × (Sound e.recipes × ((k : String) → approved_in e.recipes.recs k ≡ may k)))
  unfolding calls call
  handle_image_build-allowed cs s io id q wrote sv v =
      let may = allowed cs (approved_in s.recs) in
      let d : Daemon = record { server = sv; recipes = calls cs s } in
      let before = all_calls cs s v in
      elim (handle-cases io id q wrote may d) [
        | inl (reply, (same_as, (not_so, refused))) ↦
            rw same_as (rw refused refl, (rw (refused, not_so) refl, before))
        | inr (sha, digest, (is, (has, just))) ↦
            let server = build_from_lem io id q wrote sha digest d in
            let told = build_from_reply io id q wrote sha digest d in
            let recipes = build_from_recipes io id q wrote sha digest d in
            let after = all_calls (build digest q.actor q.app sha io.now wrote ∷ cs) s v in
            rw is (
              rw (has, just, ← before.1 digest) server,
              (rw (has, just, ← before.1 digest) told, rw recipes after),
            )
      ]
