-- ===== src/Recipes/Tests.antt =====
-- Recipes approved and withdrawn, and the theorems at concrete inputs.
use native_ops.Base.{
  Result, ◌&&◌, ℕ, ◌≡◌, refl, String, Bool, true, false, none, some, Option, if◌then◌else◌, List,
  [], ◌∷◌,
}
use native_ops.Recipes.{RecipeStore, save, seen, approve, revoke, approved_in, list_locked}
use native_ops.Server.{Server, Io, StartError, queue_job}
use native_ops.Jobs.{Job}
use native_ops.Recipes.Requests.{Daemon, Reply, BuildRequest, build_spec, handle_image_build}
use native_ops.Recipes.Built.{gave_job, queues_build, is_started, handle_image_build-allowed}
use native_ops.Recipes.Approved.{
  Call, Sound, build, allow, tagged, withdraw, calls, allowed, calls-allowed, unwritten_counts,
}

abbrev empty : RecipeStore
empty = record { recs = []; disk = none }

-- the latest first
abbrev history : List Call
history =
    withdraw "a" true
    ∷ tagged "b" "git" 3 false
    ∷ allow "a" "ann" 2 true
    ∷ build "a" "ci" "web" "v1" 1 true
    ∷ []

b_may_build : allowed history (λ _. false) "b" ≡ true
b_may_build = refl

calls-allowed_example :
    (Sound (calls history empty)
      × ((k : String)
          → approved_in (calls history empty).recs k ≡ allowed history (approved_in empty.recs) k))
    × ((digest actor app sha : String) (now : ℕ) (wrote : Bool)
        → (seen digest actor app sha now wrote (calls history empty)).1
          ≡ allowed history (approved_in empty.recs) digest)
calls-allowed_example = calls-allowed history empty (tt, tt)

unwritten_counts_example :
    (((approve "a" "ann" 2 false empty).0.disk ≡ none)
      × ((seen "a" "ci" "web" "v1" 3 true (approve "a" "ann" 2 false empty).0).1 ≡ true))
    × (((revoke "a" false empty).0.disk ≡ none)
        × ((seen "a" "ci" "web" "v1" 3 true (revoke "a" false empty).0).1 ≡ false))
unwritten_counts_example =
    unwritten_counts "a" "ann" 2 empty (tt, tt) "a" "ci" "web" "v1" 3 true refl

abbrev idle_server : Server
idle_server = record {
  queue = record {
    busy = false;
    closed = false;
    waiting = [];
    heap = λ p. record { id = ""; granted = false; ch = [] };
    next = 0;
  };
  jobs = record { jobs = []; disk = [] };
  plans = record { ttl = 1; by_id = []; disk = [] };
  trace = [];
}

abbrev io : Io
io = record {
  now = 5;
  made = true;
  begun = true;
  used = true;
  logged = true;
  ended = true;
  why = "";
}

abbrev request : BuildRequest
request = record {
  app = "web";
  ref = "v1";
  actor = "ci";
  scope = none;
  tree = some "c0ffee";
  digest = some "b";
}

abbrev daemon : Daemon
daemon = record { server = idle_server; recipes = calls history empty }

abbrev globs : String → String → Option Bool
globs p t = none

builds_now : queues_build globs "no/" request true (allowed history (approved_in empty.recs)) ≡ true
unfolding native_ops.Images.valid_image_app native_ops.Recipes.Requests.valid_image_ref
builds_now = refl

abbrev after_build : Daemon × Reply
after_build = handle_image_build globs "no/" io "job-1" request true daemon

abbrev asked : Server × Result StartError (Option Job)
asked = queue_job io "job-1" (build_spec "web" "v1" "ci" "c0ffee") idle_server

abbrev queues : Bool
queues = queues_build globs "no/" request true (allowed history (approved_in empty.recs))

handle_image_build-allowed_example :
    (after_build.0.server ≡ (if queues then asked.0 else idle_server))
    × ((is_started after_build.1 ≡ (queues && gave_job asked.1))
        × (Sound after_build.0.recipes
            × ((k : String)
                → approved_in after_build.0.recipes.recs k
                  ≡ allowed history (approved_in empty.recs) k)))
handle_image_build-allowed_example =
    handle_image_build-allowed globs "no/" history empty io "job-1" request true idle_server
      (tt, tt)
