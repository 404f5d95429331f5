-- ===== src/Lib.antt =====
-- native-ops: a daemon that plans and applies the configuration of a host of containers.
--
-- The daemon (pkg/server) answers an HTTP API. A client uploads a configuration, the daemon plans what it
-- would change (pkg/engine), an admin approves the plan, and an apply changes the host as a job that
-- outlives the request. Agents of people sign in through the daemon's own OAuth server. What decides whether
-- the host may be changed, by whom and in which order, is modelled here:
--
--   Queue    pkg/server/queue.go: hostQueue, with one change at a time on the host and the others in line.
--            A *ticket is an address in a heap; a channel is the list of what its buffer holds.
--            Queue/Threads has the callers as a step relation, in any interleaving: each step is one call,
--            which holds the queue's mutex from its start to its end. Queue/Refinement has the plain
--            description of a host with a line, and what relates the two.
--   Plans    pkg/server/plans.go: the records of plans, their approvals, and their files.
--   Jobs     pkg/server/jobs.go: the records of jobs, their logs, and their files.
--   Fleet    pkg/engine/plan.go: what a plan says, its counts and its status.
--   Server   pkg/server/apply.go, approvals.go and deploy.go: the requests that approve, revoke and apply,
--            and launch, which ties a ticket, a job and an approval together and runs the job.
--            The work of a job is a function on the state; a deploy's is the one of startDeploy
--            (Server/Deploy), and Server/Deploy/Ended has it from its turn to its end.
--   Oauth    pkg/server/oauth.go: clients, codes, grants, refresh and access tokens.
--   Tokens   pkg/server/tokens.go: roles, scopes, and the API tokens in their file.
--   Users    pkg/server/users.go: the people who sign in, their names, emails, roles and passwords, in memory
--            and in their file. Users/Store has the operations, Users/Calls any sequence of them.
--   Sessions pkg/server/sessions.go (the cookie of a session), the gates of server.go and migrate.go
--            (authWith, auth, authSecretSync, authMigrate), in Sessions/Gate, and signing in with a password
--            (handleLogin of auth.go), which ties the throttle, the users and the sessions together, in
--            Sessions/Login.
--   Backups  pkg/backup/manager.go: which backups retention deletes (selectPrune, Prune);
--            pkg/server/backup_schedule.go and ScheduleTimes of pkg/config/config.go: when a backup is due,
--            and that the scheduler starts it, in Backups/Schedule and Backups/Slots.
--   Recipes  pkg/server/recipes.go: the recipes of images, their approvals and their file;
--            pkg/server/images.go: the request to build, which ties a recipe and the jobs of Server together,
--            in Recipes/Requests.
--   Images   pkg/engine/imageprune.go: which images of a host retention deletes (ImagesToPrune).
--   Labels   pkg/labels/labels.go: the vocabulary of labels.
--   Throttle pkg/server/throttle.go: how failed sign-ins slow the next ones down.
--
-- A definition has the name of the function that it models, in this language's spelling (tryTicket is
-- try_ticket, Jobs.CreateQueued is create_queued). An operation on a store takes the store and gives the new
-- one, with what the function returns; an error is a value. A loop is recursion on the list that it walks and
-- needs no fuel; the throttle's doubling loop recurses on its counter. Two loops have fuel: the search for a
-- free name (freeUsername) has one round more than there are users, and a theorem says that it ends within
-- them; the walk over the days between two checks (dueBetween) has three, for a window that the code cuts down
-- to a day, and a theorem says which times it finds.
--
-- Conventions:
--   - A time is a number of nanoseconds, and a clock's answer is an argument of the call. A time of zero
--     stands for Go's zero time. The differences of times that the code compares with are truncated at 0,
--     which changes none of those tests.
--   - A Go map is a list of entries, whose order stands for the order of iteration. `sort.Slice` keeps equal
--     keys in the order in which they stood, one of the orders that Go may give.
--   - A store's `disk` is its directory or file. Whether a write succeeds is an argument of the call.
--     Removing a file always succeeds, as the code ignores its failure.
--   - Random identifiers and secrets are arguments.
--   - A Go int does not overflow here: counts are lengths of lists and sizes of logs.
--   - SHA-256, HMAC, bcrypt, base64, JSON, URL parsing, path.Match, the digest of a recipe and the text of a
--     plan are parameters.
--   - Names, emails and other texts that the code takes apart are lists of their characters' codes, and lower
--     case and blanks are those of ASCII. The time of a backup is the digits of its key, as in UTC.
--
-- Not modelled: how a plan is made from a host and how it is applied (pkg/engine, pkg/incus, pkg/remote), the
-- other configuration files (pkg/config), making and restoring the archive of a backup, signing in with OIDC
-- and the pages of the OAuth server, the clients of other services, and the HTTP layer. For the most part these
-- are sequences of commands and calls to programs outside the repository; the checks of configuration files
-- are pure, and are left out as yet.
pub mod Base
pub mod Queue
pub mod Plans
pub mod Jobs
pub mod Fleet
pub mod Server
pub mod Oauth
pub mod Throttle
pub mod Recipes
pub mod Images
pub mod Backups
pub mod Users
pub mod Sessions
pub mod Labels
pub mod Tokens
