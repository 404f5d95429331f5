-- ===== src/Sessions/Gate.antt =====
-- Who may call an endpoint (auth, authScoped, authSecretSync, authWith, bearer and sameOrigin of
-- pkg/server/server.go, authMigrate of pkg/server/migrate.go).
-- `text` is the text of a list of bytes, `parse_host` the host of a URL, none if it is not valid.
use native_ops.Base.{
  ℕ, Bool, true, false, not, ◌&&◌, ◌||◌, String, codes, Option, none, some, List, [], ltb, str_eq,
  take, drop, length, trim_space, if◌then◌else◌,
}
use native_ops.Base.Bytes.{same, lower}
use native_ops.Tokens.{Role, deployer, admin, Scope, allows, secrets_only, limits}
use native_ops.Tokens.Store.{TokenStore, verify, scope_of}
use native_ops.Users.Store.{UserStore, Host}
use native_ops.Sessions.{SessionToken, Payload, Sessions, current_session}

-- who acts: `actorHolder`
pub record Caller : Type 0 where
  pub name : List ℕ
  pub role : Role
  pub scope : Option Scope

pub data Method : Type 0 where
  get_method head_method options_method other_method : Method

-- an empty text stands for a header that is not there
pub record Request : Type 0 where
  pub mcp_caller : Option Caller
  pub cookie : Option SessionToken
  pub method : Method
  pub fetch_site : String
  pub origin : String
  pub host : String
  pub authorization : List ℕ

pub data Refusal : Type 0 where
  forbidden_role forbidden_secrets forbidden_scope cross_origin unauthorized : Refusal

pub data Verdict : Type 0 where
  calls : Caller → Verdict
  refuses : Refusal → Verdict

pub record Daemon : Type 0 where
  pub sessions : Option Sessions
  pub users : Option UserStore
  pub tokens : TokenStore

abbrev is_read : Method → Bool
is_read get_method = true
is_read head_method = true
is_read options_method = true
is_read other_method = false

abbrev same_host : String → Option String → Bool
same_host host none = false
same_host host (some h) = str_eq h host

unfoldable pub secrets_only_refused : Option Scope → Bool → Bool
unfolding secrets_only
secrets_only_refused scope allow_secrets = secrets_only scope && not allow_secrets

abbrev pub is_scoped : Option Scope → Bool
is_scoped none = false
is_scoped (some s) = true

-- `Scoped`: a scope that limits nothing is none
abbrev pub scope_in_force : Option Scope → Option Scope
scope_in_force none = none
scope_in_force (some sc) = scope_of sc

-- the switch on a caller that is known
unfoldable pub judged : Role → Bool → Bool → Caller → Verdict
unfolding allows secrets_only_refused
judged min allow_scoped allow_secrets c =
    if not (allows c.role min)
    then refuses forbidden_role
    else if secrets_only_refused c.scope allow_secrets
    then refuses forbidden_secrets
    else if is_scoped c.scope && not allow_scoped
    then refuses forbidden_scope
    else calls c

-- what the handler that a gate wraps asks first
abbrev pub only_if : (Caller → Bool) → Verdict → Verdict
only_if p (refuses e) = refuses e
only_if p (calls c) = if p c then calls c else refuses forbidden_role

abbrev pub may_sync : Caller → Bool
may_sync c = secrets_only c.scope || (not (is_scoped c.scope) && allows c.role deployer)

module _ (text : List ℕ → String) where
  unfoldable pub bearer : List ℕ → String
  bearer h =
      if ltb 7 (length h) && same (lower (take 7 h)) (codes "bearer ")
      then text (trim_space (drop 7 h))
      else text []

module _ (parse_host : String → Option String) where
  unfoldable pub same_origin : Request → Bool
  same_origin r =
      if is_read r.method
      then true
      else if not (str_eq r.fetch_site "")
      then str_eq r.fetch_site "same-origin" || str_eq r.fetch_site "none"
      else if not (str_eq r.origin "")
      then same_host r.host (parse_host r.origin)
      else true

module _ (text : List ℕ → String) (hash_of : String → String) where
  -- the last part of `authWith`: the token of the request
  unfoldable pub by_token : Role → Bool → Bool → Bool → Request → Daemon → Daemon × Verdict
  unfolding verify bearer judged limits
  by_token min allow_scoped allow_secrets readable r d =
      let (tokens1, found) = verify hash_of (bearer text r.authorization) readable d.tokens in
      (
        record d { tokens = tokens1 },
        elim found [
          | none ↦ refuses unauthorized
          | some t ↦
              judged min allow_scoped allow_secrets
                (record { name = t.name; role = t.role; scope = scope_in_force t.scope })
        ],
      )

module _ (mac : String → String) (from64 : String → Option String)
    (decode : String → Option Payload) where
  -- the session, if the daemon has sessions
  unfoldable pub session_user : Host → ℕ → Request → Daemon → Daemon × Option (List ℕ × Role)
  unfolding current_session
  session_user io now r d = elim d.sessions [
    | none ↦ (d, none)
    | some s ↦
        let (users1, who) = current_session mac from64 decode io r.cookie now d.users in
        (record d { users = users1 }, who)
  ]

module _ (text : List ℕ → String) (parse_host : String → Option String) (hash_of : String → String)
    (mac : String → String) (from64 : String → Option String)
    (decode : String → Option Payload) where
  -- `authWith`: the caller that an MCP tool acts for, then the session, then the token
  unfoldable pub auth_with :
      Role → Bool → Bool → Host → Bool → ℕ → Request → Daemon → Daemon × Verdict
  unfolding session_user by_token judged allows same_origin
  auth_with min allow_scoped allow_secrets io readable now r d = elim r.mcp_caller [
    | some c ↦ (d, judged min allow_scoped allow_secrets c)
    | none ↦
        let (d1, who) = session_user mac from64 decode io now r d in
        elim who [
          | none ↦ by_token text hash_of min allow_scoped allow_secrets readable r d1
          | some u ↦
              if not (same_origin parse_host r)
              then (d1, refuses cross_origin)
              else if not (allows u.1 min)
              then (d1, refuses forbidden_role)
              else (d1, calls (record { name = u.0; role = u.1; scope = none }))
        ]
  ]

  unfoldable pub auth : Role → Host → Bool → ℕ → Request → Daemon → Daemon × Verdict
  unfolding auth_with
  auth min io readable now r d = auth_with min false false io readable now r d

  unfoldable pub auth_scoped : Role → Host → Bool → ℕ → Request → Daemon → Daemon × Verdict
  unfolding auth_with
  auth_scoped min io readable now r d = auth_with min true false io readable now r d

  -- `authSecretSync`
  unfoldable pub auth_secret_sync : Host → Bool → ℕ → Request → Daemon → Daemon × Verdict
  unfolding auth_with allows secrets_only
  auth_secret_sync io readable now r d =
      let (d1, verdict) = auth_with deployer true true io readable now r d in
      (d1, only_if may_sync verdict)

  -- `authMigrate`
  unfoldable pub auth_migrate : Host → Bool → ℕ → Request → Daemon → Daemon × Verdict
  unfolding auth_scoped allows
  auth_migrate io readable now r d =
      let (d1, verdict) = auth_scoped deployer io readable now r d in
      (d1, only_if (λ c. not (not (is_scoped c.scope) && not (allows c.role admin))) verdict)
