-- ===== src/Sessions/Guarded.antt =====
-- What the gates of the endpoints let through (authWith and the gates built on it, pkg/server/server.go and
-- pkg/server/migrate.go).
use native_ops.Base.{
  ℕ, ◌≡◌, ◌⊎◌, sym, ap, arith, Bool, true, false, not, ◌&&◌, String, Option, none, some, List,
  Bool-cases, Option-cases, inl, inr,
}
use native_ops.Tokens.{Role, deployer, admin, allows, secrets_only}
use native_ops.Tokens.Store.{verify}
use native_ops.Users.Store.{Host}
use native_ops.Sessions.{Payload}
use native_ops.Sessions.Gate.{
  Caller, Request, Daemon, Verdict, calls, refuses, judged, secrets_only_refused, is_scoped,
  same_origin, by_token, session_user, scope_in_force, bearer, auth_with, auth, auth_scoped,
  auth_secret_sync, auth_migrate, may_sync, only_if,
}

-- the caller has the role, and its scope is one that the endpoint takes
abbrev pub MayCall : Role → Bool → Bool → Caller → Type 0
MayCall min allow_scoped allow_secrets c =
    (allows c.role min ≡ true)
    × (secrets_only c.scope ≡ true → allow_secrets ≡ true)
    × (is_scoped c.scope ≡ true → allow_scoped ≡ true)

judged-MayCall :
    (min : Role) (allow_scoped allow_secrets : Bool) (c k : Caller)
    → judged min allow_scoped allow_secrets c ≡ calls k
    → MayCall min allow_scoped allow_secrets k
unfolding judged secrets_only_refused
judged-MayCall min allow_scoped allow_secrets c k e =
    let is : c ≡ k = ground arith in
    let found : MayCall min allow_scoped allow_secrets c =
      (ground arith, λ h. ground arith, λ h. ground arith) in
    rw is at found

only_if-calls :
    (p : Caller → Bool) (v : Verdict) (c : Caller)
    → only_if p v ≡ calls c
    → (v ≡ calls c) × (p c ≡ true)
only_if-calls p (refuses e) c h = absurd (ground arith)
only_if-calls p (calls k) c h = elim (Bool-cases (p k)) [
  | inl good ↦ let is : k ≡ c = ground arith in (ap calls is, rw (← is) good)
  | inr bad ↦ absurd (ground arith)
]

sync_cases :
    (c : Caller) → may_sync c ≡ true → (secrets_only c.scope ≡ true) ⊎ (is_scoped c.scope ≡ false)
sync_cases c h = elim (Bool-cases (secrets_only c.scope)) [
  | inl y ↦ inl y
  | inr n ↦ inr (ground arith)
]

migrate_cases :
    (c : Caller)
    → allows c.role deployer ≡ true
    → not (not (is_scoped c.scope) && not (allows c.role admin)) ≡ true
    → (allows c.role admin ≡ true) ⊎ ((is_scoped c.scope ≡ true) × (allows c.role deployer ≡ true))
migrate_cases c d h = elim (Bool-cases (allows c.role admin)) [
  | inl y ↦ inl y
  | inr n ↦ inr (ground arith, d)
]

module _ (text : List ℕ → String) (parse_host : String → Option String) (hash_of : String → String)
    (mac : String → String) (from64 : String → Option String)
    (decode : String → Option Payload) where
  by_token-MayCall :
      (min : Role) (allow_scoped allow_secrets readable : Bool) (r : Request) (d : Daemon)
      (k : Caller)
      → (by_token text hash_of min allow_scoped allow_secrets readable r d).1 ≡ calls k
      → MayCall min allow_scoped allow_secrets k
  unfolding by_token
  by_token-MayCall min allow_scoped allow_secrets readable r d k e =
      elim (Option-cases (verify hash_of (bearer text r.authorization) readable d.tokens).1) [
        | inl none_found ↦ absurd (ground arith)
        | inr (t, found) ↦
            judged-MayCall min allow_scoped allow_secrets
              (record { name = t.name; role = t.role; scope = scope_in_force t.scope }) k
              (ground arith)
      ]

  -- Whoever an endpoint lets call it has at least the role that it asks for, has no scope of secrets unless
  -- the endpoint is for those, and no scope at all unless the endpoint takes scoped callers. If it is a
  -- session that calls, it has no scope, and a change comes from the daemon's own pages.
  pub auth_with-MayCall :
      (min : Role) (allow_scoped allow_secrets : Bool) (io : Host) (readable : Bool) (now : ℕ)
      (r : Request) (d : Daemon) (c : Caller)
      → (auth_with text parse_host hash_of mac from64 decode min allow_scoped allow_secrets io
          readable now r d).1
        ≡ calls c
      → MayCall min allow_scoped allow_secrets c
        × ((u : List ℕ × Role)
            → r.mcp_caller ≡ none
            → (session_user mac from64 decode io now r d).1 ≡ some u
            → (same_origin parse_host r ≡ true)
              × (c ≡ record { name = u.0; role = u.1; scope = none }))
  unfolding auth_with
  auth_with-MayCall min allow_scoped allow_secrets io readable now r d c e =
      elim (Option-cases r.mcp_caller) [
        | inr (k, is) ↦ (
          judged-MayCall min allow_scoped allow_secrets k c (ground arith),
          λ u gone _. absurd (ground arith),
        )
        | inl direct ↦ elim (Option-cases (session_user mac from64 decode io now r d).1) [
          | inl no_session ↦ (
            by_token-MayCall min allow_scoped allow_secrets readable r
                (session_user mac from64 decode io now r d).0 c (ground arith),
            λ u _ there. absurd (ground arith),
          )
          | inr (u, there) ↦
              let ok_origin : same_origin parse_host r ≡ true = ground arith in
              let ok_role : allows u.1 min ≡ true = ground arith in
              let is : record { name = u.0; role = u.1; scope = none } ≡ c = ground arith in
              (
                rw (← is) (
                  ok_role,
                  λ h. absurd (unfold secrets_only in ground arith),
                  λ h. absurd (ground arith),
                ),
                λ v _ there'.
                    let same_user : u ≡ v = ground arith in (ok_origin, rw (← same_user) (sym is)),
              )
        ]
      ]

  -- A token that is limited to some instances or secrets gets past no endpoint of `auth`; the sync of secrets
  -- lets through an unlimited deployer or admin, or a token for secrets; moving an instance lets through an
  -- admin, or a limited token of a deployer that is not for secrets.
  pub auth-gates :
      (min : Role) (io : Host) (readable : Bool) (now : ℕ) (r : Request) (d : Daemon) (c : Caller)
      → ((auth text parse_host hash_of mac from64 decode min io readable now r d).1 ≡ calls c
          → (is_scoped c.scope ≡ false) × (allows c.role min ≡ true))
        × ((auth_secret_sync text parse_host hash_of mac from64 decode io readable now r d).1
              ≡ calls c
            → (allows c.role deployer ≡ true)
              × ((secrets_only c.scope ≡ true) ⊎ (is_scoped c.scope ≡ false)))
        × ((auth_migrate text parse_host hash_of mac from64 decode io readable now r d).1 ≡ calls c
            → (secrets_only c.scope ≡ false)
              × ((allows c.role admin ≡ true)
                  ⊎ ((is_scoped c.scope ≡ true) × (allows c.role deployer ≡ true))))
  unfolding auth auth_secret_sync auth_migrate auth_scoped
  auth-gates min io readable now r d c = (
    λ e.
        let m = (auth_with-MayCall min false false io readable now r d c e).0 in
        (ground (arith, m), m.0),
    λ e.
        let (there, may) =
          only_if-calls may_sync
            (auth_with text parse_host hash_of mac from64 decode deployer true true io readable now
              r d).1
            c e in
        let m = (auth_with-MayCall deployer true true io readable now r d c there).0 in
        (m.0, sync_cases c may),
    λ e.
        let (there, may) =
          only_if-calls (λ c. not (not (is_scoped c.scope) && not (allows c.role admin)))
            (auth_with text parse_host hash_of mac from64 decode deployer true false io readable now
              r d).1
            c e in
        let m = (auth_with-MayCall deployer true false io readable now r d c there).0 in
        (ground (arith, m), migrate_cases c m.0 may),
  )
