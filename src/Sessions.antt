-- ===== src/Sessions.antt =====
-- The signed cookie of a person who is signed in (pkg/server/sessions.go, and currentSession of
-- pkg/server/server.go).
-- A token stands cut at its dot. `mac` is the keyed HMAC; `to64` and `from64` are base64, which has no dot
-- and may read the same bytes from several texts; `encode` and `decode` are JSON in base64.
pub mod Gate
pub mod Current
pub mod Login
pub mod Locked
pub mod Guarded
mod Tests
use native_ops.Base.{
  ℕ, ◌+◌, ◌*◌, ◌/◌, ◌≡◌, refl, arith, Bool, true, false, not, ◌&&◌, ◌||◌, String, Option, none,
  some, List, [], ◌∷◌, ltb, leb, ◌==◌, str_eq, eq_refl, if◌then◌else◌, ok, err, Bool-cases,
  Option-cases, eq_iff, inl, inr,
}
use native_ops.Oauth.{second}
use native_ops.Tokens.{Role, valid_role}
use native_ops.Users.{empty, User, find}
use native_ops.Users.Store.{UserStore, Host, get, reload}

pub record SessionToken : Type 0 where
  pub body : String
  pub sig : String

pub record Payload : Type 0 where
  pub username : List ℕ
  pub role : Role
  pub exp : ℕ

pub record Sessions : Type 0 where
  pub ttl : ℕ
  pub secure : Bool

abbrev pub default_ttl : ℕ
default_ttl = 12 * 3600 * second

-- `NewSessions`, with a key of so many bytes; a time of 0 stands for every time that is not positive
unfoldable pub new_sessions : ℕ → ℕ → Bool → Option Sessions
new_sessions key_length ttl secure =
    if ltb key_length 16
    then none
    else some (record { ttl = if ttl == 0 then default_ttl else ttl; secure = secure })

module _ (mac to64 : String → String) (encode : Payload → String) where
  -- `Issue`
  unfoldable pub issue : Sessions → List ℕ → Role → ℕ → SessionToken
  issue s username role now =
      let body =
        encode (record { username = username; role = role; exp = (now + s.ttl) / second }) in
      record { body = body; sig = to64 (mac body) }

module _ (mac : String → String) (from64 : String → Option String)
    (decode : String → Option Payload) where
  -- `Verify`
  unfoldable pub verify : SessionToken → ℕ → Option (List ℕ × Role)
  verify token now = elim (from64 token.sig) [
    | none ↦ none
    | some raw ↦ if not (str_eq raw (mac token.body)) then none else elim (decode token.body) [
      | none ↦ none
      | some p ↦
          if leb p.exp (now / second) || (not (valid_role p.role) || empty p.username)
          then none
          else some (p.username, p.role)
    ]
  ]

  -- `FromRequest`: no cookie is none
  unfoldable pub from_request : Option SessionToken → ℕ → Option (List ℕ × Role)
  unfolding verify
  from_request none now = none
  from_request (some token) now = verify token now

  -- `currentSession`; a daemon without a user store takes the cookie's word
  unfoldable pub current_session :
      Host → Option SessionToken → ℕ → Option UserStore → Option UserStore × Option (List ℕ × Role)
  unfolding from_request get valid_role
  current_session io cookie now users = elim (from_request cookie now) [
    | none ↦ (users, none)
    | some who ↦ elim users [
      | none ↦ (none, some who)
      | some store ↦
          let (store1, answer) = get io who.0 store in
          (
            some store1,
            elim answer [
              | err e ↦ none
              | ok none ↦ none
              | ok (some u) ↦
                  if u.disabled || not (valid_role u.role) then none else some (u.username, u.role)
            ],
          )
    ]
  ]

module _ (mac to64 : String → String) (from64 : String → Option String) (encode : Payload → String)
    (decode : String → Option Payload) where
  verify_issued :
      (s : Sessions) (username : List ℕ) (role : Role) (signed now : ℕ)
      → ((p : Payload) → decode (encode p) ≡ some p)
      → ((raw : String) → from64 (to64 raw) ≡ some raw)
      → empty username ≡ false
      → verify mac from64 decode (issue mac to64 encode s username role signed) now ≡ (
          if ltb (now / second) ((signed + s.ttl) / second) && valid_role role
          then some (username, role)
          else none)
  unfolding verify issue
  verify_issued s username role signed now inverse undoes named =
      let p : Payload = record {
        username = username;
        role = role;
        exp = (signed + s.ttl) / second;
      } in
      ground (arith, inverse p, undoes (mac (encode p)), eq_refl (mac (encode p)))

  verify-ok :
      (t : SessionToken) (who : List ℕ × Role) (now : ℕ)
      → verify mac from64 decode t now ≡ some who
      → (from64 t.sig ≡ some (mac t.body))
        × ((p : Payload) × (decode t.body ≡ some p)
            × (ltb (now / second) p.exp ≡ true)
            × (valid_role p.role ≡ true)
            × ((p.username, p.role) ≡ who))
  unfolding verify
  verify-ok t who now h = elim (Option-cases (from64 t.sig)) [
    | inl bad ↦ absurd (ground (arith, bad))
    | inr (raw, read) ↦ elim (Option-cases (decode t.body)) [
      | inl e ↦ absurd (ground (arith, e, read))
      | inr (p, e) ↦
          let is = (eq_iff raw (mac t.body)).0 in
          (
            ground (arith, read, e, is),
            (p, e, ground (arith, read, e), ground (arith, read, e), ground (arith, read, e)),
          )
    ]
  ]

  -- A session that was issued to a user who has a name stands for that user and role until its time is
  -- over, in whole seconds, if the role is one that the daemon knows; and whatever text stands for somebody,
  -- its signature is base64 of the MAC of its body, and its time is not over. (`decode` has to undo `encode`,
  -- and `from64` to undo `to64`.)
  pub verify-issue :
      (s : Sessions) (username : List ℕ) (role : Role) (signed now : ℕ)
      → ((p : Payload) → decode (encode p) ≡ some p)
      → ((raw : String) → from64 (to64 raw) ≡ some raw)
      → empty username ≡ false
      → (verify mac from64 decode (issue mac to64 encode s username role signed) now ≡ (
          if ltb (now / second) ((signed + s.ttl) / second) && valid_role role
          then some (username, role)
          else none))
        × ((t : SessionToken) (who : List ℕ × Role)
            → verify mac from64 decode t now ≡ some who
            → (from64 t.sig ≡ some (mac t.body))
              × ((p : Payload) × (decode t.body ≡ some p)
                  × (ltb (now / second) p.exp ≡ true)
                  × (valid_role p.role ≡ true)
                  × ((p.username, p.role) ≡ who)))
  verify-issue s username role signed now inverse undoes named = (
    verify_issued s username role signed now inverse undoes named,
    λ t who h. verify-ok t who now h,
  )
