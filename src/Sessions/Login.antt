-- ===== src/Sessions/Login.antt =====
-- Signing in with a password (handleLogin and handleLogout of pkg/server/auth.go): the throttle of failed
-- sign-ins, the user store and the sessions together.
-- `text` is the text of a list of bytes. The audit log is left out.
use native_ops.Base.{ℕ, Bool, not, String, Option, none, some, List, ltb, if◌then◌else◌, ok, err}
use native_ops.Throttle.{LoginThrottle, wait, fail, succeed}
use native_ops.Users.{User, key}
use native_ops.Users.Store.{UserStore, Host, authenticate, touch_login}
use native_ops.Sessions.{SessionToken, Payload, Sessions, issue}
use native_ops.Sessions.Gate.{Request, same_origin}

pub record SignIn : Type 0 where
  pub username : List ℕ
  pub password : List ℕ

pub record Desk : Type 0 where
  pub users : Option UserStore
  pub sessions : Sessions
  pub logins : LoginThrottle

pub data LoginAnswer : Type 0 where
  signin_off cross_origin bad_body bad_login : LoginAnswer
  too_many_attempts : ℕ → LoginAnswer
  signed_in : SessionToken → User → LoginAnswer

module _ (text : List ℕ → String) where
  -- `throttleKey`
  unfoldable pub throttle_key : List ℕ → String
  throttle_key username = text (key username)

module _ (text : List ℕ → String) (parse_host : String → Option String)
    (compare : List ℕ → List ℕ → Bool) (dummy_hash : List ℕ) (mac to64 : String → String)
    (encode : Payload → String) where
  -- the sign-in, once the request was read
  unfoldable pub sign_in : SignIn → Host → ℕ → UserStore → Desk → Desk × LoginAnswer
  unfolding throttle_key wait authenticate fail succeed issue touch_login
  sign_in body io now store d =
      let who = throttle_key text body.username in
      if ltb 0 (wait who now d.logins)
      then (d, too_many_attempts (wait who now d.logins))
      else (let (store1, answer) =
            authenticate compare dummy_hash io body.username body.password store in
          elim answer [
            | err e ↦ (record d { users = some store1; logins = fail who now d.logins }, bad_login)
            | ok u ↦ (
              record d {
                users = some (touch_login io u.username store1).0;
                logins = succeed who d.logins;
              },
              signed_in (issue mac to64 encode d.sessions u.username u.role now) u,
            )
          ])

  -- `handleLogin`; a body that is not JSON is none
  unfoldable pub handle_login : Request → Option SignIn → Host → ℕ → Desk → Desk × LoginAnswer
  unfolding sign_in same_origin
  handle_login r body io now d = elim d.users [
    | none ↦ (d, signin_off)
    | some store ↦
        if not (same_origin parse_host r)
        then (d, cross_origin)
        else elim body [ none ↦ (d, bad_body) | some b ↦ sign_in b io now store d ]
  ]
