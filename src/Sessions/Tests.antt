-- ===== src/Sessions/Tests.antt =====
-- A person who signs in, fails to and is disabled, and the theorems at concrete inputs.
use Prim.Native.Char.{code}
use native_ops.Base.{
  ℕ, zero, suc, ◌+◌, ◌*◌, ◌/◌, ◌≡◌, ◌≢◌, refl, arith, String, codes, Bool, true, false, ◌&&◌,
  Option, none, some, List, [], ◌∷◌, ◌==◌, ltb, str_append, drop, if◌then◌else◌, ok,
}
use native_ops.Base.Bytes.{same}
use native_ops.Oauth.{second}
use native_ops.Tokens.{
  Role, viewer, planner, deployer, admin, other, allows, valid_role, rank, secrets_only,
}
use native_ops.Tokens.Store.{TokenStore}
use native_ops.Throttle.{wait, fail, state_at, failed_at, wait_after, doubled}
use native_ops.Base.Dict.{lookup, insert}
use native_ops.Users.{User, empty, key, find, first}
use native_ops.Users.Store.{
  UserStore, Host, new_local, shown, authenticate, set_disabled, set_role, change, change_in,
  reload, save, store_users,
}
use native_ops.Users.Passwords.{read_users}
use native_ops.Sessions.{
  SessionToken, Payload, Sessions, issue, verify, from_request, current_session, verify-issue,
}
use native_ops.Sessions.Gate.{
  Caller, Request, Daemon, other_method, calls, auth_with, session_user, same_origin, judged,
  secrets_only_refused,
}
use native_ops.Sessions.Login.{
  SignIn, Desk, bad_login, too_many_attempts, signed_in, throttle_key, sign_in, handle_login,
}
use native_ops.Sessions.Current.{admitted, set_disabled-current_session}
use native_ops.Sessions.Guarded.{MayCall, auth_with-MayCall}
use native_ops.Sessions.Locked.{tried, handle_login_locked, handle_login-signed_in}

-- numbers as a text: each in unary, with a dot after it
unary : ℕ → String → String
unary zero s = String.◌∷◌ "." s
unary (suc n) s = String.◌∷◌ "x" (unary n s)

pack : List ℕ → String
unfolding unary
pack [] = ""
pack (n ∷ ns) = unary n (pack ns)

bump : List ℕ → List ℕ
bump [] = []
bump (n ∷ ns) = suc n ∷ ns

unpack : String → List ℕ
unfolding bump
unpack String.[] = []
unpack (String.◌∷◌ c s) = let rest = unpack s in if code c == b'.' then 0 ∷ rest else bump rest

unpack-unary : (n : ℕ) (s : String) → unpack (unary n s) ≡ n ∷ unpack s
unfolding unpack unary bump
unpack-unary zero s = refl
unpack-unary (suc n) s = rw (unpack-unary n s) refl

unpack-pack : (ns : List ℕ) → unpack (pack ns) ≡ ns
unfolding pack unpack
unpack-pack [] = refl
unpack-pack (n ∷ ns) = rw (unpack-unary n (pack ns), unpack-pack ns) refl

role_of : ℕ → Role
role_of (suc zero) = viewer
role_of (suc (suc zero)) = planner
role_of (suc (suc (suc zero))) = deployer
role_of (suc (suc (suc (suc zero)))) = admin
role_of _ = other

encoded : Payload → String
unfolding pack rank
encoded p = pack (p.exp ∷ rank p.role ∷ p.username)

payload : List ℕ → Option Payload
unfolding role_of
payload (e ∷ r ∷ name) = some (record { username = name; role = role_of r; exp = e })
payload _ = none

decoded : String → Option Payload
unfolding payload unpack
decoded s = payload (unpack s)

payload-rank :
    (e : ℕ) (r : Role) (name : List ℕ)
    → payload (e ∷ rank r ∷ name) ≡ some (record { username = name; role = r; exp = e })
unfolding payload rank role_of
payload-rank e viewer name = refl
payload-rank e planner name = refl
payload-rank e deployer name = refl
payload-rank e admin name = refl
payload-rank e other name = refl

decoded-encoded : (p : Payload) → decoded (encoded p) ≡ some p
unfolding decoded encoded
decoded-encoded p =
    rw (unpack-pack (p.exp ∷ rank p.role ∷ p.username)) (payload-rank p.exp p.role p.username)

-- base64 changes no text here
abbrev to64 : String → String
to64 raw = raw

abbrev from64 : String → Option String
from64 t = some t

abbrev mac : String → String
mac t = str_append "#" t

abbrev no_host : String → Option String
no_host o = none

abbrev compared : List ℕ → List ℕ → Bool
compared h pw = same h (b'#' ∷ pw)

abbrev dummy : List ℕ
dummy = codes "#native-ops-dummy-password"

abbrev pw : List ℕ
pw = codes "correct horse"

abbrev host : Host
host = record { readable = true; wrote = true; version = 2; now = 50 }

abbrev ann : User
ann = new_local (codes "ann") (codes "Ann") deployer (b'#' ∷ pw) 10

abbrev one_user : UserStore
one_user = record { users = ann ∷ []; loaded = some 1; disk = some (1, ann ∷ []) }

abbrev half_day : Sessions
half_day = record { ttl = 12 * second; secure = true }

verify-issue_example :
    (verify mac from64 decoded (issue mac to64 encoded half_day (codes "ann") deployer 5) 6 ≡ (
      if ltb (6 / second) ((5 + half_day.ttl) / second) && valid_role deployer
      then some (codes "ann", deployer)
      else none))
    × ((t : SessionToken) (who : List ℕ × Role)
        → verify mac from64 decoded t 6 ≡ some who
        → (from64 t.sig ≡ some (mac t.body))
          × ((p : Payload) × (decoded t.body ≡ some p)
              × (ltb (6 / second) p.exp ≡ true)
              × (valid_role p.role ≡ true)
              × ((p.username, p.role) ≡ who)))
verify-issue_example =
    verify-issue mac to64 from64 encoded decoded half_day (codes "ann") deployer 5 6 decoded-encoded
      (λ _. refl) refl

abbrev cookie : Option SessionToken
cookie = some (issue mac to64 encoded half_day (codes "ann") viewer 5)

cookie_good : from_request mac from64 decoded cookie 6 ≡ some (codes "ann", viewer)
unfolding from_request verify issue decoded encoded pack unary unpack bump payload role_of rank
    valid_role
cookie_good = refl

disabled : (set_disabled host (codes "ann") true one_user).1 ≡ none
unfolding set_disabled change change_in reload find first store_users save
disabled = refl

set_disabled-current_session_example :
    let answer =
      (current_session mac from64 decoded host cookie 6
        (some (set_disabled host (codes "ann") true one_user).0)).1 in
    (key (codes "ann") ≡ key (codes "ann") → answer ≡ none)
    × (key (codes "ann") ≢ key (codes "ann")
        → answer ≡ admitted (find (codes "ann") (read_users host one_user)))
set_disabled-current_session_example =
    set_disabled-current_session mac from64 decoded host (codes "ann") one_user disabled host cookie
      6 (codes "ann", viewer) cookie_good

promoted : (set_role host (codes "ann") admin one_user).1 ≡ none
unfolding set_role change change_in reload find first store_users save valid_role
promoted = refl

-- a tool of an agent that acts for a deployer
abbrev agent : Caller
agent = record { name = codes "ann"; role = deployer; scope = none }

abbrev request : Request
request = record {
  mcp_caller = some agent;
  cookie = none;
  method = other_method;
  fetch_site = "";
  origin = "";
  host = "ops";
  authorization = [];
}

abbrev no_tokens : TokenStore
no_tokens = record { tokens = []; loaded = none; bootstrap = none; disk = none }

abbrev daemon : Daemon
daemon = record { sessions = some half_day; users = some one_user; tokens = no_tokens }

abbrev as_text : List ℕ → String
as_text s = pack s

agent_passes :
    (auth_with as_text no_host mac mac from64 decoded planner true false host true 6 request
      daemon).1
    ≡ calls agent
unfolding auth_with judged allows rank secrets_only_refused secrets_only
agent_passes = refl

auth_with-MayCall_example :
    MayCall planner true false agent
    × ((u : List ℕ × Role)
        → request.mcp_caller ≡ none
        → (session_user mac from64 decoded host 6 request daemon).1 ≡ some u
        → (same_origin no_host request ≡ true)
          × (agent ≡ record { name = u.0; role = u.1; scope = none }))
auth_with-MayCall_example =
    auth_with-MayCall as_text no_host mac mac from64 decoded planner true false host true 6 request
      daemon agent agent_passes

abbrev desk : Desk
desk = record { users = some one_user; sessions = half_day; logins = [] }

abbrev page : Request
page = record request { mcp_caller = none; fetch_site = "same-origin" }

abbrev guess : SignIn
guess = record { username = codes "Ann "; password = codes "open sesame" }

abbrev right : SignIn
right = record { username = codes "ann"; password = pw }

abbrev guesses : List (ℕ × SignIn)
guesses = (5, guess) ∷ (4, guess) ∷ (3, guess) ∷ (2, guess) ∷ (1, guess) ∷ []

abbrev AnsweredBad : ℕ → List (ℕ × SignIn) → Type 0
AnsweredBad now earlier =
    (handle_login as_text no_host compared dummy mac to64 encoded page (some guess) host now
      (tried as_text no_host compared dummy mac to64 encoded page host earlier desk)).1
    ≡ bad_login

-- all six are refused
bad :
    AnsweredBad 6 guesses
    × AnsweredBad 5 (drop 1 guesses)
    × AnsweredBad 4 (drop 2 guesses)
    × AnsweredBad 3 (drop 3 guesses)
    × AnsweredBad 2 (drop 4 guesses)
    × AnsweredBad 1 []
unfolding pack unary handle_login sign_in same_origin throttle_key wait fail state_at failed_at
    wait_after doubled lookup insert authenticate reload find first tried
bad = (refl, refl, refl, refl, refl, refl)

abbrev who : String
who = throttle_key as_text (codes "ann")

named : throttle_key as_text guess.username ≡ who
unfolding throttle_key
named = refl

handle_login_locked_example :
    let d' =
      tried as_text no_host compared dummy mac to64 encoded page host ((6, guess) ∷ guesses) desk in
    handle_login as_text no_host compared dummy mac to64 encoded page (some right) host 7 d'
    ≡ (d', too_many_attempts (wait who 7 d'.logins))
handle_login_locked_example =
    handle_login_locked as_text no_host compared dummy mac to64 encoded page host who 6 guess
      guesses desk
      (
        bad.0,
        named,
        (bad.1, named, (bad.2, named, (bad.3, named, (bad.4, named, (bad.5, named, tt))))),
      )
      (unfold lookup in refl) (omega arith)
      (omega arith, (omega arith, (omega arith, (omega arith, (omega arith, tt))))) (omega arith) 7
      right host (omega arith) refl

abbrev signed : SessionToken
signed = issue mac to64 encoded half_day (codes "ann") deployer 7

let_in :
    (handle_login as_text no_host compared dummy mac to64 encoded page (some right) host 7 desk).1
    ≡ signed_in signed (shown ann)
unfolding handle_login sign_in same_origin throttle_key wait lookup authenticate reload find first
let_in = refl

handle_login-signed_in_example :
    let d' =
      (handle_login as_text no_host compared dummy mac to64 encoded page
        (some right)
        host
        7
        desk).0 in
    (same_origin no_host page ≡ true)
    × (wait (throttle_key as_text right.username) 7 desk.logins ≡ 0)
    × ((store : UserStore) × (desk.users ≡ some store)
        × ((authenticate compared dummy host right.username right.password store).1
            ≡ ok (shown ann)))
    × ((at : ℕ) → wait (throttle_key as_text right.username) at d'.logins ≡ 0)
    × ((at : ℕ)
        → empty (shown ann).username ≡ false
        → verify mac from64 decoded signed at ≡ (
            if ltb (at / second) ((7 + desk.sessions.ttl) / second) && valid_role (shown ann).role
            then some ((shown ann).username, (shown ann).role)
            else none))
handle_login-signed_in_example =
    handle_login-signed_in as_text no_host compared dummy mac to64 from64 encoded decoded page right
      host 7 desk signed (shown ann) decoded-encoded (λ _. refl) let_in
