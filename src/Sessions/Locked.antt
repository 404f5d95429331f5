-- ===== src/Sessions/Locked.antt =====
-- What a run of sign-ins comes to (handleLogin of pkg/server/auth.go).
use native_ops.Base.{
  ℕ, ◌+◌, ◌/◌, ◌≡◌, ◌≤◌, ◌<◌, refl, ap, ◌∙◌, arith, Bool, true, false, ◌&&◌, String, Option, none,
  some, List, [], ◌∷◌, ltb, length, if◌then◌else◌, ok, Option-cases, Result-cases, eq_refl, inl,
  inr,
}
use native_ops.Base.Dict.{lookup, lookup-erase}
use native_ops.Oauth.{second}
use native_ops.Throttle.{LoginThrottle, throttle_first, wait, fail, succeed}
use native_ops.Throttle.Waits.{fails, InARow, fails_locked}
use native_ops.Tokens.{valid_role}
use native_ops.Users.{User, empty}
use native_ops.Users.Store.{UserStore, Host, authenticate}
use native_ops.Sessions.{SessionToken, Payload, issue, verify, verify-issue}
use native_ops.Sessions.Gate.{Request, same_origin}
use native_ops.Sessions.Login.{
  SignIn, Desk, bad_login, too_many_attempts, signed_in, throttle_key, sign_in, handle_login,
}

-- sign-ins with the times at which they came, the latest first
abbrev pub times : List (ℕ × SignIn) → List ℕ
times [] = []
times (a ∷ earlier) = a.0 ∷ times earlier

module _ (text : List ℕ → String) (parse_host : String → Option String)
    (compare : List ℕ → List ℕ → Bool) (dummy_hash : List ℕ) (mac to64 : String → String)
    (encode : Payload → String) (r : Request) (io : Host) where
  unfoldable pub tried : List (ℕ × SignIn) → Desk → Desk
  tried [] d = d
  tried (a ∷ earlier) d =
      (handle_login text parse_host compare dummy_hash mac to64 encode r (some a.1) io a.0
        (tried earlier d)).0

  -- each of them was for one name, and was refused
  abbrev pub AllBad : String → List (ℕ × SignIn) → Desk → Type 0
  AllBad who [] d = Unit
  AllBad who (a ∷ earlier) d =
      ((handle_login text parse_host compare dummy_hash mac to64 encode r (some a.1) io a.0
          (tried earlier d)).1
        ≡ bad_login)
      × (throttle_key text a.1.username ≡ who)
      × AllBad who earlier d

  bad_login-fail :
      (b : SignIn) (now : ℕ) (d : Desk)
      → (handle_login text parse_host compare dummy_hash mac to64 encode r (some b) io now d).1
        ≡ bad_login
      → ((handle_login text parse_host compare dummy_hash mac to64 encode r
            (some b)
            io
            now
            d).0.logins
          ≡ fail (throttle_key text b.username) now d.logins)
        × (same_origin parse_host r ≡ true)
        × ((s : UserStore) × ((handle_login text parse_host compare dummy_hash mac to64 encode r
                (some b)
                io
                now
                d).0.users
              ≡ some s))
  unfolding handle_login sign_in
  bad_login-fail b now d e = elim (Option-cases d.users) [
    | inl off ↦ absurd (ground arith)
    | inr (store, there) ↦
        elim (Result-cases (authenticate compare dummy_hash io b.username b.password store).1) [
          | inr (u, good) ↦ absurd (ground arith)
          | inl (e', bad) ↦ (
            ground arith,
            ground arith,
            ((authenticate compare dummy_hash io b.username b.password store).0, ground arith),
          )
        ]
  ]

  tried-fails :
      (who : String) (tries : List (ℕ × SignIn)) (d : Desk)
      → AllBad who tries d
      → (tried tries d).logins ≡ fails who (times tries) d.logins
  unfolding tried fails
  tried-fails who [] d b = refl
  tried-fails who (a ∷ earlier) d b =
      let (count, _, _) = bad_login-fail a.1 a.0 (tried earlier d) b.0 in
      let ih = tried-fails who earlier d b.2 in count ∙ ground (arith, b.1, ih)

  turned_away :
      (next : SignIn) (io2 : Host) (at : ℕ) (d : Desk) (store : UserStore)
      → d.users ≡ some store
      → same_origin parse_host r ≡ true
      → (who : String) → throttle_key text next.username ≡ who
      → ltb 0 (wait who at d.logins) ≡ true
      → handle_login text parse_host compare dummy_hash mac to64 encode r (some next) io2 at d
        ≡ (d, too_many_attempts (wait who at d.logins))
  unfolding handle_login sign_in
  turned_away next io2 at d store there same_page who named waits =
      ground (arith, there, same_page, named, waits)

  -- When more than five sign-ins in a row for one name were refused, each within an hour of the one before,
  -- the next within half a minute of the last is turned away whatever its password is, the right one too: the
  -- password is not looked at, and neither the user store nor the count of failures changes. (At first the
  -- name has no failures, and the throttle has room.)
  pub handle_login_locked :
      (who : String) (now : ℕ) (b : SignIn) (earlier : List (ℕ × SignIn)) (d : Desk)
      → AllBad who ((now, b) ∷ earlier) d
      → lookup who d.logins ≡ none
      → length d.logins < 10000
      → InARow (now ∷ times earlier)
      → 5 ≤ length (times earlier)
      → (at : ℕ) (next : SignIn) (io2 : Host) → at < now + throttle_first
      → throttle_key text next.username ≡ who
      → let d' = tried ((now, b) ∷ earlier) d in
        handle_login text parse_host compare dummy_hash mac to64 encode r (some next) io2 at d'
        ≡ (d', too_many_attempts (wait who at d'.logins))
  unfolding tried
  handle_login_locked who now b earlier d bad new small row many at next io2 soon named =
      let (_, same_page, found) = bad_login-fail b now (tried earlier d) bad.0 in
      let (store, there) = found in
      let count = tried-fails who ((now, b) ∷ earlier) d bad in
      let locked = fails_locked who now (times earlier) d.logins at new small row many soon in
      let waits : ltb 0 (wait who at (tried ((now, b) ∷ earlier) d).logins) ≡ true =
        rw count locked in
      turned_away next io2 at (tried ((now, b) ∷ earlier) d) store there same_page who named waits

wait-succeed : (who : String) (at : ℕ) (t : LoginThrottle) → wait who at (succeed who t) ≡ 0
unfolding wait succeed
wait-succeed who at t = ground (arith, lookup-erase who who t, eq_refl who)

module _ (text : List ℕ → String) (parse_host : String → Option String)
    (compare : List ℕ → List ℕ → Bool) (dummy_hash : List ℕ) (mac to64 : String → String)
    (from64 : String → Option String) (encode : Payload → String)
    (decode : String → Option Payload) where
  -- Whoever is signed in came from the daemon's own page with a name that does not wait and a password that
  -- the user store takes, and the name's failures are forgotten. If the user has a name, the token stands for
  -- the user and the user's role until its time is over, in whole seconds, if the role is one that the daemon
  -- knows, and else for nobody. (`decode` has to undo `encode`, and `from64` to undo `to64`.)
  pub handle_login-signed_in :
      (r : Request) (b : SignIn) (io : Host) (now : ℕ) (d : Desk) (token : SessionToken) (u : User)
      → ((p : Payload) → decode (encode p) ≡ some p)
      → ((raw : String) → from64 (to64 raw) ≡ some raw)
      → (handle_login text parse_host compare dummy_hash mac to64 encode r (some b) io now d).1
        ≡ signed_in token u
      → let d' =
          (handle_login text parse_host compare dummy_hash mac to64 encode r (some b) io now d).0 in
        (same_origin parse_host r ≡ true)
        × (wait (throttle_key text b.username) now d.logins ≡ 0)
        × ((store : UserStore) × (d.users ≡ some store)
            × ((authenticate compare dummy_hash io b.username b.password store).1 ≡ ok u))
        × ((at : ℕ) → wait (throttle_key text b.username) at d'.logins ≡ 0)
        × ((at : ℕ)
            → empty u.username ≡ false
            → verify mac from64 decode token at ≡ (
                if ltb (at / second) ((now + d.sessions.ttl) / second) && valid_role u.role
                then some (u.username, u.role)
                else none))
  unfolding handle_login sign_in
  handle_login-signed_in r b io now d token u inverse undoes e = elim (Option-cases d.users) [
    | inl off ↦ absurd (ground arith)
    | inr (store, there) ↦
        elim (Result-cases (authenticate compare dummy_hash io b.username b.password store).1) [
          | inl (e', bad) ↦ absurd (ground arith)
          | inr (v, good) ↦
              let is : v ≡ u = ground arith in
              let t : issue mac to64 encode d.sessions v.username v.role now ≡ token =
                ground arith in
              (
                ground arith,
                ground arith,
                (store, there, good ∙ ap ok is),
                λ at.
                    let gone = wait-succeed (throttle_key text b.username) at d.logins in
                    ground (arith, gone),
                λ at named.
                    let looks =
                      (verify-issue mac to64 from64 encode decode d.sessions u.username u.role now
                        at inverse undoes named).0 in
                    rw (← t, is) looks,
              )
        ]
  ]
