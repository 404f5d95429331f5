-- ===== src/Oauth/Revoked.antt =====
-- Grants after a call of `Revoke`, and `VerifyAccess` on their tokens (pkg/server/oauth.go).
use native_ops.Base.{
  ℕ, ◌≡◌, ◌≢◌, inl, inr, refl, arith, String, Bool, Option, none, some, List, [], ◌∷◌, ◌++◌, All,
  str_eq, eq_iff, Option-cases, Bool-cases,
}
use native_ops.Base.Dict.{lookup}
use native_ops.Oauth.{OauthGrant, OauthStore, find_client, saved}
use native_ops.Oauth.Registration.{register_client}
use native_ops.Oauth.Exchange.{new_code, exchange_code, new_grant}
use native_ops.Oauth.Refresh.{
  refresh_token, revoke, revoke_refresh, without_first, Answer, unknown, denied, replayed, rotated,
  behind, scan,
}
use native_ops.Oauth.Access.{AccessToken, verify_access, touch, find_grant, touch_lem, used_at}
use native_ops.Oauth.Codes.{
  OauthCall, registered, gave_code, exchanged, refreshed, revoked, revoked_token, verified, call,
  calls,
}

abbrev pub NoGrant : String → List OauthGrant → Type 0
NoGrant id gs = All (λ g. g.id ≢ id) gs

-- no identifier has two grants
abbrev pub Separate : List OauthGrant → Type 0
Separate [] = Unit
Separate (g ∷ gs) = NoGrant g.id gs × Separate gs

without_first-NoGrant :
    (id : String) (gs : List OauthGrant)
    → Separate gs
    → ((without_first (λ g. str_eq g.id id) gs ≡ none) → NoGrant id gs)
      × ((left : List OauthGrant)
          → without_first (λ g. str_eq g.id id) gs ≡ some left
          → NoGrant id left)
unfolding without_first
without_first-NoGrant id [] d = (λ h. tt, λ left h. absurd (ground arith))
without_first-NoGrant id (g ∷ gs) d = elim (Bool-cases (str_eq g.id id)) [
  | inl same ↦ (
    λ h. absurd (ground arith),
    λ left h.
        let here : g.id ≡ id = ground (arith, eq_iff g.id id) in
        let is : gs ≡ left = ground arith in rw (← is) (rw (← here) d.0),
  )
  | inr other ↦
      let ih = without_first-NoGrant id gs d.1 in
      let apart : g.id ≢ id = ground (arith, eq_iff g.id id) in
      elim (Option-cases (without_first (λ x. str_eq x.id id) gs)) [
        | inl e ↦ (λ h. (apart, ih.0 e), λ left h. absurd (ground arith))
        | inr (rest, e) ↦ (
          λ h. absurd (ground arith),
          λ left h. let is : g ∷ rest ≡ left = ground arith in rw (← is) (apart, ih.1 rest e),
        )
      ]
]

without_first-keeps :
    (id : String) (p : OauthGrant → Bool) (gs left : List OauthGrant)
    → NoGrant id gs
    → without_first p gs ≡ some left
    → NoGrant id left
unfolding without_first
without_first-keeps id p [] left n h = absurd (ground arith)
without_first-keeps id p (g ∷ gs) left n h = elim (Bool-cases (p g)) [
  | inl yes' ↦ let is : gs ≡ left = ground arith in rw (← is) n.1
  | inr no' ↦ elim (Option-cases (without_first p gs)) [
    | inl e ↦ absurd (ground arith)
    | inr (rest, e) ↦
        let is : g ∷ rest ≡ left = ground arith in
        rw (← is) (n.0, without_first-keeps id p gs rest n.1 e)
  ]
]

abbrev Keeps : String → Answer → Type 0
Keeps id unknown = Unit
Keeps id denied = Unit
Keeps id (replayed gs) = NoGrant id gs
Keeps id (rotated g gs) = NoGrant id gs

behind-Keeps :
    (id : String) (g : OauthGrant) (r : Answer) → g.id ≢ id → Keeps id r → Keeps id (behind g r)
behind-Keeps id g unknown n k = tt
behind-Keeps id g denied n k = tt
behind-Keeps id g (replayed gs) n k = (n, k)
behind-Keeps id g (rotated x gs) n k = (n, k)

scan-Keeps :
    (id h client next : String) (now : ℕ) (gs : List OauthGrant)
    → NoGrant id gs
    → Keeps id (scan h client now next gs)
unfolding scan
scan-Keeps id h client next now [] n = tt
scan-Keeps id h client next now (g ∷ gs) n = ground (
  arith,
  behind-Keeps id g (scan h client now next gs) n.0 (scan-Keeps id h client next now gs n.1),
)

append-NoGrant :
    (id : String) (gs : List OauthGrant) (g : OauthGrant)
    → NoGrant id gs
    → g.id ≢ id
    → NoGrant id (gs ++ g ∷ [])
append-NoGrant id [] g n k = (k, tt)
append-NoGrant id (x ∷ xs) g n k = (n.0, append-NoGrant id xs g n.1 k)

find_grant-NoGrant : (id : String) (gs : List OauthGrant) → NoGrant id gs → find_grant id gs ≡ none
unfolding find_grant
find_grant-NoGrant id [] n = refl
find_grant-NoGrant id (g ∷ gs) n = ground (arith, eq_iff g.id id, n.0, find_grant-NoGrant id gs n.1)

touch-NoGrant :
    (id other : String) (now : ℕ) (gs gs' : List OauthGrant) (g : OauthGrant)
    → NoGrant id gs
    → touch other now gs ≡ some (g, gs')
    → NoGrant id gs'
unfolding touch
touch-NoGrant id other now [] gs' g n h = absurd (ground arith)
touch-NoGrant id other now (x ∷ xs) gs' g n h = elim (Bool-cases (str_eq x.id other)) [
  | inl same ↦
      let is : used_at now x ∷ xs ≡ gs' = ground arith in rw (← is) (ground (arith, n.0), n.1)
  | inr differs ↦ elim (Option-cases (touch other now xs)) [
    | inl e ↦ absurd (ground arith)
    | inr (found, e) ↦
        let is : x ∷ found.1 ≡ gs' = ground arith in
        rw (← is) (n.0, touch-NoGrant id other now xs found.1 found.0 n.1 e)
  ]
]

module _ (hash_of pkce mac : String → String) (decode : String → Option (String × ℕ)) where
  -- no exchange makes a new grant of this identifier
  abbrev pub NotIssued : String → List OauthCall → Type 0
  NotIssued id [] = Unit
  NotIssued id (exchanged code client uri verifier new refresh now wrote ∷ cs) =
      (new ≢ id) × NotIssued id cs
  NotIssued id (_ ∷ cs) = NotIssued id cs

  scanned :
      (id refresh client next : String) (now : ℕ) (wrote : Bool) (s : OauthStore) (r : Answer)
      → scan (hash_of refresh) client now (hash_of next) s.grants ≡ r
      → NoGrant id s.grants
      → Keeps id r
      → NoGrant id (refresh_token hash_of refresh client next now wrote s).0.grants
  unfolding refresh_token saved
  scanned id refresh client next now wrote s unknown e n k = ground arith
  scanned id refresh client next now wrote s denied e n k = ground arith
  scanned id refresh client next now wrote s (replayed gs) e n k = ground arith
  scanned id refresh client next now wrote s (rotated g gs) e n k = ground arith

  call-NoGrant :
      (id : String) (c : OauthCall) (cs : List OauthCall) (s : OauthStore)
      → NotIssued id (c ∷ cs)
      → NoGrant id s.grants
      → NoGrant id (call hash_of pkce mac decode c s).grants × NotIssued id cs
  unfolding call
  call-NoGrant id (registered parse name redirects at now wrote) cs s i n =
      unfold register_client saved in ground arith
  call-NoGrant id (gave_code raw c now) cs s i n = unfold new_code in (n, i)
  call-NoGrant id (exchanged code client uri verifier new refresh now wrote) cs s i n =
      unfold exchange_code saved new_grant in
      elim (Option-cases (lookup code s.codes)) [
        | inl e ↦ ground arith
        | inr (c, e) ↦ elim (Option-cases (find_client client s.clients)) [
          | inl e2 ↦ ground arith
          | inr (known, e2) ↦
              let g = new_grant hash_of c known new refresh now in
              ground (arith, append-NoGrant id s.grants g n (unfold new_grant in i.0))
        ]
      ]
  call-NoGrant id (refreshed refresh client next now wrote) cs s i n = (
    scanned id refresh client next now wrote s _ refl n
        (scan-Keeps id (hash_of refresh) client (hash_of next) now s.grants n),
    i,
  )
  call-NoGrant id (revoked other wrote) cs s i n =
      unfold revoke saved in
      elim (Option-cases (without_first (λ g. str_eq g.id other) s.grants)) [
        | inl e ↦ ground arith
        | inr (left, e) ↦
            ground (arith, without_first-keeps id (λ g. str_eq g.id other) s.grants left n e)
      ]
  call-NoGrant id (revoked_token refresh wrote) cs s i n =
      let p : OauthGrant → Bool = λ g. str_eq g.refresh_hash (hash_of refresh) in
      unfold revoke_refresh saved in
      elim (Option-cases (without_first p s.grants)) [
        | inl e ↦ ground arith
        | inr (left, e) ↦ ground (arith, without_first-keeps id p s.grants left n e)
      ]
  call-NoGrant id (verified token now wrote) cs s i n =
      unfold verify_access saved in
      elim (Option-cases (decode token.body)) [
        | inl e ↦ ground arith
        | inr (p, e) ↦ elim (Option-cases (touch p.0 now s.grants)) [
          | inl e2 ↦ ground arith
          | inr (found, e2) ↦ ground (arith, touch-NoGrant id p.0 now s.grants found.1 found.0 n e2)
        ]
      ]

  calls-NoGrant :
      (id : String) (cs : List OauthCall) (s : OauthStore)
      → NotIssued id cs
      → NoGrant id s.grants
      → NoGrant id (calls hash_of pkce mac decode cs s).grants
  unfolding calls
  calls-NoGrant id [] s i n = n
  calls-NoGrant id (c ∷ cs) s i n =
      let (kept, rest) = call-NoGrant id c cs s i n in
      calls-NoGrant id cs (call hash_of pkce mac decode c s) rest kept

  -- When a grant is revoked, and no two grants have one identifier: whatever is called on the running daemon
  -- after that, no access token of the grant stands for anything, also if the file could not be written,
  -- unless a new grant of its identifier is made. (A daemon that starts again reads the file, and is not
  -- among the calls.)
  pub revoke_for_good :
      (id : String) (wrote : Bool) (cs : List OauthCall) (s : OauthStore) (token : AccessToken)
      (exp now : ℕ) (wrote2 : Bool)
      → Separate s.grants
      → NotIssued id cs
      → decode token.body ≡ some (id, exp)
      → (verify_access mac decode token now wrote2
          (calls hash_of pkce mac decode cs (revoke id wrote s).0)).1
        ≡ none
  revoke_for_good id wrote cs s token exp now wrote2 d i e =
      let (absent, left) = without_first-NoGrant id s.grants d in
      let gone : NoGrant id (revoke id wrote s).0.grants =
        unfold revoke saved in
        elim (Option-cases (without_first (λ g. str_eq g.id id) s.grants)) [
          | inl none_there ↦ ground (arith, absent none_there)
          | inr (rest, found) ↦ ground (arith, left rest found)
        ] in
      let after = calls hash_of pkce mac decode cs (revoke id wrote s).0 in
      let still = calls-NoGrant id cs (revoke id wrote s).0 i gone in
      let missing = (touch_lem id now after.grants).0 (find_grant-NoGrant id after.grants still) in
      unfold verify_access in ground (arith, missing, e)
