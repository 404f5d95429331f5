-- ===== src/Oauth/Rotation.antt =====
-- Refresh tokens, current and spent (`Refresh` of pkg/server/oauth.go).
use native_ops.Base.{ℕ, ◌+◌, ◌≤◌, ◌≡◌, ◌≢◌, refl, arith, String, Bool, length, All, ok, err}
use native_ops.Base.Sort.{Member}
use native_ops.Oauth.{OauthGrant, OauthStore, invalid_grant, saved}
use native_ops.Oauth.Refresh.{
  Answer, unknown, denied, replayed, rotated, renewed, scan, refresh_token,
}
use native_ops.Oauth.Scan.{Unrelated, scan_unknown, scan-replayed, scan-Member}

module _ (hash_of : String → String) where
  -- A refresh that succeeds: some grant had this very token as its current one, is this client's and had
  -- not expired; the answer is that grant with the new token, a new expiry and the old token as its spent
  -- one; it is among the grants, which are as many as before.
  pub refresh_token-ok :
      (refresh client next : String) (now : ℕ) (wrote : Bool) (s : OauthStore) (g : OauthGrant)
      → (refresh_token hash_of refresh client next now wrote s).1 ≡ ok g
      → (old : OauthGrant) × (Member old s.grants)
        × (Member g (refresh_token hash_of refresh client next now wrote s).0.grants)
        × ((old.refresh_hash ≡ hash_of refresh)
            × (old.client_id ≡ client)
            × (now ≤ old.refresh_expires))
        × (g ≡ renewed (hash_of next) now old)
        × (length (refresh_token hash_of refresh client next now wrote s).0.grants
            ≡ length s.grants)
  refresh_token-ok refresh client next now wrote s g h =
      go (scan (hash_of refresh) client now (hash_of next) s.grants) refl
    where
      go :
          (r : Answer)
          → scan (hash_of refresh) client now (hash_of next) s.grants ≡ r
          → (old : OauthGrant) × (Member old s.grants)
            × (Member g (refresh_token hash_of refresh client next now wrote s).0.grants)
            × ((old.refresh_hash ≡ hash_of refresh)
                × (old.client_id ≡ client)
                × (now ≤ old.refresh_expires))
            × (g ≡ renewed (hash_of next) now old)
            × (length (refresh_token hash_of refresh client next now wrote s).0.grants
                ≡ length s.grants)
      go unknown e = unfold refresh_token in absurd (ground arith)
      go denied e = unfold refresh_token in absurd (ground arith)
      go (replayed gs) e = unfold refresh_token in absurd (ground arith)
      go (rotated g' gs) e =
          let same : g' ≡ g = unfold refresh_token in ground arith in
          let left : (refresh_token hash_of refresh client next now wrote s).0.grants ≡ gs =
            unfold refresh_token saved in ground arith in
          rw left
            (scan-Member (hash_of refresh) client (hash_of next) now g s.grants gs (rw (← same) e))

  -- A spent refresh token gives its grant away: right after a refresh that succeeded, with no call in
  -- between, whoever presents the same token again is refused, and one grant is gone; and the token that the
  -- refresh gave out, presented right after that, is refused too. (The new token's hash has to be new, and
  -- no hash is the empty text.)
  pub refresh_token-replay :
      (refresh client next client2 next2 client3 next3 : String) (now later last : ℕ)
      (wrote wrote2 wrote3 : Bool) (s : OauthStore) (g : OauthGrant)
      → hash_of refresh ≢ ""
      → All (Unrelated (hash_of next)) s.grants
      → (refresh_token hash_of refresh client next now wrote s).1 ≡ ok g
      → let s1 = (refresh_token hash_of refresh client next now wrote s).0 in
        let s2 = (refresh_token hash_of refresh client2 next2 later wrote2 s1).0 in
        ((refresh_token hash_of refresh client2 next2 later wrote2 s1).1 ≡ err invalid_grant)
        × (length s2.grants + 1 ≡ length s1.grants)
        × ((refresh_token hash_of next client3 next3 last wrote3 s2).1 ≡ err invalid_grant)
  refresh_token-replay refresh client next client2 next2 client3 next3 now later last wrote wrote2
        wrote3 s g real new h =
      go (scan (hash_of refresh) client now (hash_of next) s.grants) refl
    where
      s1 : OauthStore
      s1 = (refresh_token hash_of refresh client next now wrote s).0

      s2 : OauthStore
      s2 = (refresh_token hash_of refresh client2 next2 later wrote2 s1).0

      go :
          (r : Answer)
          → scan (hash_of refresh) client now (hash_of next) s.grants ≡ r
          → ((refresh_token hash_of refresh client2 next2 later wrote2 s1).1 ≡ err invalid_grant)
            × (length s2.grants + 1 ≡ length s1.grants)
            × ((refresh_token hash_of next client3 next3 last wrote3 s2).1 ≡ err invalid_grant)
      go unknown e = unfold refresh_token in absurd (ground arith)
      go denied e = unfold refresh_token in absurd (ground arith)
      go (replayed gs) e = unfold refresh_token in absurd (ground arith)
      go (rotated g' gs) e =
          let (left, again, free, less) =
            scan-replayed (hash_of refresh) client client2 (hash_of next) (hash_of next2) now later
              g' s.grants gs real new e in
          let after : s1.grants ≡ gs = unfold refresh_token saved in ground arith in
          let found : scan (hash_of refresh) client2 later (hash_of next2) s1.grants
              ≡ replayed left =
            rw after again in
          let gone : s2.grants ≡ left = unfold refresh_token saved in ground arith in
          let useless : scan (hash_of next) client3 last (hash_of next3) s2.grants ≡ unknown =
            rw gone (scan_unknown (hash_of next) client3 (hash_of next3) last left free) in
          (
            unfold refresh_token in ground arith,
            rw gone (rw after less),
            unfold refresh_token in ground arith,
          )
