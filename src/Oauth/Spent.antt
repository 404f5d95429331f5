-- ===== src/Oauth/Spent.antt =====
-- Refresh tokens spent before the last one (`Refresh` of pkg/server/oauth.go).
use native_ops.Base.{
  ℕ, ◌≡◌, ◌≢◌, inl, inr, refl, arith, String, Bool, List, [], ◌∷◌, All, eq_iff, eq_refl, ok, err,
}
use native_ops.Oauth.{OauthGrant, OauthStore, invalid_grant, saved}
use native_ops.Oauth.Refresh.{
  Answer, unknown, denied, replayed, rotated, renewed, scan, refresh_token,
}
use native_ops.Oauth.Scan.{Unrelated, scan_unknown, scan-rotated}

-- no grant behind the one that has this current token has anything to do with it
abbrev pub Once : String → List OauthGrant → Type 0
Once h [] = Unit
Once h (g ∷ gs) = (g.refresh_hash ≡ h → All (Unrelated h) gs) × Once h gs

scan_twice :
    (h client client2 next next2 : String) (now later : ℕ) (g g2 : OauthGrant)
    (gs gs1 gs2 : List OauthGrant)
    → h ≢ ""
    → next ≢ h
    → next2 ≢ h
    → Once h gs
    → All (Unrelated next) gs
    → scan h client now next gs ≡ rotated g gs1
    → scan next client2 later next2 gs1 ≡ rotated g2 gs2
    → All (Unrelated h) gs2
scan_twice h client client2 next next2 now later g g2 [] gs1 gs2 real n1 n2 o u e e2 =
    unfold scan in absurd (ground arith)
scan_twice h client client2 next next2 now later g g2 (x ∷ xs) gs1 gs2 real n1 n2 o u e e2 =
    elim (scan-rotated h client next now x g xs gs1 e) [
      | inl (same, _, _, _, new) ↦
          elim (scan-rotated next client2 next2 later (renewed next now x) g2 xs gs2
            (rw (← new) e2)) [
              | inl (_, _, _, _, new2) ↦ rw new2 ((n2, n1), o.0 same)
              | inr (other, _, _) ↦ absurd (ground (arith, eq_refl next))
            ]
      | inr (other, current, (rest, e1, new)) ↦
          let apart : Unrelated h x = (
            ground (arith, eq_iff x.refresh_hash h),
            λ k. ground (arith, real, eq_iff x.prev_refresh_hash h, eq_iff x.prev_refresh_hash ""),
          ) in
          elim (scan-rotated next client2 next2 later x g2 rest gs2 (rw (← new) e2)) [
            | inl (same, _, _, _, _) ↦ absurd (u.0.0 same)
            | inr (_, _, (rest2, e3, new2)) ↦ rw new2 (
              apart,
              scan_twice h client client2 next next2 now later g g2 xs rest rest2 real n1 n2 o.1 u.1
                  e1 e3,
            )
          ]
    ]

module _ (hash_of : String → String) where
  -- A refresh token that was spent two refreshes ago is refused, but gives nothing away: the store is as it
  -- was, and the grant and its newest token stay good. (The token's hash is not the empty text and belongs
  -- to one grant; the two tokens given out since have new hashes.)
  pub refresh_token-older :
      (refresh next next2 client client2 client3 next3 : String) (now later last : ℕ)
      (wrote wrote2 wrote3 : Bool) (s : OauthStore) (g g2 : OauthGrant)
      → hash_of refresh ≢ ""
      → hash_of next ≢ hash_of refresh
      → hash_of next2 ≢ hash_of refresh
      → Once (hash_of refresh) s.grants
      → All (Unrelated (hash_of next)) s.grants
      → (refresh_token hash_of refresh client next now wrote s).1 ≡ ok g
      → (refresh_token hash_of next client2 next2 later wrote2
          (refresh_token hash_of refresh client next now wrote s).0).1
        ≡ ok g2
      → let s2 =
          (refresh_token hash_of next client2 next2 later wrote2
            (refresh_token hash_of refresh client next now wrote s).0).0 in
        refresh_token hash_of refresh client3 next3 last wrote3 s2 ≡ (s2, err invalid_grant)
  refresh_token-older refresh next next2 client client2 client3 next3 now later last wrote wrote2
        wrote3 s g g2 real n1 n2 once new h h2 =
      let (gs1, e1, left1) = rotated_of refresh client next now wrote s g h in
      let (gs2, e2, left2) = rotated_of next client2 next2 later wrote2 s1 g2 h2 in
      let free =
        scan_twice (hash_of refresh) client client2 (hash_of next) (hash_of next2) now later g g2
          s.grants gs1 gs2 real n1 n2 once new e1 (rw (← left1) e2) in
      let none_left : scan (hash_of refresh) client3 last (hash_of next3) s2.grants ≡ unknown =
        rw left2 (scan_unknown (hash_of refresh) client3 (hash_of next3) last gs2 free) in
      unfold refresh_token in ground arith
    where
      rotated_of :
          (t c n : String) (at : ℕ) (w : Bool) (q : OauthStore) (x : OauthGrant)
          → (refresh_token hash_of t c n at w q).1 ≡ ok x
          → (gs : List OauthGrant) × (scan (hash_of t) c at (hash_of n) q.grants ≡ rotated x gs)
            × ((refresh_token hash_of t c n at w q).0.grants ≡ gs)
      rotated_of t c n at w q x k = go (scan (hash_of t) c at (hash_of n) q.grants) refl
        where
          go :
              (r : Answer)
              → scan (hash_of t) c at (hash_of n) q.grants ≡ r
              → (gs : List OauthGrant) × (scan (hash_of t) c at (hash_of n) q.grants ≡ rotated x gs)
                × ((refresh_token hash_of t c n at w q).0.grants ≡ gs)
          go unknown e = unfold refresh_token in absurd (ground arith)
          go denied e = unfold refresh_token in absurd (ground arith)
          go (replayed gs) e = unfold refresh_token in absurd (ground arith)
          go (rotated y gs) e =
              let same : y ≡ x = unfold refresh_token in ground arith in
              (gs, rw (← same) e, unfold refresh_token saved in ground arith)

      s1 : OauthStore
      s1 = (refresh_token hash_of refresh client next now wrote s).0

      s2 : OauthStore
      s2 = (refresh_token hash_of next client2 next2 later wrote2 s1).0
