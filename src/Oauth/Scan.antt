-- ===== src/Oauth/Scan.antt =====
-- What the loop of `Refresh` (pkg/server/oauth.go) finds among the grants.
use native_ops.Base.{
  ℕ, ◌+◌, ◌≤◌, ◌≡◌, ◌≢◌, ◌⊎◌, inl, inr, refl, arith, String, false, not, ◌&&◌, List, [], ◌∷◌,
  length, All, str_eq, eq_iff, Bool-cases,
}
use native_ops.Base.Sort.{Member}
use native_ops.Oauth.{OauthGrant}
use native_ops.Oauth.Refresh.{Answer, unknown, denied, replayed, rotated, behind, renewed, scan}

-- the grant has no token of this hash, neither the current one nor the one before it
abbrev pub Unrelated : String → OauthGrant → Type 0
Unrelated h g = (g.refresh_hash ≢ h) × (g.prev_refresh_hash ≢ h)

pub scan_unknown :
    (h client next : String) (now : ℕ) (gs : List OauthGrant)
    → All (Unrelated h) gs
    → scan h client now next gs ≡ unknown
unfolding scan
scan_unknown h client next now [] u = refl
scan_unknown h client next now (g ∷ gs) u =
    let ih = scan_unknown h client next now gs u.1 in
    ground (arith, u.0, eq_iff g.refresh_hash h, eq_iff g.prev_refresh_hash h)

-- what the rest of the list answered when the head's grant has no say
behind_rotated :
    (g g' : OauthGrant) (r : Answer) (gs' : List OauthGrant)
    → behind g r ≡ rotated g' gs'
    → (rest : List OauthGrant) × (r ≡ rotated g' rest) × (gs' ≡ g ∷ rest)
behind_rotated g g' unknown gs' h = absurd (ground arith)
behind_rotated g g' denied gs' h = absurd (ground arith)
behind_rotated g g' (replayed gs) gs' h = absurd (ground arith)
behind_rotated g g' (rotated x rest) gs' h = (rest, ground arith, ground arith)

-- the head's grant has the token presented, or has no say
pub scan-rotated :
    (h client next : String) (now : ℕ) (g g' : OauthGrant) (gs gs' : List OauthGrant)
    → scan h client now next (g ∷ gs) ≡ rotated g' gs'
    → ((g.refresh_hash ≡ h)
        × (g.client_id ≡ client)
        × (now ≤ g.refresh_expires)
        × (g' ≡ renewed next now g)
        × (gs' ≡ renewed next now g ∷ gs))
      ⊎ ((str_eq g.refresh_hash h ≡ false)
          × ((not (str_eq g.prev_refresh_hash "") && str_eq g.prev_refresh_hash h) ≡ false)
          × ((rest : List OauthGrant) × (scan h client now next gs ≡ rotated g' rest)
              × (gs' ≡ g ∷ rest)))
unfolding scan
scan-rotated h client next now g g' gs gs' e =
    elim (Bool-cases (not (str_eq g.prev_refresh_hash "") && str_eq g.prev_refresh_hash h)) [
      | inl spent ↦ absurd (ground arith)
      | inr current ↦ elim (Bool-cases (str_eq g.refresh_hash h)) [
        | inl same ↦ inl (
          ground (arith, eq_iff g.refresh_hash h),
          ground (arith, eq_iff g.client_id client),
          ground arith,
          ground arith,
          ground arith,
        )
        | inr other ↦
            inr (other, current, behind_rotated g g' (scan h client now next gs) gs' (ground arith))
      ]
    ]

pub scan-replayed :
    (h client client2 next next2 : String) (now later : ℕ) (g : OauthGrant)
    (gs gs' : List OauthGrant)
    → h ≢ ""
    → All (Unrelated next) gs
    → scan h client now next gs ≡ rotated g gs'
    → (left : List OauthGrant) × (scan h client2 later next2 gs' ≡ replayed left)
      × All (Unrelated next) left
      × (length left + 1 ≡ length gs')
unfolding scan
scan-replayed h client client2 next next2 now later g [] gs' real u e = absurd (ground arith)
scan-replayed h client client2 next next2 now later g (x ∷ xs) gs' real u e =
    elim (scan-rotated h client next now x g xs gs' e) [
      | inl (same, _, _, _, new) ↦ (
        xs,
        rw new (ground (arith, eq_iff x.refresh_hash "", eq_iff x.refresh_hash h)),
        u.1,
        rw new (omega arith),
      )
      | inr (other, current, (rest, e2, new)) ↦
          let (left, again, free, less) =
            scan-replayed h client client2 next next2 now later g xs rest real u.1 e2 in
          (x ∷ left, rw new (ground arith), (u.0, free), rw new (omega (arith, less)))
    ]

-- the grants that an answer of the loop leaves
pub scan-Member :
    (h client next : String) (now : ℕ) (g : OauthGrant) (gs gs' : List OauthGrant)
    → scan h client now next gs ≡ rotated g gs'
    → (old : OauthGrant) × (Member old gs)
      × (Member g gs')
      × ((old.refresh_hash ≡ h) × (old.client_id ≡ client) × (now ≤ old.refresh_expires))
      × (g ≡ renewed next now old)
      × (length gs' ≡ length gs)
unfolding scan
scan-Member h client next now g [] gs' e = absurd (ground arith)
scan-Member h client next now g (x ∷ xs) gs' e =
    elim (scan-rotated h client next now x g xs gs' e) [
      | inl (same, mine, alive, is, new) ↦
          (x, inl refl, rw new (inl (ground arith)), (same, mine, alive), is, rw new (omega arith))
      | inr (other, current, (rest, e2, new)) ↦
          let (old, was, now_is, facts, is, size) = scan-Member h client next now g xs rest e2 in
          (old, inr was, rw new (inr now_is), facts, is, rw new (omega (arith, size)))
    ]
