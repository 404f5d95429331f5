-- ===== src/Oauth/Access.antt =====
-- Access tokens (signAccess and VerifyAccess of pkg/server/oauth.go): "nopa_", a body, a dot and its MAC.
-- `mac` is the keyed HMAC, `encode` and `decode` are JSON in base64, which has no dot.
use native_ops.Base.{
  ℕ, ◌+◌, ◌*◌, ◌-◌, ◌/◌, ◌≡◌, inl, inr, refl, arith, String, Bool, not, Option, none, some, List,
  [], ◌∷◌, ltb, leb, str_eq, if◌then◌else◌, eq_refl, Option-cases, Bool-cases,
}
use native_ops.Oauth.{second, OauthGrant, OauthStore, saved}
use native_ops.Oauth.Refresh.{save_if}

abbrev pub access_ttl : ℕ
access_ttl = 3600 * second

-- a token that begins as it must, cut at its dot
pub record AccessToken : Type 0 where
  pub body : String
  pub sig : String

-- its last use is more than five minutes ago
abbrev pub idle : ℕ → OauthGrant → Bool
idle now g = ltb (300 * second) (now - g.last_used)

abbrev pub used_at : ℕ → OauthGrant → OauthGrant
used_at now g = if idle now g then record g { last_used = now } else g

-- the first grant of an identifier, as it was, and the grants with its last use noted
unfoldable pub touch : String → ℕ → List OauthGrant → Option (OauthGrant × List OauthGrant)
touch id now [] = none
touch id now (g ∷ gs) =
    let rest = touch id now gs in
    if str_eq g.id id
    then some (g, used_at now g ∷ gs)
    else elim rest [ none ↦ none | some found ↦ some (found.0, g ∷ found.1) ]

unfoldable pub find_grant : String → List OauthGrant → Option OauthGrant
find_grant id [] = none
find_grant id (g ∷ gs) = if str_eq g.id id then some g else find_grant id gs

module _ (mac : String → String) (encode : String → ℕ → String) where
  unfoldable pub sign_access : OauthGrant → ℕ → AccessToken
  sign_access g now =
      let body = encode g.id ((now + access_ttl) / second) in record { body = body; sig = mac body }

module _ (mac : String → String) (decode : String → Option (String × ℕ)) where
  unfoldable pub verify_access :
      AccessToken → ℕ → Bool → OauthStore → OauthStore × Option OauthGrant
  unfolding touch saved
  verify_access token now wrote s =
      if not (str_eq token.sig (mac token.body)) then (s, none) else elim (decode token.body) [
        | none ↦ (s, none)
        | some p ↦ if leb p.1 (now / second) then (s, none) else elim (touch p.0 now s.grants) [
          | none ↦ (s, none)
          | some found ↦ (
            if idle now found.0 then save_if wrote (record s { grants = found.1 }) else s,
            some (used_at now found.0),
          )
        ]
      ]

pub touch_lem :
    (id : String) (now : ℕ) (gs : List OauthGrant)
    → (find_grant id gs ≡ none → touch id now gs ≡ none)
      × ((g : OauthGrant)
          → find_grant id gs ≡ some g
          → (gs' : List OauthGrant) × (touch id now gs ≡ some (g, gs')))
unfolding find_grant touch
touch_lem id now [] = (λ h. refl, λ g h. absurd (ground arith))
touch_lem id now (x ∷ xs) = elim (Bool-cases (str_eq x.id id)) [
  | inl same ↦ (λ h. absurd (ground arith), λ g h. (used_at now g ∷ xs, ground arith))
  | inr other ↦ (
    λ h. let ih = (touch_lem id now xs).0 in ground arith,
    λ g h. let (gs', e) = (touch_lem id now xs).1 g (ground arith) in (x ∷ gs', ground arith),
  )
]

module _ (mac : String → String) (encode : String → ℕ → String)
    (decode : String → Option (String × ℕ)) where
  -- A token signed for a grant stands for the grant of that identifier that the store still has, with its
  -- last use noted, as long as its hour is not over in whole seconds; after that, or once the grant is
  -- gone, it stands for nothing. (`decode` has to undo `encode`.)
  pub verify_access-sign_access :
      (g : OauthGrant) (signed now : ℕ) (wrote : Bool) (s : OauthStore)
      → ((id : String) (exp : ℕ) → decode (encode id exp) ≡ some (id, exp))
      → (verify_access mac decode (sign_access mac encode g signed) now wrote s).1 ≡ (
          if ltb (now / second) ((signed + access_ttl) / second)
          then elim (find_grant g.id s.grants) [ none ↦ none | some h ↦ some (used_at now h) ]
          else none)
  unfolding verify_access sign_access
  verify_access-sign_access g signed now wrote s inverse =
      let body = encode g.id ((signed + access_ttl) / second) in
      elim (Option-cases (find_grant g.id s.grants)) [
        | inl gone ↦ ground (
          arith,
          eq_refl (mac body),
          inverse g.id ((signed + access_ttl) / second),
          (touch_lem g.id now s.grants).0 gone,
        )
        | inr (h, here) ↦ ground (
          arith,
          eq_refl (mac body),
          inverse g.id ((signed + access_ttl) / second),
          (touch_lem g.id now s.grants).1 h here,
        )
      ]
