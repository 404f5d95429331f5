-- ===== src/Oauth/Refresh.antt =====
-- Refreshing and revoking grants (Refresh, Revoke and RevokeRefresh of pkg/server/oauth.go).
use native_ops.Base.{
  ℕ, ◌+◌, String, Bool, true, false, not, ◌&&◌, ◌||◌, Option, none, some, List, [], ◌∷◌, ltb,
  str_eq, if◌then◌else◌, Result, ok, err,
}
use native_ops.Oauth.{
  refresh_ttl, OauthGrant, OauthStore, OauthError, saved, invalid_grant, not_saved,
}

-- what the loop of `Refresh` finds: no grant, a grant whose spent token this is (and the grants without
-- it), a grant that may not be refreshed, or the grant with its new token (and the grants with it)
pub data Answer : Type 0 where
  unknown denied : Answer
  replayed : List OauthGrant → Answer
  rotated : OauthGrant → List OauthGrant → Answer

abbrev pub behind : OauthGrant → Answer → Answer
behind g unknown = unknown
behind g denied = denied
behind g (replayed gs) = replayed (g ∷ gs)
behind g (rotated g' gs) = rotated g' (g ∷ gs)

abbrev pub renewed : String → ℕ → OauthGrant → OauthGrant
renewed next now g = record g {
  prev_refresh_hash = g.refresh_hash;
  refresh_hash = next;
  refresh_expires = now + refresh_ttl;
  last_used = now;
}

-- `h` is the hash of the token presented, `next` the hash of the one that would replace it
unfoldable pub scan : String → String → ℕ → String → List OauthGrant → Answer
scan h client_id now next [] = unknown
scan h client_id now next (g ∷ gs) =
    let rest = scan h client_id now next gs in
    if not (str_eq g.prev_refresh_hash "") && str_eq g.prev_refresh_hash h
    then replayed gs
    else if not (str_eq g.refresh_hash h)
    then behind g rest
    else if not (str_eq g.client_id client_id) || ltb g.refresh_expires now
    then denied
    else rotated (renewed next now g) (renewed next now g ∷ gs)

abbrev pub save_if : Bool → OauthStore → OauthStore
save_if wrote s = if wrote then saved s else s

unfoldable pub refresh_token :
    (String → String)
    → String
    → String
    → String
    → ℕ
    → Bool
    → OauthStore
    → OauthStore × Result OauthError OauthGrant
unfolding scan saved
refresh_token hash_of refresh client_id next now wrote s =
    elim (scan (hash_of refresh) client_id now (hash_of next) s.grants) [
      | unknown ↦ (s, err invalid_grant)
      | denied ↦ (s, err invalid_grant)
      | replayed gs ↦ (save_if wrote (record s { grants = gs }), err invalid_grant)
      | rotated g gs ↦
          if wrote then (saved (record s { grants = gs }), ok g) else (s, err not_saved)
    ]

-- the grants without the first of which `p` holds, if there is one
unfoldable pub without_first : (OauthGrant → Bool) → List OauthGrant → Option (List OauthGrant)
without_first p [] = none
without_first p (g ∷ gs) =
    let rest = without_first p gs in
    if p g then some gs else elim rest [ none ↦ none | some others ↦ some (g ∷ others) ]

-- `Revoke` says whether the grant was there; it is gone also if the file could not be written
unfoldable pub revoke : String → Bool → OauthStore → OauthStore × Bool
unfolding without_first saved
revoke id wrote s = elim (without_first (λ g. str_eq g.id id) s.grants) [
  | none ↦ (s, false)
  | some gs ↦ (save_if wrote (record s { grants = gs }), true)
]

unfoldable pub revoke_refresh : (String → String) → String → Bool → OauthStore → OauthStore
unfolding without_first saved
revoke_refresh hash_of refresh wrote s =
    elim (without_first (λ g. str_eq g.refresh_hash (hash_of refresh)) s.grants) [
      | none ↦ s
      | some gs ↦ save_if wrote (record s { grants = gs })
    ]
