-- ===== src/Oauth/Exchange.antt =====
-- Codes and their exchange (NewCode and ExchangeCode of pkg/server/oauth.go).
use native_ops.Base.{
  ℕ, ◌+◌, String, codes, Bool, false, not, ◌&&◌, ◌||◌, none, some, [], ◌∷◌, ◌++◌, ltb, leb, ◌==◌,
  str_eq, if◌then◌else◌, Result, ok, err, length, all,
}
use native_ops.Base.Dict.{Dict, lookup, insert, erase}
use native_ops.Oauth.{
  refresh_ttl, code_ttl, OauthClient, OauthGrant, OauthCode, OauthStore, OauthError, saved,
  find_client, invalid_grant, not_saved,
}

-- a code lives until a minute after it was given; `raw` is the random code
abbrev pub live : ℕ → Dict OauthCode → Dict OauthCode
live now [] = []
live now ((k, c) ∷ rest) =
    let others = live now rest in if ltb c.expires now then others else (k, c) ∷ others

unfoldable pub new_code : String → OauthCode → ℕ → OauthStore → OauthStore
new_code raw c now s = record s {
  codes = insert raw (record c { expires = now + code_ttl }) (live now s.codes);
}

-- `validVerifier`: 43 to 128 unreserved characters
abbrev is_unreserved : ℕ → Bool
is_unreserved c =
    (leb b'a' c && leb c b'z')
    || ((leb b'A' c && leb c b'Z')
        || ((leb b'0' c && leb c b'9') || ((c == b'-' || c == b'.') || (c == b'_' || c == b'~'))))

unfoldable pub valid_verifier : String → Bool
valid_verifier v =
    if ltb (length (codes v)) 43 || ltb 128 (length (codes v))
    then false
    else all is_unreserved (codes v)

-- the grant that a code is traded for; `refresh` is its new refresh token
unfoldable pub new_grant :
    (String → String) → OauthCode → OauthClient → String → String → ℕ → OauthGrant
new_grant hash_of c client id refresh now = record {
  id = id;
  client_id = client.id;
  client_name = client.name;
  username = c.username;
  resource = c.resource;
  created = now;
  last_used = now;
  refresh_hash = hash_of refresh;
  prev_refresh_hash = "";
  refresh_expires = now + refresh_ttl;
}

-- whether a code may be traded by this client, with this redirect URI and this verifier
unfoldable pub good_code : (String → String) → OauthCode → String → String → String → ℕ → Bool
unfolding valid_verifier
good_code pkce c client_id redirect_uri verifier now =
    if ltb c.expires now
      || (not (str_eq c.client_id client_id) || not (str_eq c.redirect_uri redirect_uri))
    then false
    else valid_verifier verifier && str_eq (pkce verifier) c.challenge

unfoldable pub exchange_code :
    (String → String)
    → (String → String)
    → String
    → String
    → String
    → String
    → String
    → String
    → ℕ
    → Bool
    → OauthStore
    → OauthStore × Result OauthError OauthGrant
unfolding good_code find_client new_grant saved
exchange_code hash_of pkce code client_id redirect_uri verifier id refresh now wrote s =
    let s1 = record s { codes = erase code s.codes } in
    elim (lookup code s.codes) [
      | none ↦ (s1, err invalid_grant)
      | some c ↦
          if not (good_code pkce c client_id redirect_uri verifier now)
          then (s1, err invalid_grant)
          else elim (find_client client_id s1.clients) [
            | none ↦ (s1, err invalid_grant)
            | some client ↦
                let g = new_grant hash_of c client id refresh now in
                if wrote
                then (saved (record s1 { grants = s1.grants ++ g ∷ [] }), ok g)
                else (s1, err not_saved)
          ]
    ]
