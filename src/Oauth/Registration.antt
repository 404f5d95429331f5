-- ===== src/Oauth/Registration.antt =====
-- Registering clients (RegisterClient and validRedirectURI of pkg/server/oauth.go).
use native_ops.Base.{
  ℕ, ◌+◌, ◌-◌, String, codes, Bool, true, false, not, ◌&&◌, ◌||◌, Option, none, some, List, [], ◌∷◌,
  ◌++◌, ltb, leb, ◌==◌, str_eq, if◌then◌else◌, Result, ok, err, length, all, trim_space,
}
use native_ops.Base.Sort.{sort_asc}
use native_ops.Oauth.{
  max_oauth_clients, OauthClient, OauthGrant, OauthStore, OauthError, saved, bad_name,
  bad_redirects, bad_redirect, too_many_clients, not_saved,
}

-- what the daemon reads of a parsed URL
pub record Url : Type 0 where
  pub scheme : String
  pub fragment : String
  pub has_user : Bool
  pub host : String
  pub hostname : String

unfoldable pub valid_redirect_uri : (String → Option Url) → String → Bool
valid_redirect_uri parse raw = elim (parse raw) [
  | none ↦ false
  | some u ↦
      if not (str_eq u.fragment "")
        || (u.has_user || (str_eq u.host "" || ltb 2000 (length (codes raw))))
      then false
      else if str_eq u.scheme "https"
      then true
      else str_eq u.scheme "http"
        && (str_eq u.hostname "127.0.0.1"
            || (str_eq u.hostname "localhost" || str_eq u.hostname "::1"))
]

abbrev is_plain : ℕ → Bool
is_plain c = not ((c == 10 || c == 13) || (c == b'<' || c == b'>'))

unfoldable pub client_name_of : List ℕ → List ℕ
client_name_of name = elim (trim_space name) [ [] ↦ codes "an MCP client" | c ∷ cs ↦ c ∷ cs ]

unfoldable pub holds_grant : List OauthGrant → OauthClient → Bool
holds_grant [] c = false
holds_grant (g ∷ gs) c =
    let rest = holds_grant gs c in if str_eq g.client_id c.id then true else rest

-- the loop that makes room: the first `need` clients that hold no grant go. It answers with how many
-- more would have had to go.
unfoldable pub make_room : List OauthGrant → ℕ → List OauthClient → List OauthClient × ℕ
unfolding holds_grant
make_room gs need [] = ([], need)
make_room gs need (c ∷ cs) =
    if ltb 0 need && not (holds_grant gs c)
    then make_room gs (need - 1) cs
    else (let (kept, left) = make_room gs need cs in (c ∷ kept, left))

-- `RegisterClient`. The identifier is "nopc_" and a random part.
unfoldable pub register_client :
    (String → Option Url)
    → List ℕ
    → List String
    → String
    → ℕ
    → Bool
    → OauthStore
    → OauthStore × Result OauthError OauthClient
unfolding client_name_of valid_redirect_uri make_room saved
register_client parse raw redirects id now wrote s =
    let name = client_name_of raw in
    if ltb 100 (length name) || not (all is_plain name)
    then (s, err bad_name)
    else if (length redirects == 0) || ltb 10 (length redirects)
    then (s, err bad_redirects)
    else if not (all (valid_redirect_uri parse) redirects)
    then (s, err bad_redirect)
    else (let (kept, left) =
          if leb max_oauth_clients (length s.clients)
          then make_room s.grants (length s.clients - max_oauth_clients + 1)
              (sort_asc (λ c. c.created) s.clients)
          else (s.clients, 0) in
        let s1 = record s { clients = kept } in
        if ltb 0 left
        then (s1, err too_many_clients)
        else (let c : OauthClient = record {
          id = id;
          name = name;
          redirect_uris = redirects;
          created = now;
        } in
            if wrote
            then (saved (record s1 { clients = kept ++ c ∷ [] }), ok c)
            else (s1, err not_saved)))
