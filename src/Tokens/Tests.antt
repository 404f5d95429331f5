-- ===== src/Tokens/Tests.antt =====
-- Tokens made, shown and revoked, and the theorems at concrete inputs.
use native_ops.Base.{
  ◌≡◌, refl, String, codes, Bool, true, false, Option, none, some, [], ◌∷◌, str_append, str_eq, ok,
}
use native_ops.Base.Dict.{Dict}
use native_ops.Tokens.{viewer, deployer, Scope, limits, validate, allows}
use native_ops.Tokens.Store.{
  Token, TokenStore, valid_secret_format, new_token, create_scoped, revoke_token, verify, reload,
  is_deployer, without_token,
}
use native_ops.Tokens.Created.{reopened, create_scoped-verify}

abbrev hashed : String → String
hashed t = str_append "#" t

-- a pattern here is a text that has to be the same, or a star
abbrev matches : String → String → Option Bool
matches p v = some (if_star (str_eq p "*") v p)
  where
    if_star : Bool → String → String → Bool
    if_star true v p = true
    if_star false v p = str_eq p v

abbrev secret : String
secret = "nops_0123456789abcdef0123456789abcdef"

secret_form : valid_secret_format secret ≡ true
unfolding valid_secret_format
secret_form = refl

deployer_plans : allows deployer viewer ≡ true
unfolding allows
deployer_plans = refl

abbrev scope : Scope
scope = record {
  names = "crew" ∷ [];
  images = "*" ∷ [];
  domains = [];
  labels = ("environment", "staging" ∷ []) ∷ [];
  secrets = [];
}

abbrev no_tokens : TokenStore
no_tokens = record { tokens = []; loaded = none; bootstrap = none; disk = none }

abbrev token : Token
token = new_token hashed (codes "ci") deployer scope secret 5

created :
    (create_scoped hashed matches (codes "ci") deployer scope secret 5 true true 1 no_tokens).1
    ≡ ok token
unfolding create_scoped reload validate
created = refl

create_scoped-verify_example :
    let s' =
      (create_scoped hashed matches (codes "ci") deployer scope secret 5 true true 1 no_tokens).0 in
    ((verify hashed secret true s').1 ≡ some token)
    × ((verify hashed secret true (reopened s')).1 ≡ some token)
    × (validate matches scope ≡ none)
    × (limits scope ≡ true → (is_deployer token.role ≡ true) × (token.scope ≡ some scope))
create_scoped-verify_example =
    create_scoped-verify hashed matches (codes "ci") deployer scope secret 5 1 true true true
      no_tokens token secret_form created

abbrev one_token : TokenStore
one_token = record {
  tokens = token ∷ [];
  loaded = some 1;
  bootstrap = none;
  disk = some (1, token ∷ []);
}

revoked : (revoke_token token.id true true 2 one_token).1 ≡ none
unfolding revoke_token reload without_token
revoked = refl

abbrev labels : Dict String
labels = ("environment", "staging") ∷ []
