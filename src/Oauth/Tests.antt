-- ===== src/Oauth/Tests.antt =====
-- A person's consent, its tokens and their end, and the theorems at concrete inputs.
use Prim.Native.Char.{code}
use native_ops.Base.{
  ℕ, zero, suc, ◌+◌, ◌/◌, ◌≡◌, ◌≢◌, refl, arith, String, codes, true, Option, none, some, List, [],
  ◌∷◌, ◌==◌, ltb, str_append, if◌then◌else◌, length, ok, err, eq_iff,
}
use native_ops.Base.Dict.{lookup}
use native_ops.Oauth.Registration.{Url}
use native_ops.Oauth.{OauthClient, OauthGrant, OauthCode, OauthStore, invalid_grant, find_client}
use native_ops.Oauth.Exchange.{exchange_code, new_grant, valid_verifier, good_code}
use native_ops.Oauth.Refresh.{refresh_token, renewed, revoke, scan}
use native_ops.Oauth.Access.{
  AccessToken, access_ttl, sign_access, verify_access, find_grant, used_at,
  verify_access-sign_access,
}
use native_ops.Oauth.Codes.{OauthCall, gave_code, calls, exchange_code_once}
use native_ops.Oauth.Rotation.{refresh_token-replay}
use native_ops.Oauth.Revoked.{revoke_for_good}

abbrev hashed : String → String
hashed t = str_append "#" t

abbrev as_it_is : String → String
as_it_is v = v

-- an expiry in unary, a dot, the identifier
encoded : String → ℕ → String
encoded id zero = String.◌∷◌ "." id
encoded id (suc n) = String.◌∷◌ "x" (encoded id n)

decoded : String → Option (String × ℕ)
decoded String.[] = none
decoded (String.◌∷◌ c s) =
    if code c == b'.'
    then some (s, 0)
    else elim (decoded s) [ none ↦ none | some p ↦ some (p.0, suc p.1) ]

decoded-encoded : (id : String) (exp : ℕ) → decoded (encoded id exp) ≡ some (id, exp)
unfolding decoded encoded
decoded-encoded id zero = refl
decoded-encoded id (suc n) = rw (decoded-encoded id n) refl

abbrev no_url : String → Option Url
no_url raw = none

abbrev client : OauthClient
client = record {
  id = "nopc_1";
  name = codes "agent";
  redirect_uris = "https://a/cb" ∷ [];
  created = 1;
}

abbrev verifier : String
verifier = "0123456789012345678901234567890123456789abc"

abbrev the_code : OauthCode
the_code = record {
  client_id = "nopc_1";
  redirect_uri = "https://a/cb";
  challenge = verifier;
  username = "ann";
  resource = "mcp";
  expires = 100;
}

abbrev before : OauthStore
before = record {
  clients = client ∷ [];
  grants = [];
  codes = ("c1", the_code) ∷ [];
  disk = (client ∷ [], []);
}

abbrev grant : OauthGrant
grant = new_grant hashed the_code client "g_1" "r1" 50

abbrev store : OauthStore
store = record before { grants = grant ∷ []; codes = [] }

exchanged_ok :
    (exchange_code hashed as_it_is "c1" "nopc_1" "https://a/cb" verifier "g_1" "r1" 50 true
      before).1
    ≡ ok grant
unfolding exchange_code lookup good_code valid_verifier find_client
exchanged_ok = refl

abbrev between : List OauthCall
between = gave_code "c2" the_code 60 ∷ []

exchange_code_once_example :
    (exchange_code hashed as_it_is "c1" "nopc_1" "https://a/cb" verifier "g_2" "r2" 70 true (
      calls hashed as_it_is as_it_is decoded between
        (exchange_code hashed as_it_is "c1" "nopc_1" "https://a/cb" verifier "g_1" "r1" 50 true
          before).0)).1
    ≡ err invalid_grant
exchange_code_once_example =
    exchange_code_once hashed as_it_is as_it_is decoded "c1" "nopc_1" "https://a/cb" verifier "g_1"
      "r1" 50 true "nopc_1" "https://a/cb" verifier "g_2" "r2" 70 true between before
      ((λ e. ground (arith, eq_iff "c2" "c1")), tt)

refreshed_ok :
    (refresh_token hashed "r1" "nopc_1" "r2" 90 true store).1 ≡ ok (renewed "#r2" 90 grant)
unfolding refresh_token scan new_grant
refreshed_ok = refl

refresh_token-replay_example :
    let s1 = (refresh_token hashed "r1" "nopc_1" "r2" 90 true store).0 in
    let s2 = (refresh_token hashed "r1" "nopc_1" "r3" 95 true s1).0 in
    ((refresh_token hashed "r1" "nopc_1" "r3" 95 true s1).1 ≡ err invalid_grant)
    × (length s2.grants + 1 ≡ length s1.grants)
    × ((refresh_token hashed "r2" "nopc_1" "r4" 99 true s2).1 ≡ err invalid_grant)
refresh_token-replay_example =
    refresh_token-replay hashed "r1" "nopc_1" "r2" "nopc_1" "r3" "nopc_1" "r4" 90 95 99 true true
      true store (renewed "#r2" 90 grant) (λ e. ground (arith, eq_iff "#r1" "")) (new_is_new, tt)
      refreshed_ok
  where
    new_is_new : (grant.refresh_hash ≢ "#r2") × (grant.prev_refresh_hash ≢ "#r2")
    new_is_new =
        unfold new_grant in
        (λ e. ground (arith, eq_iff "#r1" "#r2"), λ e. ground (arith, eq_iff "" "#r2"))

refreshed_twice :
    (refresh_token hashed "r2" "nopc_1" "r3" 95 true
      (refresh_token hashed "r1" "nopc_1" "r2" 90 true store).0).1
    ≡ ok (renewed "#r3" 95 (renewed "#r2" 90 grant))
unfolding refresh_token scan new_grant
refreshed_twice = refl

abbrev token : AccessToken
token = record { body = encoded "g_1" 3; sig = "" }

revoke_for_good_example :
    (verify_access as_it_is decoded token 99 true
      (calls hashed as_it_is as_it_is decoded between (revoke "g_1" true store).0)).1
    ≡ none
revoke_for_good_example =
    revoke_for_good hashed as_it_is as_it_is decoded "g_1" true between store token 3 99 true
      (tt, tt) tt (decoded-encoded "g_1" 3)

verify_access-sign_access_example :
    (verify_access as_it_is decoded (sign_access as_it_is encoded grant 50) 99 true store).1 ≡ (
      if ltb (99 / 1000000000) ((50 + access_ttl) / 1000000000)
      then elim (find_grant "g_1" store.grants) [ none ↦ none | some h ↦ some (used_at 99 h) ]
      else none)
verify_access-sign_access_example =
    unfold new_grant in
    verify_access-sign_access as_it_is encoded decoded grant 50 99 true store decoded-encoded
