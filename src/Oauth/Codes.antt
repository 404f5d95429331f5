-- ===== src/Oauth/Codes.antt =====
-- Calls on the store, and the life of a code (`NewCode` and `ExchangeCode` of pkg/server/oauth.go).
use native_ops.Base.{
  ℕ, ◌+◌, ◌≤◌, ◌++◌, ◌≡◌, ◌≢◌, inl, inr, refl, arith, String, Bool, true, Option, none, some, List,
  [], ◌∷◌, eq_iff, eq_refl, Option-cases, ok, err,
}
use native_ops.Base.Dict.{Dict, lookup, erase, lookup-insert, lookup-erase}
use native_ops.Oauth.Registration.{Url, register_client}
use native_ops.Oauth.{
  OauthClient, OauthGrant, OauthCode, OauthStore, invalid_grant, find_client, saved, code_ttl,
}
use native_ops.Oauth.Exchange.{live, new_code, exchange_code, good_code, new_grant, valid_verifier}
use native_ops.Oauth.Refresh.{refresh_token, revoke, revoke_refresh}
use native_ops.Oauth.Access.{AccessToken, verify_access}

pub data OauthCall : Type 0 where
  registered : (String → Option Url) → List ℕ → List String → String → ℕ → Bool → OauthCall
  gave_code : String → OauthCode → ℕ → OauthCall
  exchanged : String → String → String → String → String → String → ℕ → Bool → OauthCall
  refreshed : String → String → String → ℕ → Bool → OauthCall
  revoked : String → Bool → OauthCall
  revoked_token : String → Bool → OauthCall
  verified : AccessToken → ℕ → Bool → OauthCall

module _ (hash_of pkce mac : String → String) (decode : String → Option (String × ℕ)) where
  unfoldable pub call : OauthCall → OauthStore → OauthStore
  call (registered parse name redirects id now wrote) s =
      (register_client parse name redirects id now wrote s).0
  call (gave_code raw c now) s = new_code raw c now s
  call (exchanged code client uri verifier id refresh now wrote) s =
      (exchange_code hash_of pkce code client uri verifier id refresh now wrote s).0
  call (refreshed refresh client next now wrote) s =
      (refresh_token hash_of refresh client next now wrote s).0
  call (revoked id wrote) s = (revoke id wrote s).0
  call (revoked_token refresh wrote) s = revoke_refresh hash_of refresh wrote s
  call (verified token now wrote) s = (verify_access mac decode token now wrote s).0

  unfoldable pub calls : List OauthCall → OauthStore → OauthStore
  calls [] s = s
  calls (c ∷ cs) s = calls cs (call c s)

  -- the code is not given out again
  abbrev pub NotGiven : String → List OauthCall → Type 0
  NotGiven code [] = Unit
  NotGiven code (gave_code raw c now ∷ cs) = (raw ≢ code) × NotGiven code cs
  NotGiven code (_ ∷ cs) = NotGiven code cs

  live-gone :
      (k : String) (now : ℕ) (m : Dict OauthCode) → lookup k m ≡ none → lookup k (live now m) ≡ none
  unfolding lookup
  live-gone k now [] h = refl
  live-gone k now ((j, c) ∷ m) h = ground (arith, live-gone k now m)

  exchange_code-codes :
      (code client uri verifier id refresh : String) (now : ℕ) (wrote : Bool) (s : OauthStore)
      → (exchange_code hash_of pkce code client uri verifier id refresh now wrote s).0.codes
        ≡ erase code s.codes
  unfolding exchange_code saved
  exchange_code-codes code client uri verifier id refresh now wrote s = ground arith

  call-gone :
      (code : String) (c : OauthCall) (cs : List OauthCall) (s : OauthStore)
      → NotGiven code (c ∷ cs)
      → lookup code s.codes ≡ none
      → (lookup code (call c s).codes ≡ none) × NotGiven code cs
  unfolding call
  call-gone code (registered parse name redirects id now wrote) cs s n h =
      unfold register_client saved in ground arith
  call-gone code (gave_code raw c now) cs s n h =
      unfold new_code in
      ground (
        arith,
        eq_iff raw code,
        lookup-insert raw code (record c { expires = now + code_ttl }) (live now s.codes),
        live-gone code now s.codes h,
      )
  call-gone code (exchanged other client uri verifier id refresh now wrote) cs s n h = (
    rw (exchange_code-codes other client uri verifier id refresh now wrote s)
        (ground (arith, lookup-erase other code s.codes)),
    n,
  )
  call-gone code (refreshed refresh client next now wrote) cs s n h =
      unfold refresh_token saved in ground arith
  call-gone code (revoked id wrote) cs s n h = unfold revoke saved in ground arith
  call-gone code (revoked_token refresh wrote) cs s n h =
      unfold revoke_refresh saved in ground arith
  call-gone code (verified token now wrote) cs s n h = unfold verify_access saved in ground arith

  calls-gone :
      (code : String) (cs : List OauthCall) (s : OauthStore)
      → NotGiven code cs
      → lookup code s.codes ≡ none
      → lookup code (calls cs s).codes ≡ none
  unfolding calls
  calls-gone code [] s n h = h
  calls-gone code (c ∷ cs) s n h =
      let (gone, rest) = call-gone code c cs s n h in calls-gone code cs (call c s) rest gone

  -- A code is good for one exchange at most, and an exchange that fails uses it up too: once it was
  -- presented, by whatever client and with whatever verifier, and whatever is called after that, any other
  -- exchange of it is refused, unless it is given out again.
  pub exchange_code_once :
      (code client uri verifier id refresh : String) (now : ℕ) (wrote : Bool)
      (client2 uri2 verifier2 id2 refresh2 : String) (later : ℕ) (wrote2 : Bool)
      (cs : List OauthCall) (s : OauthStore)
      → NotGiven code cs
      → (exchange_code hash_of pkce code client2 uri2 verifier2 id2 refresh2 later wrote2 (
          calls cs
            (exchange_code hash_of pkce code client uri verifier id refresh now wrote s).0)).1
        ≡ err invalid_grant
  exchange_code_once code client uri verifier id refresh now wrote client2 uri2 verifier2 id2
        refresh2 later wrote2 cs s n =
      let s1 = (exchange_code hash_of pkce code client uri verifier id refresh now wrote s).0 in
      let used : lookup code s1.codes ≡ none =
        rw (exchange_code-codes code client uri verifier id refresh now wrote s)
          (ground (arith, eq_refl code, lookup-erase code code s.codes)) in
      let gone = calls-gone code cs s1 n used in unfold exchange_code in ground arith

  -- What an exchange that succeeds stands on: the code was given out, is not a minute old, was given to
  -- this client for this redirect URI, and the verifier has the form it must have and the code's challenge;
  -- the client is registered. The new grant is for the person and the resource of the code, and is added
  -- to the grants; the file is written.
  pub exchange_code-ok :
      (code client_id uri verifier id refresh : String) (now : ℕ) (wrote : Bool) (s : OauthStore)
      (g : OauthGrant)
      → (exchange_code hash_of pkce code client_id uri verifier id refresh now wrote s).1 ≡ ok g
      → (c : OauthCode) × (client : OauthClient) × (lookup code s.codes ≡ some c)
        × ((now ≤ c.expires)
            × (c.client_id ≡ client_id)
            × (c.redirect_uri ≡ uri)
            × (valid_verifier verifier ≡ true)
            × (pkce verifier ≡ c.challenge))
        × (find_client client_id s.clients ≡ some client)
        × (g ≡ new_grant hash_of c client id refresh now)
        × ((exchange_code hash_of pkce code client_id uri verifier id refresh now wrote s).0.grants
            ≡ s.grants ++ g ∷ [])
        × ((exchange_code hash_of pkce code client_id uri verifier id refresh now wrote s).0.disk
            ≡ (s.clients, s.grants ++ g ∷ []))
  unfolding exchange_code saved
  exchange_code-ok code client_id uri verifier id refresh now wrote s g h =
      elim (Option-cases (lookup code s.codes)) [
        | inl e ↦ absurd (ground arith)
        | inr (c, e) ↦ elim (Option-cases (find_client client_id s.clients)) [
          | inl e2 ↦ absurd (ground arith)
          | inr (client, e2) ↦
              let good : good_code pkce c client_id uri verifier now ≡ true = ground arith in
              (
                c,
                client,
                e,
                unfold good_code in
                    (
                      ground arith,
                      ground (arith, eq_iff c.client_id client_id),
                      ground (arith, eq_iff c.redirect_uri uri),
                      ground arith,
                      ground (arith, eq_iff (pkce verifier) c.challenge),
                    ),
                e2,
                ground arith,
                ground arith,
                ground arith,
              )
        ]
      ]
