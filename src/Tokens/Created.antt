-- ===== src/Tokens/Created.antt =====
-- Tokens from their creation to their end (TokenStore of pkg/server/tokens.go).
use native_ops.Base.{
  ℕ, ◌≡◌, ◌≢◌, ◌⊎◌, inl, inr, refl, arith, String, Bool, true, Option, none, some, List, [], ◌∷◌,
  ◌++◌, All, str_eq, if◌then◌else◌, eq_iff, Option-cases, ok,
}
use native_ops.Tokens.{Role, Scope, limits, validate}
use native_ops.Tokens.Store.{
  Token, TokenStore, reload, save, replaced, valid_secret_format, new_token, create_scoped,
  without_token, revoke_token, last_with, considered, verify, is_deployer,
}

last_with-append :
    (h : String) (ts : List Token) (t : Token) (found : Option Token)
    → t.hash ≡ h
    → last_with h (ts ++ t ∷ []) found ≡ some t
unfolding last_with
last_with-append h [] t found e = ground (arith, eq_iff t.hash h)
last_with-append h (x ∷ xs) t found e =
    last_with-append h xs t (if str_eq x.hash h then some x else found) e

abbrev pub NoHash : String → List Token → Type 0
NoHash h ts = All (λ t. t.hash ≢ h) ts

last_with-NoHash : (h : String) (ts : List Token) → NoHash h ts → last_with h ts none ≡ none
unfolding last_with
last_with-NoHash h [] n = refl
last_with-NoHash h (t ∷ ts) n = ground (arith, eq_iff t.hash h, n.0, last_with-NoHash h ts n.1)

-- only one token has the hash, and it is the first of this identifier
abbrev pub OnlyFirst : String → String → List Token → Type 0
OnlyFirst id h [] = Unit
OnlyFirst id h (t ∷ ts) =
    ((t.id ≡ id) × NoHash h ts) ⊎ ((t.id ≢ id) × (t.hash ≢ h) × OnlyFirst id h ts)

without_token-NoHash :
    (id h : String) (ts left : List Token)
    → OnlyFirst id h ts
    → without_token id ts ≡ some left
    → NoHash h left
unfolding without_token
without_token-NoHash id h [] left o e = absurd (ground arith)
without_token-NoHash id h (t ∷ ts) left (inl (same, none_after)) e =
    let is : ts ≡ left = ground (arith, eq_iff t.id id) in rw (← is) none_after
without_token-NoHash id h (t ∷ ts) left (inr (other, apart, rest)) e =
    elim (Option-cases (without_token id ts)) [
      | inl e2 ↦ absurd (ground (arith, eq_iff t.id id))
      | inr (xs, e2) ↦
          let is : t ∷ xs ≡ left = ground (arith, eq_iff t.id id) in
          rw (← is) (apart, without_token-NoHash id h ts xs rest e2)
    ]

-- the store of a daemon that has just started on the file
abbrev pub reopened : TokenStore → TokenStore
reopened s =
    (reload true true (record { tokens = []; loaded = none; bootstrap = none; disk = s.disk })).0

module _ (hash_of : String → String) where
  -- A token that was created is what its secret stands for, at once and after a restart; a limited one is a
  -- deployer's, and its scope is one that Validate accepts.
  pub create_scoped-verify :
      (glob : String → String → Option Bool) (name : List ℕ) (role : Role) (sc : Scope)
      (secret : String) (now version : ℕ) (readable readable2 wrote : Bool) (s : TokenStore)
      (t : Token)
      → valid_secret_format secret ≡ true
      → (create_scoped hash_of glob name role sc secret now readable wrote version s).1 ≡ ok t
      → let s' = (create_scoped hash_of glob name role sc secret now readable wrote version s).0 in
        ((verify hash_of secret readable2 s').1 ≡ some t)
        × ((verify hash_of secret readable2 (reopened s')).1 ≡ some t)
        × (validate glob sc ≡ none)
        × (limits sc ≡ true → (is_deployer t.role ≡ true) × (t.scope ≡ some sc))
  unfolding create_scoped verify reload save
  create_scoped-verify glob name role sc secret now version readable readable2 wrote s t form made =
      let fresh = new_token hash_of name role sc secret now in
      let s1 = (reload true readable s).0 in
      let found =
        last_with-append (hash_of secret) s1.tokens fresh (considered (hash_of secret) s1.bootstrap)
          refl in
      let again = last_with-append (hash_of secret) s1.tokens fresh none refl in
      let is : fresh ≡ t = ground arith in
      (
        ground (arith, found, is),
        ground (arith, again, is),
        ground arith,
        λ limited. ground (arith, is),
      )

  -- A token that was revoked is refused at once, and after a restart. (It is the first of its identifier, no
  -- other token has its secret, and the secret is not the bootstrap token's.)
  pub revoke_token-verify :
      (id secret : String) (version file : ℕ) (ts : List Token) (readable readable2 wrote : Bool)
      (s : TokenStore)
      → s.disk ≡ some (file, ts)
      → OnlyFirst id (hash_of secret) ts
      → considered (hash_of secret) s.bootstrap ≡ none
      → (revoke_token id readable wrote version s).1 ≡ none
      → let s' = (revoke_token id readable wrote version s).0 in
        ((verify hash_of secret readable2 s').1 ≡ none)
        × ((verify hash_of secret readable2 (reopened s')).1 ≡ none)
  unfolding revoke_token verify reload save
  revoke_token-verify id secret version file ts readable readable2 wrote s there only no_bootstrap
        done =
      elim (Option-cases (without_token id ts)) [
        | inl e ↦ absurd (ground arith)
        | inr (left, e) ↦
            let gone =
              last_with-NoHash (hash_of secret) left
                (without_token-NoHash id (hash_of secret) ts left only e) in
            (ground (arith, gone), ground (arith, gone))
      ]

  -- A token that was taken out of the file by a command on the host is refused from the next request on: the
  -- file there is another one than the daemon has read, and it is read before the secret is looked for.
  pub verify-replaced :
      (secret : String) (file : ℕ) (ts : List Token) (s : TokenStore)
      → s.loaded ≢ some file
      → NoHash (hash_of secret) ts
      → considered (hash_of secret) s.bootstrap ≡ none
      → (verify hash_of secret true (replaced (some (file, ts)) s)).1 ≡ none
  unfolding verify reload replaced
  verify-replaced secret file ts s new gone no_bootstrap =
      let none_left = last_with-NoHash (hash_of secret) ts gone in
      elim (Option-cases s.loaded) [
        | inl e ↦ ground (arith, none_left)
        | inr (v, e) ↦ ground (arith, none_left, new)
      ]
