-- ===== src/Tokens/Store.antt =====
-- The token file and its copy in memory (TokenStore of pkg/server/tokens.go).
-- A file is a version, which stands for its identity, time and size, and the tokens that it decodes to; none
-- is a file that is not there. `readable` says whether the file may be read and decodes, `wrote` whether the
-- new file could be written, `version` is the new file's. A command on the host may put another file in its
-- place at any time: `replaced`.
use native_ops.Base.{
  ℕ, String, codes, Bool, true, false, not, ◌&&◌, ◌||◌, Option, none, some, List, [], ◌∷◌, ◌++◌,
  ltb, leb, ◌==◌, str_eq, str_take, if◌then◌else◌, length, all, trim_space, Result, ok, err,
}
use native_ops.Labels.{between, one_of}
use native_ops.Tokens.{
  Role, admin, deployer, valid_role, Scope, ScopeError, limits, validate, starts_with,
}

pub record Token : Type 0 where
  pub id : String
  pub name : List ℕ
  pub role : Role
  pub scope : Option Scope
  pub hash : String
  pub created : ℕ

pub record TokenStore : Type 0 where
  pub tokens : List Token
  pub loaded : Option ℕ
  pub bootstrap : Option Token
  pub disk : Option (ℕ × List Token)

pub data TokenError : Type 0 where
  bad_token_name unknown_role wrong_role unreadable not_written no_such_token bad_bootstrap :
      TokenError
  bad_scope : ScopeError → TokenError

abbrev same_file : Option ℕ → ℕ → Bool
same_file none v = false
same_file (some w) v = w == v

-- `reload`, and whether it went well
unfoldable pub reload : Bool → Bool → TokenStore → TokenStore × Bool
reload force readable s = elim s.disk [
  | none ↦ (record s { tokens = []; loaded = none }, true)
  | some file ↦
      if not force && same_file s.loaded file.0
      then (s, true)
      else if readable
      then (record s { tokens = file.1; loaded = some file.0 }, true)
      else (s, false)
]

unfoldable pub save : ℕ → TokenStore → TokenStore
save version s = record s { disk = some (version, s.tokens); loaded = some version }

unfoldable pub replaced : Option (ℕ × List Token) → TokenStore → TokenStore
replaced file s = record s { disk = file }

abbrev is_blank : ℕ → Bool
is_blank c = one_of (codes " \t\r\n") c

-- `ValidSecretFormat`
unfoldable pub valid_secret_format : String → Bool
valid_secret_format s =
    starts_with (codes "nops_") (codes s)
    && (leb 37 (length (codes s)) && all (λ c. not (is_blank c)) (codes s))

abbrev is_hex : ℕ → Bool
is_hex c = between b'0' b'9' c || between b'a' b'f' c

abbrev is_line_break : ℕ → Bool
is_line_break c = c == 10 || c == 13

abbrev pub scope_of : Scope → Option Scope
scope_of sc = if limits sc then some sc else none

unfoldable pub is_deployer : Role → Bool
is_deployer deployer = true
is_deployer _ = false

unfoldable pub without_token : String → List Token → Option (List Token)
without_token id [] = none
without_token id (t ∷ ts) =
    let rest = without_token id ts in
    if str_eq t.id id then some ts else elim rest [ none ↦ none | some others ↦ some (t ∷ others) ]

unfoldable pub revoke_token : String → Bool → Bool → ℕ → TokenStore → TokenStore × Option TokenError
unfolding reload save without_token
revoke_token id readable wrote version s =
    let (s1, read) = reload true readable s in
    if not read then (s1, some unreadable) else elim (without_token id s1.tokens) [
      | none ↦ (s1, some no_such_token)
      | some ts ↦
          let s2 = record s1 { tokens = ts } in
          if wrote then (save version s2, none) else (s2, some not_written)
    ]

-- the loop of `Verify`: the last token that has the hash
unfoldable pub last_with : String → List Token → Option Token → Option Token
last_with h [] found = found
last_with h (t ∷ ts) found = last_with h ts (if str_eq t.hash h then some t else found)

abbrev pub considered : String → Option Token → Option Token
considered h none = none
considered h (some t) = if str_eq t.hash h then some t else none

module _ (hash_of : String → String) where
  unfoldable pub set_bootstrap : String → TokenStore → TokenStore × Option TokenError
  unfolding valid_secret_format
  set_bootstrap secret s = if not (valid_secret_format secret) then (s, some bad_bootstrap) else (
    record s {
      bootstrap = some (record {
        id = "bootstrap";
        name = codes "bootstrap";
        role = admin;
        scope = none;
        hash = hash_of secret;
        created = 0;
      });
    },
    none,
  )

  abbrev pub new_token : List ℕ → Role → Scope → String → ℕ → Token
  new_token name role sc secret now = record {
    id = str_take 8 (hash_of secret);
    name = trim_space name;
    role = role;
    scope = scope_of sc;
    hash = hash_of secret;
    created = now;
  }

  -- `CreateScoped`; `secret` is the random secret with its prefix. A token that could not be saved stays in
  -- memory, with a secret that nobody was told.
  unfoldable pub create_scoped :
      (String → String → Option Bool)
      → List ℕ
      → Role
      → Scope
      → String
      → ℕ
      → Bool
      → Bool
      → ℕ
      → TokenStore
      → TokenStore × Result TokenError Token
  unfolding valid_role validate limits reload save is_deployer
  create_scoped glob name role sc secret now readable wrote version s =
      if (length (trim_space name) == 0)
        || (ltb 60 (length (trim_space name))
            || not (all (λ c. not (is_line_break c)) (trim_space name)))
      then (s, err bad_token_name)
      else if not (valid_role role)
      then (s, err unknown_role)
      else elim (validate glob sc) [
        | some e ↦ (s, err (bad_scope e))
        | none ↦
            if limits sc && not (is_deployer role)
            then (s, err wrong_role)
            else (let (s1, read) = reload true readable s in
                let t = new_token name role sc secret now in
                let s2 = record s1 { tokens = s1.tokens ++ t ∷ [] } in
                if not read
                then (s1, err unreadable)
                else if wrote
                then (save version s2, ok t)
                else (s2, err not_written))
      ]

  unfoldable pub verify : String → Bool → TokenStore → TokenStore × Option Token
  unfolding valid_secret_format reload last_with
  verify secret readable s =
      if not (valid_secret_format secret)
      then (s, none)
      else (let (s1, read) = reload false readable s in
          (s1, last_with (hash_of secret) s1.tokens (considered (hash_of secret) s1.bootstrap)))
