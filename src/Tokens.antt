-- ===== src/Tokens.antt =====
-- Roles, scopes and API tokens (pkg/server/tokens.go).
-- `glob` is path.Match: whether a pattern matches a text, or none if the pattern is not valid. `hash_of` is
-- SHA-256 in hexadecimal (hashSecret).
pub mod Store
pub mod Created
pub mod Inside
mod Tests
use native_ops.Base.{
  ℕ, zero, suc, ◌+◌, String, codes, Bool, true, false, not, ◌&&◌, ◌||◌, Option, none, some, List,
  [], ◌∷◌, ◌++◌, ltb, leb, ◌==◌, str_eq, if◌then◌else◌, length, all, Result, ok, err,
}
use native_ops.Base.Dict.{Dict, lookup}
use native_ops.Labels.{environments, between, one_of, is_in, valid_key}

-- a role is a text; `other` stands for the ones that the daemon does not know
pub data Role : Type 0 where
  viewer planner deployer admin other : Role

unfoldable pub rank : Role → ℕ
rank viewer = 1
rank planner = 2
rank deployer = 3
rank admin = 4
rank other = 0

unfoldable pub allows : Role → Role → Bool
unfolding rank
allows r min = ltb 0 (rank r) && leb (rank min) (rank r)

unfoldable pub valid_role : Role → Bool
unfolding rank
valid_role r = ltb 0 (rank r)

pub record Scope : Type 0 where
  pub names : List String
  pub images : List String
  pub domains : List String
  pub labels : Dict (List String)
  pub secrets : List String

-- `Any`: the scope limits something
unfoldable pub limits : Scope → Bool
limits s =
    ltb 0 (length s.names + length s.images + length s.domains + length s.labels + length s.secrets)

unfoldable pub secrets_only : Option Scope → Bool
secrets_only none = false
secrets_only (some s) = ltb 0 (length s.secrets)

abbrev pub starts_with : List ℕ → List ℕ → Bool
starts_with [] s = true
starts_with (c ∷ cs) [] = false
starts_with (c ∷ cs) (d ∷ ds) = c == d && starts_with cs ds

-- `secretPatternRe`: SERVICE_ and 1 to 56 of A-Z, 0-9, _, * and ?
abbrev is_secret_char : ℕ → Bool
is_secret_char c = between b'A' b'Z' c || (between b'0' b'9' c || one_of (codes "_*?") c)

abbrev pub after : ℕ → List ℕ → List ℕ
after zero s = s
after (suc n) [] = []
after (suc n) (c ∷ cs) = after n cs

unfoldable pub secret_pattern : String → Bool
secret_pattern p =
    let rest = after 8 (codes p) in
    starts_with (codes "SERVICE_") (codes p)
    && (between 1 56 (length rest) && all is_secret_char rest)

-- `patternRe`: 1 to 100 of letters, digits and * ? . _ : / @ -
abbrev is_pattern_char : ℕ → Bool
is_pattern_char c =
    between b'A' b'Z' c
    || (between b'a' b'z' c || (between b'0' b'9' c || one_of (codes "*?._:/@-") c))

unfoldable pub pattern_text : String → Bool
pattern_text p = between 1 100 (length (codes p)) && all is_pattern_char (codes p)

pub data ScopeError : Type 0 where
  secrets_and_more bad_secret_pattern no_name_or_image bad_pattern bad_label_key no_label_value :
      ScopeError
  bad_label_value not_an_environment : ScopeError

abbrev pub is_some : {A : Type 0} → Option A → Bool
is_some none = false
is_some (some _) = true

abbrev pub first_error : Option ScopeError → Option ScopeError → Option ScopeError
first_error none e = e
first_error (some e) _ = some e

module _ (glob : String → String → Option Bool) where
  -- whether the pattern is a valid one
  abbrev pub usable : (String → Bool) → String → Bool
  usable text p = text p && is_some (glob p "")

  unfoldable pub plain : List ℕ → Bool
  plain [] = true
  plain (c ∷ cs) = let rest = plain cs in if one_of (codes "*?[") c then false else rest

  unfoldable pub label_value_error : String → String → Option ScopeError
  unfolding pattern_text plain
  label_value_error key v =
      if not (usable pattern_text v)
      then some bad_label_value
      else if str_eq key "environment" && (plain (codes v) && not (is_in v environments))
      then some not_an_environment
      else none

  unfoldable pub label_values_error : String → List String → Option ScopeError
  unfolding label_value_error
  label_values_error key [] = none
  label_values_error key (v ∷ vs) =
      let rest = label_values_error key vs in first_error (label_value_error key v) rest

  unfoldable pub labels_error : Dict (List String) → Option ScopeError
  unfolding label_values_error valid_key
  labels_error [] = none
  labels_error ((key, values) ∷ rest) =
      let others = labels_error rest in
      if not (valid_key key)
      then some bad_label_key
      else if length values == 0
      then some no_label_value
      else first_error (label_values_error key values) others

  -- `Validate`
  unfoldable pub validate : Scope → Option ScopeError
  unfolding limits secret_pattern pattern_text labels_error
  validate s =
      if not (limits s)
      then none
      else if ltb 0 (length s.secrets)
      then (if ltb 0 (length s.names + length s.images + length s.domains + length s.labels)
          then some secrets_and_more
          else if all (usable secret_pattern) s.secrets
          then none
          else some bad_secret_pattern)
      else if length s.names == 0 || length s.images == 0
      then some no_name_or_image
      else if not (all (usable pattern_text) (s.names ++ s.images ++ s.domains))
      then some bad_pattern
      else labels_error s.labels

  -- `matchAny`
  unfoldable pub match_any : List String → String → Bool
  match_any [] v = false
  match_any (p ∷ ps) v =
      let rest = match_any ps v in elim (glob p v) [ some true ↦ true | _ ↦ rest ]

  unfoldable pub allows_name : Scope → String → Bool
  unfolding match_any
  allows_name s n = match_any s.names n

  unfoldable pub allows_image : Scope → String → Bool
  unfolding match_any
  allows_image s i = match_any s.images i

  unfoldable pub allows_domain : Scope → String → Bool
  unfolding match_any
  allows_domain s d = match_any s.domains d

  unfoldable pub allows_secret : Option Scope → String → Bool
  unfolding match_any secrets_only
  allows_secret none name = false
  allows_secret (some s) name =
      if not (secrets_only (some s)) || not (starts_with (codes "SERVICE_") (codes name))
      then false
      else match_any s.secrets name

  unfoldable pub allows_labels : Dict (List String) → Dict String → Bool
  unfolding match_any
  allows_labels [] labels = true
  allows_labels ((k, allowed) ∷ rest) labels =
      let others = allows_labels rest labels in
      elim (lookup k labels) [
        | none ↦ false
        | some v ↦ if match_any allowed v then others else false
      ]
