-- ===== src/Labels.antt =====
-- The vocabulary of labels (pkg/labels/labels.go).
use native_ops.Base.{
  ℕ, String, codes, Bool, false, not, ◌&&◌, ◌||◌, Option, none, some, List, [], ◌∷◌, ltb, leb, ◌==◌,
  str_eq, if◌then◌else◌, length, all,
}
use native_ops.Base.Dict.{Dict}

abbrev pub environments : List String
environments = "production" ∷ "staging" ∷ "testing" ∷ "development" ∷ "demo" ∷ []

abbrev pub max_labels : ℕ
max_labels = 16

abbrev pub between : ℕ → ℕ → ℕ → Bool
between low high c = leb low c && leb c high

abbrev pub one_of : List ℕ → ℕ → Bool
one_of [] c = false
one_of (d ∷ ds) c = c == d || one_of ds c

abbrev pub is_in : String → List String → Bool
is_in x [] = false
is_in x (y ∷ ys) = str_eq y x || is_in x ys

-- `keyRe`: a lowercase letter, then up to 31 lowercase letters, digits or dashes
abbrev is_key_char : ℕ → Bool
is_key_char c = between b'a' b'z' c || (between b'0' b'9' c || c == b'-')

unfoldable pub valid_key : String → Bool
valid_key key = elim (codes key) [
  | [] ↦ false
  | c ∷ cs ↦ between b'a' b'z' c && (leb (length cs) 31 && all is_key_char cs)
]

-- `valueRe`: a letter or digit, then up to 62 of letters, digits and . _ -
abbrev is_alnum : ℕ → Bool
is_alnum c = between b'A' b'Z' c || (between b'a' b'z' c || between b'0' b'9' c)

unfoldable pub valid_value : String → Bool
valid_value v = elim (codes v) [
  | [] ↦ false
  | c ∷ cs ↦
      is_alnum c && (leb (length cs) 62 && all (λ d. is_alnum d || one_of (codes "._-") d) cs)
]

pub data LabelError : Type 0 where
  too_many bad_key bad_value no_environment : LabelError

-- the loop of `Validate`
unfoldable pub label_error : Dict String → Option LabelError
unfolding valid_key valid_value
label_error [] = none
label_error ((k, v) ∷ rest) =
    let others = label_error rest in
    if not (valid_key k)
    then some bad_key
    else if not (valid_value v)
    then some bad_value
    else if str_eq k "environment" && not (is_in v environments)
    then some no_environment
    else others

unfoldable pub validate_labels : Dict String → Option LabelError
unfolding label_error
validate_labels labels =
    if ltb max_labels (length labels) then some too_many else label_error labels
