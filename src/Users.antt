-- ===== src/Users.antt =====
-- The people who sign in to the daemon (pkg/server/users.go): their names, and what a name and a password
-- have to look like. A text is the list of its characters' codes, in ASCII.
pub mod Store
pub mod Naming
pub mod Emails
pub mod Keeping
pub mod Calls
pub mod Passwords
mod Tests
use native_ops.Base.{
  ℕ, zero, suc, ◌+◌, codes, Bool, true, false, not, ◌&&◌, ◌||◌, Option, none, some, List, [], ◌∷◌,
  ◌++◌, ltb, leb, ◌==◌, if◌then◌else◌, length, take, all, contains, trim_space,
}
use native_ops.Base.Bytes.{same, lower, trim_start, trim_end, split_at, split_at_last, decimal}
use native_ops.Labels.{between}
use native_ops.Tokens.{Role}

-- `unset` stands for the empty text of an old file
pub data Provider : Type 0 where
  unset local oidc : Provider

-- `last_login` is none for the empty text; `hash` is empty for a user with no password
pub record User : Type 0 where
  pub username : List ℕ
  pub name : List ℕ
  pub role : Role
  pub provider : Provider
  pub email : List ℕ
  pub hash : List ℕ
  pub disabled : Bool
  pub created : ℕ
  pub last_login : Option ℕ

abbrev pub empty : List ℕ → Bool
empty [] = true
empty (c ∷ cs) = false

abbrev pub is_alnum : ℕ → Bool
is_alnum c = between b'a' b'z' c || between b'0' b'9' c

-- a character of a username
abbrev pub is_name_char : ℕ → Bool
is_name_char c = is_alnum c || contains c (codes "._-")

-- `usernameRe`: 3 to 40 of these, the first a letter or a digit
unfoldable pub valid_username : List ℕ → Bool
valid_username [] = false
valid_username (c ∷ cs) = is_alnum c && (between 2 39 (length cs) && all is_name_char cs)

unfoldable pub valid_password : List ℕ → Bool
valid_password pw =
    not (ltb (length pw) 12 || ltb 72 (length pw))
    && all (λ c. not (c == 10 || (c == 13 || c == 0))) pw

abbrev is_blank : ℕ → Bool
is_blank c = contains c (32 ∷ 9 ∷ 10 ∷ 12 ∷ 13 ∷ [])

abbrev is_domain_char : ℕ → Bool
is_domain_char c = is_alnum c || contains c (codes ".-")

-- `emailRe`: the part before the @, and the last label of the domain, which has no dot
unfoldable pub valid_email : List ℕ → Bool
valid_email email = elim (split_at b'@' email) [
  | none ↦ false
  | some parts ↦
      between 1 64 (length parts.0)
      && (all (λ c. not (is_blank c)) parts.0 && elim (split_at_last b'.' parts.1) [
        | none ↦ false
        | some domain ↦
            between 1 190 (length domain.0)
            && (all is_domain_char domain.0
                && (leb 2 (length domain.1) && all (between b'a' b'z') domain.1))
      ])
]

abbrev local_part : List ℕ → List ℕ
local_part email = elim (split_at b'@' email) [
  | none ↦ email
  | some parts ↦ if empty parts.0 then email else parts.0
]

-- the loop of `usernameForEmail`
unfoldable pub name_chars : List ℕ → List ℕ
name_chars [] = []
name_chars (c ∷ cs) = (if is_name_char c then c else b'.') ∷ name_chars cs

abbrev pub long_enough : List ℕ → List ℕ
long_enough s =
    let s1 = if empty s then codes "oidc-user" else s in
    if ltb (length s1) 3 then s1 ++ codes "-user" else s1

unfoldable pub username_for_email : List ℕ → List ℕ
unfolding name_chars
username_for_email email =
    let s =
      trim_end (codes ".-_") (trim_start (codes ".-_") (name_chars (lower (local_part email)))) in
    long_enough (if ltb 40 (length s) then take 40 s else s)

-- the user at the index that `find` and the loops over emails look for
unfoldable pub first : (User → Bool) → List User → Option User
first p [] = none
first p (u ∷ us) = if p u then some u else first p us

-- `s.users[i].X = ...` at that index
unfoldable pub at_first : (User → Bool) → (User → User) → List User → List User
at_first p f [] = []
at_first p f (u ∷ us) = if p u then f u ∷ us else u ∷ at_first p f us

-- how `find` reads the name that it is given
abbrev pub key : List ℕ → List ℕ
key username = lower (trim_space username)

abbrev pub named : List ℕ → User → Bool
named username u = same u.username (key username)

abbrev pub is_found : Option User → Bool
is_found none = false
is_found (some u) = true

unfoldable pub find : List ℕ → List User → Option User
unfolding first
find username us = first (named username) us

abbrev with_number : List ℕ → ℕ → List ℕ
with_number base n = base ++ b'-' ∷ decimal n

-- the loop of `freeUsername`, with at most `fuel` rounds
unfoldable pub free_from : ℕ → List ℕ → ℕ → List ℕ → List User → Option (List ℕ)
unfolding find
free_from zero base n name us = none
free_from (suc fuel) base n name us =
    let rest = free_from fuel base (suc n) (with_number base n) us in
    if is_found (find name us) then rest else some name

-- one round more than there are users
unfoldable pub free_username : List ℕ → List User → Option (List ℕ)
unfolding free_from
free_username base us = free_from (suc (length us)) base 2 base us
