-- ===== src/Users/Store.antt =====
-- The user file and its copy in memory (UserStore of pkg/server/users.go).
-- A file is a version, which stands for its identity, time and size, and the users that it decodes to. A
-- call is told whether the file may be read and decodes (`readable`), whether the new file could be written
-- and what its version is. A command on the host may put another file in its place at any time: `replaced`.
-- `generate` is bcrypt's GenerateFromPassword with the salt of the call, none if it refuses; `compare` is
-- bcrypt's comparison.
use native_ops.Base.{
  ℕ, Bool, true, false, not, ◌&&◌, ◌||◌, Option, none, some, List, [], ◌∷◌, ◌++◌, ◌==◌,
  if◌then◌else◌, length, trim_space, Result, ok, err,
}
use native_ops.Base.Bytes.{same}
use native_ops.Tokens.{Role, valid_role}
use native_ops.Users.{
  unset, local, oidc, User, empty, valid_username, valid_password, valid_email, username_for_email,
  key, named, first, at_first, find, free_username, is_found,
}

pub record UserStore : Type 0 where
  pub users : List User
  pub loaded : Option ℕ
  pub disk : Option (ℕ × List User)

pub data UserError : Type 0 where
  bad_username bad_password bad_email unknown_role no_hash unreadable user_exists no_such_user
        no_account not_written no_free_name wrong_login :
      UserError

-- what a call is told by the host
pub record Host : Type 0 where
  pub readable : Bool
  pub wrote : Bool
  pub version : ℕ
  pub now : ℕ

abbrev pub same_file : Option ℕ → ℕ → Bool
same_file none v = false
same_file (some w) v = w == v

-- `reload`, and whether it went well
unfoldable pub reload : Bool → Bool → UserStore → UserStore × Bool
reload force readable s = elim s.disk [
  | none ↦ (record s { users = []; loaded = none }, true)
  | some file ↦
      if not force && same_file s.loaded file.0
      then (s, true)
      else if readable
      then (record s { users = file.1; loaded = some file.0 }, true)
      else (s, false)
]

unfoldable pub save : ℕ → UserStore → UserStore
save version s = record s { disk = some (version, s.users); loaded = some version }

-- `OpenUserStore`; none is the error
unfoldable pub open_user_store : Bool → Option (ℕ × List User) → Option UserStore
unfolding reload
open_user_store readable file =
    let (s, read) = reload true readable (record { users = []; loaded = none; disk = file }) in
    if read then some s else none

unfoldable pub replaced : Option (ℕ × List User) → UserStore → UserStore
replaced file s = record s { disk = file }

-- the list changes in memory first; a failed save leaves it changed
unfoldable pub store_users : Host → List User → UserStore → UserStore × Option UserError
unfolding save
store_users io us s =
    let s1 = record s { users = us } in
    if io.wrote then (save io.version s1, none) else (s1, some not_written)

abbrev pub shown : User → User
shown u = record u { hash = [] }

-- a call that reads the file first
abbrev pub reading {ℓ} :
    {A : Type ℓ} → Host → A → (UserStore → UserStore × A) → UserStore → UserStore × A
reading io failed f s =
    let (s1, read) = reload false io.readable s in if read then f s1 else (s1, failed)

abbrev pub answered :
    {A : Type 0} → A → UserStore × Option UserError → UserStore × Result UserError A
answered a (s, none) = (s, ok a)
answered a (s, some e) = (s, err e)

unfoldable pub count : Host → UserStore → UserStore × Result UserError ℕ
unfolding reload
count io = reading io (err unreadable) (λ s. (s, ok (length s.users)))

abbrev pub shown_all : List User → List User
shown_all [] = []
shown_all (u ∷ us) = shown u ∷ shown_all us

unfoldable pub list : Host → UserStore → UserStore × Result UserError (List User)
unfolding reload
list io = reading io (err unreadable) (λ s. (s, ok (shown_all s.users)))

unfoldable pub get : Host → List ℕ → UserStore → UserStore × Result UserError (Option User)
unfolding reload find
get io username =
    reading io (err unreadable)
      (λ s. (s, ok (elim (find username s.users) [ none ↦ none | some u ↦ some (shown u) ])))

abbrev pub new_local : List ℕ → List ℕ → Role → List ℕ → ℕ → User
new_local username name role hash now = record {
  username = key username;
  name = trim_space name;
  role = role;
  provider = local;
  email = [];
  hash = hash;
  disabled = false;
  created = now;
  last_login = none;
}

-- `CreateLocal`, when the file was read
unfoldable pub create_in :
    Host → List ℕ → List ℕ → Role → List ℕ → UserStore → UserStore × Result UserError User
unfolding find store_users
create_in io username name role h s =
    if is_found (find (key username) s.users)
    then (s, err user_exists)
    else (let u = new_local username name role h io.now in
        answered (shown u) (store_users io (s.users ++ u ∷ []) s))

-- `CreateLocal`
unfoldable pub create_local :
    Host
    → List ℕ
    → List ℕ
    → Role
    → List ℕ
    → (List ℕ → Option (List ℕ))
    → UserStore
    → UserStore × Result UserError User
unfolding reload create_in
create_local io username name role password generate s =
    if not (valid_username (key username))
    then (s, err bad_username)
    else if not (valid_role role)
    then (s, err unknown_role)
    else if not (valid_password password)
    then (s, err bad_password)
    else elim (generate password) [
      | none ↦ (s, err no_hash)
      | some h ↦ reading io (err unreadable) (create_in io username name role h) s
    ]

-- the user of a name changes, if there is one; `missing` is the answer if not
unfoldable pub change_in :
    Host → Option UserError → List ℕ → (User → User) → UserStore → UserStore × Option UserError
unfolding find store_users
change_in io missing username f s =
    if is_found (find username s.users)
    then store_users io (at_first (named username) f s.users) s
    else (s, missing)

unfoldable pub change : Host → List ℕ → (User → User) → UserStore → UserStore × Option UserError
unfolding reload change_in
change io username f s =
    reading io (some unreadable) (change_in io (some no_such_user) username f) s

abbrev pub with_hash : List ℕ → User → User
with_hash h u = record u { hash = h; provider = elim u.provider [ unset ↦ local | p ↦ p ] }

unfoldable pub set_password :
    Host → List ℕ → List ℕ → (List ℕ → Option (List ℕ)) → UserStore → UserStore × Option UserError
unfolding change
set_password io username password generate s =
    if not (valid_password password) then (s, some bad_password) else elim (generate password) [
      | none ↦ (s, some no_hash)
      | some h ↦ change io username (with_hash h) s
    ]

unfoldable pub set_role : Host → List ℕ → Role → UserStore → UserStore × Option UserError
unfolding change
set_role io username role s =
    if not (valid_role role)
    then (s, some unknown_role)
    else change io username (λ u. record u { role = role }) s

unfoldable pub set_disabled : Host → List ℕ → Bool → UserStore → UserStore × Option UserError
unfolding change
set_disabled io username disabled s = change io username (λ u. record u { disabled = disabled }) s

-- `TouchLogin`: a user that is gone is no error
unfoldable pub touch_login : Host → List ℕ → UserStore → UserStore × Option UserError
unfolding reload change_in
touch_login io username s =
    reading io (some unreadable)
      (change_in io none username (λ u. record u { last_login = some io.now })) s

abbrev pub new_oidc : List ℕ → List ℕ → Role → List ℕ → ℕ → User
new_oidc username name role email now = record {
  username = username;
  name = name;
  role = role;
  provider = oidc;
  email = email;
  hash = [];
  disabled = false;
  created = now;
  last_login = none;
}

abbrev pub has_email : List ℕ → User → Bool
has_email email u = not (empty u.email) && same u.email email

abbrev pub linked : List ℕ → User → User
linked name u = record u { provider = oidc; name = if empty name then u.name else name }

-- `FindOrCreateOIDC`, when the file was read; a role of none is OIDCRoleNone. `no_free_name` stands for a
-- search for a name that does not end.
unfoldable pub oidc_in :
    Host → List ℕ → List ℕ → Option Role → UserStore → UserStore × Result UserError User
unfolding first store_users free_username
oidc_in io email name role s = elim (first (has_email email) s.users) [
  | some u ↦
      answered (shown (linked name u))
        (store_users io (at_first (has_email email) (linked name) s.users) s)
  | none ↦ elim role [
    | none ↦ (s, err no_account)
    | some r ↦ elim (free_username (username_for_email email) s.users) [
      | none ↦ (s, err no_free_name)
      | some username ↦
          let u = new_oidc username name r email io.now in
          answered (shown u) (store_users io (s.users ++ u ∷ []) s)
    ]
  ]
]

unfoldable pub find_or_create_oidc :
    Host → List ℕ → List ℕ → Option Role → UserStore → UserStore × Result UserError User
unfolding reload oidc_in
find_or_create_oidc io email name role s =
    reading io (err unreadable) (oidc_in io (key email) name role) s

-- the role, the name and the disabled flag that UpsertByEmail sets
abbrev pub with_access : List ℕ → Role → Option Bool → User → User
with_access name role disabled u = record u {
  role = role;
  name = if empty (trim_space name) then u.name else trim_space name;
  disabled = elim disabled [ none ↦ u.disabled | some d ↦ d ];
}

-- this loop over emails has no test for the empty one
abbrev pub of_email : List ℕ → User → Bool
of_email email u = same u.email email

-- `UpsertByEmail`, when the file was read, and whether the user was created
unfoldable pub upsert_in :
    Host
    → List ℕ
    → List ℕ
    → Role
    → Option Bool
    → UserStore
    → UserStore × Result UserError (User × Bool)
unfolding first store_users free_username
upsert_in io email name role disabled s = elim (first (of_email email) s.users) [
  | some u ↦
      answered (shown (with_access name role disabled u), false)
        (store_users io (at_first (of_email email) (with_access name role disabled) s.users) s)
  | none ↦ elim (free_username (username_for_email email) s.users) [
    | none ↦ (s, err no_free_name)
    | some username ↦
        let u =
          with_access name role disabled (new_oidc username (trim_space name) role email io.now) in
        answered (shown u, true) (store_users io (s.users ++ u ∷ []) s)
  ]
]

unfoldable pub upsert_by_email :
    Host
    → List ℕ
    → List ℕ
    → Role
    → Option Bool
    → UserStore
    → UserStore × Result UserError (User × Bool)
unfolding reload upsert_in
upsert_by_email io email name role disabled s =
    if not (valid_email (key email))
    then (s, err bad_email)
    else if not (valid_role role)
    then (s, err unknown_role)
    else reading io (err unreadable) (upsert_in io (key email) name role disabled) s

module _ (compare : List ℕ → List ℕ → Bool) (dummy_hash : List ℕ) where
  abbrev compared : Option User → List ℕ
  compared none = dummy_hash
  compared (some u) = if empty u.hash then dummy_hash else u.hash

  abbrev pub verdict : List ℕ → Option User → Result UserError User
  verdict password found =
      let matches = compare (compared found) password in
      elim found [
        | none ↦ err wrong_login
        | some u ↦
            if not matches || (u.disabled || empty u.hash) then err wrong_login else ok (shown u)
      ]

  -- `Authenticate`: the comparison is made whether there is such a user or not
  unfoldable pub authenticate :
      Host → List ℕ → List ℕ → UserStore → UserStore × Result UserError User
  unfolding reload find
  authenticate io username password s =
      reading io (err unreadable) (λ t. (t, verdict password (find username t.users))) s
