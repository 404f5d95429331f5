-- ===== src/Users/Passwords.antt =====
-- Who a password lets in (CreateLocal, SetPassword, SetDisabled and Authenticate of pkg/server/users.go).
use native_ops.Base.{
  ℕ, ◌≡◌, ◌≢◌, refl, sym, ◌∙◌, ap, arith, Bool, true, false, not, ◌&&◌, Option, none, some, List,
  [], ◌∷◌, ◌++◌, Bool-cases, Option-cases, inl, inr, if◌then◌else◌, Result, ok, err,
}
use native_ops.Base.Bytes.{same, same_refl, same_eq}
use native_ops.Tokens.{Role}
use native_ops.Users.{User, empty, key, named, first, at_first, find, is_found, valid_username}
use native_ops.Users.Store.{
  UserStore, UserError, wrong_login, Host, reload, save, store_users, create_in, create_local,
  new_local, change_in, change, with_hash, set_password, set_disabled, shown, verdict, authenticate,
}
use native_ops.Users.Naming.{Clean-key}
use native_ops.Users.Emails.{valid_username-Clean}
use native_ops.Users.Keeping.{Renames}

-- the file is what is in memory, and is known to be
abbrev pub Saved : UserStore → Type 0
Saved s = (v : ℕ) × (s.loaded ≡ some v) × (s.disk ≡ some (v, s.users))

-- the store of a daemon that has just started on the file
abbrev pub reopened : UserStore → UserStore
reopened s = (reload true true (record { users = []; loaded = none; disk = s.disk })).0

-- the users that a call finds
abbrev pub read_users : Host → UserStore → List User
read_users io s = (reload false io.readable s).0.users

create_local-ok :
    (io : Host) (username name : List ℕ) (r : Role) (pw : List ℕ)
    (generate : List ℕ → Option (List ℕ)) (s : UserStore) (u : User)
    → (create_local io username name r pw generate s).1 ≡ ok u
    → (h : List ℕ) × (generate pw ≡ some h)
      × (valid_username (key username) ≡ true)
      × (find (key username) (read_users io s) ≡ none)
      × (u ≡ shown (new_local username name r h io.now))
      × ((create_local io username name r pw generate s).0.users
          ≡ read_users io s ++ new_local username name r h io.now ∷ [])
      × Saved (create_local io username name r pw generate s).0
unfolding create_local create_in store_users save
create_local-ok io username name r pw generate s u e = elim (Option-cases (generate pw)) [
  | inl refused ↦ absurd (ground (arith, refused))
  | inr (h, made) ↦ (
    h,
    made,
    ground (arith, made),
    ground (arith, made),
    ground (arith, made),
    ground (arith, made),
    (io.version, ground (arith, made), ground (arith, made)),
  )
]

change-ok :
    (io : Host) (username : List ℕ) (f : User → User) (s : UserStore)
    → (change io username f s).1 ≡ none
    → (is_found (find username (read_users io s)) ≡ true)
      × ((change io username f s).0.users ≡ at_first (named username) f (read_users io s))
      × Saved (change io username f s).0
unfolding change change_in store_users save
change-ok io username f s e = (ground arith, ground arith, (io.version, ground arith, ground arith))

find-append :
    (k : List ℕ) (us : List User) (u : User)
    → find k (us ++ u ∷ [])
      ≡ elim (find k us) [ some v ↦ some v | none ↦ if named k u then some u else none ]
unfolding find first
find-append k [] u = refl
find-append k (v ∷ us) u = ground (arith, find-append k us u)

-- names with one key find the same user
find-key : (j k : List ℕ) (us : List User) → key j ≡ key k → find j us ≡ find k us
unfolding find
find-key j k us e = ap (λ m. first (λ u. same u.username m) us) e

differ : (s t : List ℕ) → t ≢ s → same s t ≡ false
differ s t n = elim (Bool-cases (same s t)) [ inl y ↦ absurd (n (sym (same_eq s t y))) | inr f ↦ f ]

-- `find` sees a change of the user of one name under that name alone
find-at_first :
    (k username : List ℕ) (f : User → User) (us : List User)
    → Renames f
    → find k (at_first (named username) f us) ≡ (
        if same (key username) (key k)
        then elim (find k us) [ none ↦ none | some u ↦ some (f u) ]
        else find k us)
unfolding find first at_first
find-at_first k username f [] r = elim (Bool-cases (same (key username) (key k))) [
  | inl y ↦ rw y refl
  | inr n ↦ rw n refl
]
find-at_first k username f (u ∷ us) r =
    let ih = find-at_first k username f us r in
    ground (
      arith,
      ih,
      (r u).0,
      same_eq u.username (key username),
      same_eq u.username (key k),
      same_eq (key username) (key k),
      same_refl (key k),
      same_refl (key username),
      same_refl u.username,
    )

found_user : (o : Option User) → is_found o ≡ true → (u : User) × (o ≡ some u)
found_user none h = absurd (ground arith)
found_user (some u) h = (u, refl)

-- whom a name finds after a change of one user
pub change-find :
    (io : Host) (username : List ℕ) (f : User → User) (s : UserStore)
    → Renames f
    → (change io username f s).1 ≡ none
    → (k : List ℕ)
    → (u : User) × (find username (read_users io s) ≡ some u)
      × (key k ≡ key username → find k (change io username f s).0.users ≡ some (f u))
      × (key k ≢ key username → find k (change io username f s).0.users ≡ find k (read_users io s))
      × Saved (change io username f s).0
change-find io username f s r e k =
    let (there, users, saved) = change-ok io username f s e in
    let look = ap (find k) users ∙ find-at_first k username f (read_users io s) r in
    let (u, is) = found_user (find username (read_users io s)) there in
    (
      u,
      is,
      λ same_key.
          let y : same (key username) (key k) ≡ true = rw same_key (same_refl (key username)) in
          let there' = find-key k username (read_users io s) same_key ∙ is in
          look ∙ ground (arith, there', y),
      λ other_key. let n = differ (key username) (key k) other_key in look ∙ ground (arith, n),
      saved,
    )

set_password-change :
    (io : Host) (username pw h : List ℕ) (generate : List ℕ → Option (List ℕ)) (s : UserStore)
    → generate pw ≡ some h
    → (set_password io username pw generate s).1 ≡ none
    → set_password io username pw generate s ≡ change io username (with_hash h) s
unfolding set_password
set_password-change io username pw h generate s hashed e = ground (arith, hashed, e)

module _ (compare : List ℕ → List ℕ → Bool) (dummy_hash : List ℕ) where
  authenticate-Saved :
      (io : Host) (k pw : List ℕ) (s : UserStore)
      → Saved s
      → (authenticate compare dummy_hash io k pw s).1
        ≡ verdict compare dummy_hash pw (find k s.users)
  unfolding authenticate reload
  authenticate-Saved io k pw s (v, l, d) = ground (arith, l, d)

  authenticate-reopened :
      (io : Host) (k pw : List ℕ) (s : UserStore)
      → Saved s
      → (authenticate compare dummy_hash io k pw (reopened s)).1
        ≡ verdict compare dummy_hash pw (find k s.users)
  unfolding authenticate reload
  authenticate-reopened io k pw s (v, l, d) = ground (arith, l, d)

  -- what a name and a password answer, now and to a daemon that starts again on the file
  abbrev pub Answers : Host → List ℕ → List ℕ → UserStore → Result UserError User → Type 0
  Answers io k pw s answer =
      ((authenticate compare dummy_hash io k pw s).1 ≡ answer)
      × ((authenticate compare dummy_hash io k pw (reopened s)).1 ≡ answer)

  Saved-Answers :
      (io : Host) (k pw : List ℕ) (s : UserStore)
      → Saved s
      → Answers io k pw s (verdict compare dummy_hash pw (find k s.users))
  Saved-Answers io k pw s v = (authenticate-Saved io k pw s v, authenticate-reopened io k pw s v)

  to_answer :
      (io : Host) (k pw : List ℕ) (s : UserStore) {a b : Result UserError User}
      → Answers io k pw s a
      → a ≡ b
      → Answers io k pw s b
  to_answer io k pw s h e = (h.0 ∙ e, h.1 ∙ e)

  change-Answers :
      (io : Host) (username : List ℕ) (f : User → User) (s : UserStore)
      → Renames f
      → (change io username f s).1 ≡ none
      → (at : Host) (k pw : List ℕ)
      → (u : User) × (find username (read_users io s) ≡ some u)
        × (key k ≡ key username
            → Answers at k pw
                (change io username f s).0
                (verdict compare dummy_hash pw (some (f u))))
        × (key k ≢ key username
            → Answers at k pw
                (change io username f s).0
                (verdict compare dummy_hash pw (find k (read_users io s))))
  change-Answers io username f s r e at k pw =
      let (u, is, same_name, other_name, saved) = change-find io username f s r e k in
      let here = Saved-Answers at k pw (change io username f s).0 saved in
      (
        u,
        is,
        λ y.
            to_answer at k pw (change io username f s).0 here
              (ap (verdict compare dummy_hash pw) (same_name y)),
        λ n.
            to_answer at k pw (change io username f s).0 here
              (ap (verdict compare dummy_hash pw) (other_name n)),
      )

  -- bcrypt takes the password that it made a hash of, and no hash is empty
  abbrev pub IsBcrypt : (List ℕ → Option (List ℕ)) → Type 0
  IsBcrypt generate =
      (pw h : List ℕ) → generate pw ≡ some h → (compare h pw ≡ true) × (empty h ≡ false)

  -- A local user that was created signs in with the password it was created with; with any other only if
  -- bcrypt takes it for the hash that was made of that one; at once and after a restart, under its name in
  -- any case and with blanks around it; and whoever has another name signs in as before. (Of bcrypt: it takes
  -- the password that it made a hash of, and no hash is empty.)
  pub create_local-authenticate :
      (io : Host) (username name : List ℕ) (r : Role) (pw : List ℕ)
      (generate : List ℕ → Option (List ℕ)) (s : UserStore) (u : User)
      → IsBcrypt generate
      → (create_local io username name r pw generate s).1 ≡ ok u
      → (at : Host) (k : List ℕ)
      → let s' = (create_local io username name r pw generate s).0 in
        (u.role ≡ r)
        × (key k ≡ key username
            → Answers at k pw s' (ok u)
              × ((h : List ℕ) × (generate pw ≡ some h)
                  × ((try : List ℕ)
                      → Answers at k try s' (if compare h try then ok u else err wrong_login))))
        × (key k ≢ key username
            → (try : List ℕ)
            → Answers at k try s' (verdict compare dummy_hash try (find k (read_users io s))))
  create_local-authenticate io username name r pw generate s u law e at k =
      let (h, made, good, new, is, users, saved) =
        create_local-ok io username name r pw generate s u e in
      let v = new_local username name r h io.now in
      let s' = (create_local io username name r pw generate s).0 in
      let look = ap (find k) users ∙ find-append k (read_users io s) v in
      let named_so = Clean-key (key username) (valid_username-Clean (key username) good) in
      let signs_in : key k ≡ key username
          → (try : List ℕ) → Answers at k try s' (if compare h try then ok u else err wrong_login) =
        λ same_key try.
          let none_yet =
            find-key k (key username) (read_users io s) (same_key ∙ sym named_so) ∙ new in
          let y : same (key username) (key k) ≡ true = rw same_key (same_refl (key username)) in
          let found : find k s'.users ≡ some v = look ∙ ground (arith, none_yet, y) in
          to_answer at k try s' (Saved-Answers at k try s' saved)
            (ap (verdict compare dummy_hash try) found ∙ ground (arith, (law pw h made).1, is)) in
      (
        ap (λ x. x.role) is,
        λ same_key. (
          to_answer at k pw s' (signs_in same_key pw) (ground (arith, (law pw h made).0)),
          (h, made, signs_in same_key),
        ),
        λ other_key try.
            let n = differ (key username) (key k) other_key in
            let found : find k s'.users ≡ find k (read_users io s) = look ∙ ground (arith, n) in
            to_answer at k try s' (Saved-Answers at k try s' saved)
              (ap (verdict compare dummy_hash try) found),
      )

  -- A user that was disabled does not sign in with any password, under its name in any case, at once or
  -- after a restart; one that was enabled signs in with its own; nobody else's sign-in changes.
  pub set_disabled-authenticate :
      (io : Host) (username : List ℕ) (b : Bool) (s : UserStore)
      → (set_disabled io username b s).1 ≡ none
      → (at : Host) (k pw : List ℕ)
      → let s' = (set_disabled io username b s).0 in
        (u : User) × (find username (read_users io s) ≡ some u)
        × (key k ≡ key username
            → Answers at k pw s' (
                if b
                then err wrong_login
                else verdict compare dummy_hash pw (some (record u { disabled = false }))))
        × (key k ≢ key username
            → Answers at k pw s' (verdict compare dummy_hash pw (find k (read_users io s))))
  unfolding set_disabled
  set_disabled-authenticate io username b s e at k pw =
      let (u, is, here, elsewhere) =
        change-Answers io username (λ u. record u { disabled = b }) s (λ u. (refl, refl)) e at k
          pw in
      (
        u,
        is,
        λ y.
            to_answer at k pw (change io username (λ u. record u { disabled = b }) s).0 (here y)
              (flag b u),
        elsewhere,
      )
    where
      flag :
          (b : Bool) (u : User)
          → verdict compare dummy_hash pw (some (record u { disabled = b })) ≡ (
              if b
              then err wrong_login
              else verdict compare dummy_hash pw (some (record u { disabled = false })))
      flag true u = ground arith
      flag false u = refl

  -- After a password was set, it is the only one (but for those that bcrypt does not tell from it) with which
  -- the user signs in, under its name in any case, at once and after a restart, and only if the user is not
  -- disabled; nobody else's sign-in changes.
  pub set_password-authenticate :
      (io : Host) (username pw h : List ℕ) (generate : List ℕ → Option (List ℕ)) (s : UserStore)
      → generate pw ≡ some h
      → empty h ≡ false
      → (set_password io username pw generate s).1 ≡ none
      → (at : Host) (k try : List ℕ)
      → let s' = (set_password io username pw generate s).0 in
        (u : User) × (find username (read_users io s) ≡ some u)
        × (key k ≡ key username
            → Answers at k try s' (
                if compare h try && not u.disabled
                then ok (shown (with_hash h u))
                else err wrong_login))
        × (key k ≢ key username
            → Answers at k try s' (verdict compare dummy_hash try (find k (read_users io s))))
  set_password-authenticate io username pw h generate s hashed full e at k try =
      let same_as = set_password-change io username pw h generate s hashed e in
      let changed : (change io username (with_hash h) s).1 ≡ none = rw (← same_as) e in
      let (u, is, here, elsewhere) =
        change-Answers io username (with_hash h) s (λ u. (refl, refl)) changed at k try in
      rw same_as (
        u,
        is,
        λ y.
            to_answer at k try (change io username (with_hash h) s).0 (here y)
              (ground (arith, full)),
        elsewhere,
      )
