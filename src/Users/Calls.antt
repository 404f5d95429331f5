-- ===== src/Users/Calls.antt =====
-- The calls that the daemon and the command line make on the user store, in any order (pkg/server/users.go),
-- and what they keep.
use native_ops.Base.{
  ℕ, ◌≡◌, ◌≢◌, refl, sym, ◌∙◌, ap, arith, Bool, true, false, not, Option, none, some, List, [], ◌∷◌,
  ◌++◌, All, Bool-cases, Option-cases, inl, inr, trim_space, if◌then◌else◌, Result, ok, err,
}
use native_ops.Base.Bytes.{same_refl}
use native_ops.Tokens.{Role, valid_role}
use native_ops.Users.{
  User, empty, key, named, first, at_first, find, free_username, is_found, username_for_email,
  valid_username, valid_email, valid_password,
}
use native_ops.Users.Store.{
  UserStore, UserError, unreadable, no_hash, reading, no_such_user, shown_all, Host, store_users,
  list, get, create_local, change_in, create_in, oidc_in, upsert_in, change, with_hash,
  set_password, set_role, set_disabled, touch_login, has_email, find_or_create_oidc, of_email,
  upsert_by_email, shown, linked, with_access, new_oidc, new_local,
}
use native_ops.Users.Naming.{Clean, candidate, Clean-candidate, Clean-key, free_username_ends}
use native_ops.Users.Emails.{username_for_email-valid_username, valid_username-Clean}
use native_ops.Users.Keeping.{
  Sound, Renames, first-none, Fits-append, Fits-at_first, store_users-Sound, reading-Sound,
  answered_store, All-map, All-true, differs, All-Apart,
}

pub data Call : Type 0 where
  create : List ℕ → List ℕ → Role → List ℕ → (List ℕ → Option (List ℕ)) → Call
  password : List ℕ → List ℕ → (List ℕ → Option (List ℕ)) → Call
  role : List ℕ → Role → Call
  disable : List ℕ → Bool → Call
  oidc_login : List ℕ → List ℕ → Option Role → Call
  upsert : List ℕ → List ℕ → Role → Option Bool → Call
  touch_user : List ℕ → Call
  look : List ℕ → Call
  show_all : Call

unfoldable pub run : Host → Call → UserStore → UserStore
run io (create username name r pw hash) s = (create_local io username name r pw hash s).0
run io (password username pw hash) s = (set_password io username pw hash s).0
run io (role username r) s = (set_role io username r s).0
run io (disable username b) s = (set_disabled io username b s).0
run io (oidc_login email name r) s = (find_or_create_oidc io email name r s).0
run io (upsert email name r b) s = (upsert_by_email io email name r b s).0
run io (touch_user username) s = (touch_login io username s).0
run io (look username) s = (get io username s).0
run io show_all s = (list io s).0

change_in-Sound :
    (io : Host) (missing : Option UserError) (username : List ℕ) (f : User → User) (s : UserStore)
    → Renames f
    → Sound s
    → Sound (change_in io missing username f s).0
unfolding change_in
change_in-Sound io missing username f s r v = elim (Bool-cases (is_found (find username s.users))) [
  | inl there ↦ rw there (
      store_users-Sound io (at_first (named username) f s.users) s
        (Fits-at_first (named username) f s.users r v.0) v)
  | inr gone ↦ rw gone v
]

-- a user of a new name and email goes to the end
added-Sound :
    (io : Host) (u : User) (s : UserStore)
    → Clean u.username
    → find u.username s.users ≡ none
    → All (λ v. u.email ≢ [] → u.email ≢ v.email) s.users
    → Sound s
    → Sound (store_users io (s.users ++ u ∷ []) s).0
added-Sound io u s c e a v =
    store_users-Sound io (s.users ++ u ∷ []) s
      (Fits-append s.users u v.0 c (All-Apart s.users u (Clean-key u.username c) e a)) v

not_found : (o : Option User) → is_found o ≡ false → o ≡ none
not_found none h = refl
not_found (some u) h = absurd (ground arith)

create_in-Sound :
    (io : Host) (username name : List ℕ) (r : Role) (h : List ℕ) (s : UserStore)
    → Clean (key username)
    → Sound s
    → Sound (create_in io username name r h s).0
unfolding create_in
create_in-Sound io username name r h s c v =
    elim (Bool-cases (is_found (find (key username) s.users))) [
      | inl there ↦ rw there v
      | inr new ↦ rw new (
          answered_store (shown (new_local username name r h io.now))
            (store_users io (s.users ++ new_local username name r h io.now ∷ []) s)
            (added-Sound io (new_local username name r h io.now) s c
              (not_found (find (key username) s.users) new)
              (All-true s.users (λ u e. absurd (e refl))) v))
    ]

change-Sound :
    (io : Host) (username : List ℕ) (f : User → User) (s : UserStore)
    → Renames f
    → Sound s
    → Sound (change io username f s).0
unfolding change
change-Sound io username f s r =
    reading-Sound io (some unreadable) (change_in io (some no_such_user) username f) s
      (λ t w. change_in-Sound io (some no_such_user) username f t r w)

-- the name that the search finds is of proper characters, and nobody has it
free_name :
    (email : List ℕ) (us : List User) (name : List ℕ)
    → free_username (username_for_email email) us ≡ some name
    → Clean name × (find name us ≡ none)
free_name email us name e =
    let c =
      valid_username-Clean (username_for_email email) (username_for_email-valid_username email) in
    let (i, found, gone, _, _) = free_username_ends (username_for_email email) us c in
    let is : candidate (username_for_email email) i ≡ name = cc (found, e) in
    rw (← is) (Clean-candidate (username_for_email email) i c, gone)

empty_or : (s : List ℕ) → s ≢ [] → empty s ≡ false
empty_or [] n = absurd (n refl)
empty_or (c ∷ cs) n = refl

no_email : (email : List ℕ) (w : User) → has_email email w ≡ false → email ≢ [] → email ≢ w.email
no_email email w n some_email same_email =
    let n' = ap (λ m. has_email m w) (sym same_email) ∙ n in
    let e = empty_or w.email (λ h. some_email (same_email ∙ h)) in ground (arith, same_refl w.email)

not_of_email : (email : List ℕ) (w : User) → of_email email w ≡ false → email ≢ w.email
not_of_email email w n = differs w.email email n

oidc_in-Sound :
    (io : Host) (email name : List ℕ) (r : Option Role) (s : UserStore)
    → Sound s
    → Sound (oidc_in io email name r s).0
unfolding oidc_in
oidc_in-Sound io email name r s v = elim (Option-cases (first (has_email email) s.users)) [
  | inr (u, e) ↦
      rw (e, oidc_in)
        (answered_store (shown (linked name u))
          (store_users io (at_first (has_email email) (linked name) s.users) s)
          (store_users-Sound io (at_first (has_email email) (linked name) s.users) s
            (Fits-at_first (has_email email) (linked name) s.users (λ w. (refl, refl)) v.0) v))
  | inl e ↦
      rw (e, oidc_in)
        (elim (Option-cases r) [
          | inl nobody ↦ rw nobody v
          | inr (newly, is) ↦
              elim (Option-cases (free_username (username_for_email email) s.users)) [
                | inl stuck ↦ rw (is, stuck) v
                | inr (username, found) ↦
                    let u = new_oidc username name newly email io.now in
                    let (c, gone) = free_name email s.users username found in
                    rw (is, found)
                      (answered_store (shown u) (store_users io (s.users ++ u ∷ []) s) (
                        added-Sound io u s c gone
                          (All-map (λ w. has_email email w ≡ false)
                            (λ w. email ≢ [] → email ≢ w.email) s.users
                            (λ w n some_email same_email. no_email email w n some_email same_email)
                            (first-none (has_email email) s.users e))
                          v))
              ]
        ])
]

upsert_in-Sound :
    (io : Host) (email name : List ℕ) (r : Role) (b : Option Bool) (s : UserStore)
    → Sound s
    → Sound (upsert_in io email name r b s).0
unfolding upsert_in
upsert_in-Sound io email name r b s v = elim (Option-cases (first (of_email email) s.users)) [
  | inr (u, e) ↦
      rw (e, upsert_in)
        (answered_store (shown (with_access name r b u), false)
          (store_users io (at_first (of_email email) (with_access name r b) s.users) s)
          (store_users-Sound io (at_first (of_email email) (with_access name r b) s.users) s
            (Fits-at_first (of_email email) (with_access name r b) s.users (λ w. (refl, refl)) v.0)
            v))
  | inl e ↦
      rw (e, upsert_in)
        (elim (Option-cases (free_username (username_for_email email) s.users)) [
          | inl stuck ↦ rw stuck v
          | inr (username, found) ↦
              let u = with_access name r b (new_oidc username (trim_space name) r email io.now) in
              let (c, gone) = free_name email s.users username found in
              rw found (
                answered_store (shown u, true) (store_users io (s.users ++ u ∷ []) s)
                  (added-Sound io u s c gone
                    (All-map (λ w. of_email email w ≡ false) (λ w. email ≢ [] → email ≢ w.email)
                      s.users (λ w n _. not_of_email email w n)
                      (first-none (of_email email) s.users e))
                    v))
        ])
]

-- a guard that answers with the store as it is
guarded-Sound :
    {A : Type 0} (b : Bool) (a : A) (r : UserStore × A) (s : UserStore)
    → Sound s
    → (b ≡ false → Sound r.0)
    → Sound (if b then (s, a) else r).0
guarded-Sound true a r s v h = v
guarded-Sound false a r s v h = h refl

true_if : (b : Bool) → not b ≡ false → b ≡ true
true_if true h = refl
true_if false h = absurd (ground arith)

create_local-Sound :
    (io : Host) (username name : List ℕ) (r : Role) (pw : List ℕ)
    (generate : List ℕ → Option (List ℕ)) (s : UserStore)
    → Sound s
    → Sound (create_local io username name r pw generate s).0
unfolding create_local
create_local-Sound io username name r pw generate s v =
    guarded-Sound (not (valid_username (key username))) _ _ s v (λ good.
      guarded-Sound (not (valid_role r)) _ _ s v (λ known.
        guarded-Sound (not (valid_password pw)) _ _ s v
          (λ fine. made (true_if _ good) (generate pw))))
  where
    made :
        valid_username (key username) ≡ true
        → (hash : Option (List ℕ))
        → Sound
            (elim hash as (λ _. UserStore × Result UserError User) [
              | none ↦ (s, err no_hash)
              | some h ↦ reading io (err unreadable) (create_in io username name r h) s
            ]).0
    made good none = v
    made good (some h) =
        reading-Sound io (err unreadable) (create_in io username name r h) s
          (λ t w.
            create_in-Sound io username name r h t (valid_username-Clean (key username) good) w)
          v

set_password-Sound :
    (io : Host) (username pw : List ℕ) (generate : List ℕ → Option (List ℕ)) (s : UserStore)
    → Sound s
    → Sound (set_password io username pw generate s).0
unfolding set_password
set_password-Sound io username pw generate s v =
    guarded-Sound (not (valid_password pw)) _ _ s v (λ fine. set (generate pw))
  where
    set :
        (hash : Option (List ℕ))
        → Sound
            (elim hash as (λ _. UserStore × Option UserError) [
              | none ↦ (s, some no_hash)
              | some h ↦ change io username (with_hash h) s
            ]).0
    set none = v
    set (some h) = change-Sound io username (with_hash h) s (λ u. (refl, refl)) v

-- Whatever is called on the user store, and whether the host lets it read and write the file or not: if
-- before it no two users share a name or an email, in memory and in the file, and every name is one that
-- `find` reads as it stands, so it is after it.
pub run-Sound : (io : Host) (c : Call) (s : UserStore) → Sound s → Sound (run io c s)
unfolding run
run-Sound io (create username name r pw hash) s v =
    create_local-Sound io username name r pw hash s v
run-Sound io (password username pw hash) s v = set_password-Sound io username pw hash s v
run-Sound io (role username r) s v =
    unfold set_role in
    guarded-Sound (not (valid_role r)) _ _ s v
      (λ known. change-Sound io username (λ u. record u { role = r }) s (λ u. (refl, refl)) v)
run-Sound io (disable username b) s v =
    unfold set_disabled in
    change-Sound io username (λ u. record u { disabled = b }) s (λ u. (refl, refl)) v
run-Sound io (oidc_login email name r) s v =
    unfold find_or_create_oidc in
    reading-Sound io (err unreadable) (oidc_in io (key email) name r) s
      (oidc_in-Sound io (key email) name r) v
run-Sound io (upsert email name r b) s v =
    unfold upsert_by_email in
    guarded-Sound (not (valid_email (key email))) _ _ s v (λ good.
      guarded-Sound (not (valid_role r)) _ _ s v (λ known.
        reading-Sound io (err unreadable) (upsert_in io (key email) name r b) s
          (upsert_in-Sound io (key email) name r b) v))
run-Sound io (touch_user username) s v =
    unfold touch_login in
    reading-Sound io (some unreadable)
      (change_in io none username (λ u. record u { last_login = some io.now })) s
      (λ t w.
        change_in-Sound io none username (λ u. record u { last_login = some io.now }) t
          (λ u. (refl, refl)) w)
      v
run-Sound io (look username) s v =
    unfold get in
    reading-Sound {A = Result UserError (Option User)} io (err unreadable)
      (λ t. (t, ok (elim (find username t.users) [ none ↦ none | some u ↦ some (shown u) ]))) s
      (λ t w. w) v
run-Sound io show_all s v =
    unfold list in
    reading-Sound {A = Result UserError (List User)} io (err unreadable)
      (λ t. (t, ok (shown_all t.users))) s (λ t w. w) v
