-- ===== src/Users/Tests.antt =====
-- Users made, disabled and given passwords, and the theorems at concrete inputs.
use native_ops.Base.{
  Option, arith, ℕ, ◌≡◌, ◌≢◌, ◌≤◌, ◌<◌, refl, codes, Bool, true, false, none, some, List, [], ◌∷◌,
  length, if◌then◌else◌, ok, err,
}
use native_ops.Base.Bytes.{same_refl, same}
use native_ops.Tokens.{deployer, viewer, valid_role}
use native_ops.Users.{
  User, key, valid_username, valid_password, valid_email, username_for_email, name_chars, find,
  first, free_username, free_from,
}
use native_ops.Users.Store.{
  UserStore, Host, wrong_login, new_local, shown, create_local, create_in, set_disabled,
  set_password, change, change_in, reload, save, store_users, verdict,
}
use native_ops.Users.Naming.{candidate, taken, free_username_ends}
use native_ops.Users.Keeping.{Sound}
use native_ops.Users.Calls.{oidc_login, run, run-Sound}
use native_ops.Users.Passwords.{
  Answers, IsBcrypt, read_users, create_local-authenticate, set_disabled-authenticate,
}

-- bcrypt's hash of a password is here the password after a #
abbrev hash_of : List ℕ → List ℕ
hash_of pw = b'#' ∷ pw

abbrev compared : List ℕ → List ℕ → Bool
compared h pw = same h (hash_of pw)

abbrev dummy : List ℕ
dummy = hash_of (codes "native-ops-dummy-password")

abbrev generated : List ℕ → Option (List ℕ)
generated pw = some (hash_of pw)

generated-IsBcrypt : IsBcrypt compared dummy generated
generated-IsBcrypt pw h e =
    let is : hash_of pw ≡ h = ground arith in rw (← is) (same_refl (hash_of pw), refl)

abbrev pw : List ℕ
pw = codes "correct horse"

abbrev host : Host
host = record { readable = true; wrote = true; version = 2; now = 50 }

abbrev ann : User
ann = new_local (codes "ann") (codes "Ann") deployer (hash_of pw) 10

abbrev one_user : UserStore
one_user = record { users = ann ∷ []; loaded = some 1; disk = some (1, ann ∷ []) }

email_name : username_for_email (codes "Ann.B+x@example.com") ≡ codes "ann.b.x"
unfolding username_for_email name_chars
email_name = refl

short_name : username_for_email (codes "_q_@example.com") ≡ codes "q-user"
unfolding username_for_email name_chars
short_name = refl

good_email : valid_email (codes "ann@mail.example.com") ≡ true
unfolding valid_email
good_email = refl

second_ann : free_username (codes "ann") (ann ∷ []) ≡ some (codes "ann-2")
unfolding free_username free_from find first
second_ann = refl

made :
    (create_local host (codes " Bob ") (codes "Bob") viewer pw generated one_user).1
    ≡ ok (shown (new_local (codes "bob") (codes "Bob") viewer (hash_of pw) 50))
unfolding create_local create_in valid_username valid_password valid_role reload find first
    store_users save
made = refl

free_username_ends_example :
    (i : ℕ) × (free_username (codes "ann") (ann ∷ []) ≡ some (candidate (codes "ann") i))
    × (find (candidate (codes "ann") i) (ann ∷ []) ≡ none)
    × (i ≤ length (ann ∷ []))
    × ((j : ℕ) → j < i → taken (candidate (codes "ann") j) (ann ∷ []) ≡ true)
free_username_ends_example = free_username_ends (codes "ann") (ann ∷ []) refl

run-Sound_example :
    Sound (run host (oidc_login (codes "ann@example.com") (codes "Ann") (some viewer)) one_user)
run-Sound_example =
    run-Sound host (oidc_login (codes "ann@example.com") (codes "Ann") (some viewer)) one_user
      ((refl, tt, tt), (refl, tt, tt))

create_local-authenticate_example :
    let s' = (create_local host (codes " Bob ") (codes "Bob") viewer pw generated one_user).0 in
    let bob = shown (new_local (codes "bob") (codes "Bob") viewer (hash_of pw) 50) in
    (viewer ≡ viewer)
    × (key (codes "BOB") ≡ key (codes " Bob ")
        → Answers compared dummy host (codes "BOB") pw s' (ok bob)
          × ((h : List ℕ) × (generated pw ≡ some h)
              × ((try : List ℕ)
                  → Answers compared dummy host
                      (codes "BOB")
                      try
                      s'
                      (if compared h try then ok bob else err wrong_login))))
    × (key (codes "BOB") ≢ key (codes " Bob ")
        → (try : List ℕ)
        → Answers compared dummy host
            (codes "BOB")
            try
            s'
            (verdict compared dummy try (find (codes "BOB") (read_users host one_user))))
create_local-authenticate_example =
    create_local-authenticate compared dummy host (codes " Bob ") (codes "Bob") viewer pw generated
      one_user (shown (new_local (codes "bob") (codes "Bob") viewer (hash_of pw) 50))
      generated-IsBcrypt made host (codes "BOB")

disabled : (set_disabled host (codes "ann") true one_user).1 ≡ none
unfolding set_disabled change change_in reload find first store_users save
disabled = refl

set_disabled-authenticate_example :
    let s' = (set_disabled host (codes "ann") true one_user).0 in
    (u : User) × (find (codes "ann") (read_users host one_user) ≡ some u)
    × (key (codes "Ann") ≡ key (codes "ann")
        → Answers compared dummy host (codes "Ann") pw s' (
            if true
            then err wrong_login
            else verdict compared dummy pw (some (record u { disabled = false }))))
    × (key (codes "Ann") ≢ key (codes "ann")
        → Answers compared dummy host
            (codes "Ann")
            pw
            s'
            (verdict compared dummy pw (find (codes "Ann") (read_users host one_user))))
set_disabled-authenticate_example =
    set_disabled-authenticate compared dummy host (codes "ann") true one_user disabled host
      (codes "Ann") pw

abbrev new_pw : List ℕ
new_pw = codes "battery staple"

pw_set : (set_password host (codes "ann") new_pw generated one_user).1 ≡ none
unfolding set_password change change_in valid_password reload find first store_users save
pw_set = refl
