-- ===== src/Sessions/Current.antt =====
-- A session against the user store of now (currentSession of pkg/server/server.go, with SetRole and
-- SetDisabled of pkg/server/users.go).
use native_ops.Base.{
  ℕ, ◌≡◌, ◌≢◌, refl, ◌∙◌, ap, arith, true, not, ◌||◌, String, Option, none, some, List,
  if◌then◌else◌, Bool-cases, inl, inr,
}
use native_ops.Tokens.{Role, valid_role}
use native_ops.Users.{User, key, find}
use native_ops.Users.Store.{UserStore, Host, reload, change, get, set_role, set_disabled}
use native_ops.Users.Passwords.{Saved, read_users, change-find}
use native_ops.Sessions.{SessionToken, Payload, from_request, current_session}

-- what a session stands for whose user is this one
abbrev pub admitted : Option User → Option (List ℕ × Role)
admitted none = none
admitted (some u) =
    if u.disabled || not (valid_role u.role) then none else some (u.username, u.role)

module _ (mac : String → String) (from64 : String → Option String)
    (decode : String → Option Payload) where
  current_session-Saved :
      (at : Host) (cookie : Option SessionToken) (now : ℕ) (s : UserStore) (who : List ℕ × Role)
      → Saved s
      → from_request mac from64 decode cookie now ≡ some who
      → (current_session mac from64 decode at cookie now (some s)).1 ≡ admitted (find who.0 s.users)
  unfolding current_session get reload
  current_session-Saved at cookie now s who (v, l, d) h = ground (arith, l, d)

  -- From the moment that a user is disabled, no session of that user stands for anybody, however long its
  -- cookie is still good for; and whoever has another name keeps the session they have.
  pub set_disabled-current_session :
      (io : Host) (username : List ℕ) (s : UserStore)
      → (set_disabled io username true s).1 ≡ none
      → (at : Host) (cookie : Option SessionToken) (now : ℕ) (who : List ℕ × Role)
      → from_request mac from64 decode cookie now ≡ some who
      → let answer =
          (current_session mac from64 decode at cookie now
            (some (set_disabled io username true s).0)).1 in
        (key who.0 ≡ key username → answer ≡ none)
        × (key who.0 ≢ key username → answer ≡ admitted (find who.0 (read_users io s)))
  unfolding set_disabled
  set_disabled-current_session io username s e at cookie now who h =
      let f : User → User = λ u. record u { disabled = true } in
      let (u, _, same_name, other_name, saved) =
        change-find io username f s (λ u. (refl, refl)) e who.0 in
      let look = current_session-Saved at cookie now (change io username f s).0 who saved h in
      (λ y. look ∙ ap admitted (same_name y), λ n. look ∙ ap admitted (other_name n))

  -- From the moment that a user has another role, the user's sessions have it too, whatever role their
  -- cookies were signed with, unless the user is disabled.
  pub set_role-current_session :
      (io : Host) (username : List ℕ) (r : Role) (s : UserStore)
      → (set_role io username r s).1 ≡ none
      → (at : Host) (cookie : Option SessionToken) (now : ℕ) (who : List ℕ × Role)
      → from_request mac from64 decode cookie now ≡ some who
      → key who.0 ≡ key username
      → (u : User) × (find username (read_users io s) ≡ some u)
        × ((current_session mac from64 decode at cookie now (some (set_role io username r s).0)).1
            ≡ (if u.disabled then none else some (u.username, r)))
  unfolding set_role
  set_role-current_session io username r s e at cookie now who h y =
      elim (Bool-cases (valid_role r)) [
        | inr bad ↦ absurd (ground arith)
        | inl good ↦
            let f : User → User = λ u. record u { role = r } in
            let changed : (change io username f s).1 ≡ none = ground arith in
            let (u, is, same_name, _, saved) =
              change-find io username f s (λ u. (refl, refl)) changed who.0 in
            let look = current_session-Saved at cookie now (change io username f s).0 who saved h in
            rw good (u, is, look ∙ ap admitted (same_name y) ∙ ground (arith, good))
      ]
