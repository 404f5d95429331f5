-- ===== src/Users/Keeping.antt =====
-- What every call on the user store keeps (pkg/server/users.go): nobody shares a name or an email.
use native_ops.Base.{
  ℕ, ◌≡◌, ◌≢◌, arith, Bool, true, false, not, ◌&&◌, Option, none, some, List, [], ◌∷◌, ◌++◌, All,
  Bool-cases, Option-cases, inl, inr,
}
use native_ops.Base.Bytes.{same, same_refl}
use native_ops.Users.{User, key, named, first, at_first, find}
use native_ops.Users.Store.{
  UserStore, UserError, Host, reload, save, same_file, store_users, reading, answered,
}
use native_ops.Users.Naming.{Clean}

-- two users with different names, and different emails if they have any
abbrev pub Apart : User → User → Type 0
Apart u v = (v.username ≢ u.username) × (v.email ≢ [] → v.email ≢ u.email)

abbrev pub Fits : List User → Type 0
Fits [] = Unit
Fits (u ∷ us) = Clean u.username × All (Apart u) us × Fits us

abbrev pub FileFits : Option (ℕ × List User) → Type 0
FileFits none = Unit
FileFits (some file) = Fits file.1

-- the copy in memory and the file
abbrev pub Sound : UserStore → Type 0
Sound s = Fits s.users × FileFits s.disk

pub first-none : (p : User → Bool) (us : List User) → first p us ≡ none → All (λ u. p u ≡ false) us
unfolding first
first-none p [] h = tt
first-none p (u ∷ us) h = elim (Bool-cases (p u)) [
  | inl yes' ↦ absurd (ground arith)
  | inr no' ↦ (no', first-none p us (ground arith))
]

All-append : (P : User → Type 0) (us : List User) (u : User) → All P us → P u → All P (us ++ u ∷ [])
All-append P [] u a p = (p, tt)
All-append P (v ∷ us) u a p = (a.0, All-append P us u a.1 p)

pub Fits-append :
    (us : List User) (u : User)
    → Fits us
    → Clean u.username
    → All (λ v. Apart v u) us
    → Fits (us ++ u ∷ [])
Fits-append [] u f c a = (c, tt, tt)
Fits-append (v ∷ us) u f c a = (f.0, All-append (Apart v) us u f.1 a.0, Fits-append us u f.2 c a.1)

-- a change that leaves the name and the email
abbrev pub Renames : (User → User) → Type 0
Renames f = (u : User) → ((f u).username ≡ u.username) × ((f u).email ≡ u.email)

All-at_first :
    (p : User → Bool) (f : User → User) (x : User) (us : List User)
    → Renames f
    → All (Apart x) us
    → All (Apart x) (at_first p f us)
unfolding at_first
All-at_first p f x [] r a = tt
All-at_first p f x (u ∷ us) r a = elim (Bool-cases (p u)) [
  | inl here ↦ rw here ((rw (r u).0 a.0.0, rw (r u).1 a.0.1), a.1)
  | inr no' ↦ rw no' (a.0, All-at_first p f x us r a.1)
]

Apart-renamed :
    (f : User → User) (u : User) (us : List User)
    → Renames f
    → All (Apart u) us
    → All (Apart (f u)) us
Apart-renamed f u [] r a = tt
Apart-renamed f u (v ∷ us) r a = ((rw (r u).0 a.0.0, rw (r u).1 a.0.1), Apart-renamed f u us r a.1)

pub Fits-at_first :
    (p : User → Bool) (f : User → User) (us : List User)
    → Renames f
    → Fits us
    → Fits (at_first p f us)
unfolding at_first
Fits-at_first p f [] r a = tt
Fits-at_first p f (u ∷ us) r a = elim (Bool-cases (p u)) [
  | inl here ↦ rw here (rw (r u).0 a.0, Apart-renamed f u us r a.1, a.2)
  | inr no' ↦ rw no' (a.0, All-at_first p f u us r a.1, Fits-at_first p f us r a.2)
]

pub store_users-Sound :
    (io : Host) (us : List User) (s : UserStore) → Fits us → Sound s → Sound (store_users io us s).0
unfolding store_users save
store_users-Sound io us s f v = elim (Bool-cases io.wrote) [
  | inl yes' ↦ rw yes' (f, f)
  | inr no' ↦ rw no' (f, v.1)
]

pub reload-Sound :
    (force readable : Bool) (s : UserStore) → Sound s → Sound (reload force readable s).0
unfolding reload
reload-Sound force readable s v = elim (Option-cases s.disk) [
  | inl e ↦ rw e (tt, tt)
  | inr (file, e) ↦
      let f = rw e at v.1 in
      elim (Bool-cases (not force && same_file s.loaded file.0)) [
        | inl kept ↦ rw (e, kept) (v.0, f)
        | inr changed ↦ elim (Bool-cases readable) [
          | inl read ↦ rw (e, changed, read) (f, f)
          | inr bad ↦ rw (e, changed, bad) (v.0, f)
        ]
      ]
]

pub reading-Sound :
    {A : Type 0} (io : Host) (failed : A) (f : UserStore → UserStore × A) (s : UserStore)
    → ((t : UserStore) → Sound t → Sound (f t).0)
    → Sound s
    → Sound (reading io failed f s).0
reading-Sound io failed f s h v =
    let v1 = reload-Sound false io.readable s v in
    elim (Bool-cases (reload false io.readable s).1) [
      | inl read ↦ rw read (h (reload false io.readable s).0 v1)
      | inr bad ↦ rw bad v1
    ]

pub answered_store :
    {A : Type 0} (a : A) (r : UserStore × Option UserError) → Sound r.0 → Sound (answered a r).0
answered_store a (s, none) v = v
answered_store a (s, some e) v = v

pub All-map :
    (P Q : User → Type 0) (us : List User) → ((u : User) → P u → Q u) → All P us → All Q us
All-map P Q [] f a = tt
All-map P Q (u ∷ us) f a = (f u a.0, All-map P Q us f a.1)

pub All-both :
    (P Q : User → Type 0) (us : List User) → All P us → All Q us → All (λ u. P u × Q u) us
All-both P Q [] a b = tt
All-both P Q (u ∷ us) a b = ((a.0, b.0), All-both P Q us a.1 b.1)

pub All-true : {Q : User → Type 0} (us : List User) → ((u : User) → Q u) → All Q us
All-true [] f = tt
All-true (u ∷ us) f = (f u, All-true us f)

pub differs : (s t : List ℕ) → same s t ≡ false → t ≢ s
differs s t n e = absurd (let y : same s t ≡ true = rw e (same_refl s) in ground arith)

-- nobody found under the name or the email of a new user: it is apart from all
pub All-Apart :
    (us : List User) (u : User)
    → key u.username ≡ u.username
    → find u.username us ≡ none
    → All (λ v. u.email ≢ [] → u.email ≢ v.email) us
    → All (λ v. Apart v u) us
unfolding find
All-Apart us u k e a =
    All-both (λ v. u.username ≢ v.username) (λ v. u.email ≢ [] → u.email ≢ v.email) us
      (All-map (λ v. named u.username v ≡ false) (λ v. u.username ≢ v.username) us
        (λ v n.
          let n' : same v.username u.username ≡ false = rw (← k) n in
          differs v.username u.username n')
        (first-none (named u.username) us e))
      a
