-- ===== src/Users/Naming.antt =====
-- Names that nobody has yet (freeUsername and usernameForEmail of pkg/server/users.go).
use native_ops.Base.{
  ℕ, zero, suc, ◌+◌, ◌/◌, ◌%◌, ◌≡◌, ◌≢◌, ◌⊎◌, ◌||◌, ◌==◌, ◌≤◌, ◌<◌, refl, sym, ap, ◌∙◌, arith, Bool,
  true, false, not, Option, none, some, List, [], ◌∷◌, ◌++◌, length, all, trim_space_lem, is_space,
  Bool-cases, inl, inr, ltb, if◌then◌else◌, length-append,
}
use native_ops.Base.Bytes.{same, same_eq, lower, digits, decimal, decimal_injective}
use native_ops.Users.{
  User, is_name_char, is_found, first, find, free_from, free_username, key, with_number,
}

-- all of it are characters of a username
abbrev pub Clean : List ℕ → Type 0
Clean s = all is_name_char s ≡ true

Clean-no_space : (s : List ℕ) → Clean s → all (λ c. not (is_space c)) s ≡ true
Clean-no_space [] h = refl
Clean-no_space (c ∷ cs) h = let ih = Clean-no_space cs in ground (arith, ih)

Clean-lower : (s : List ℕ) → Clean s → lower s ≡ s
Clean-lower [] h = refl
Clean-lower (c ∷ cs) h = let ih = Clean-lower cs (ground arith) in ground (arith, ih)

-- `find` reads such a name as it stands
pub Clean-key : (s : List ℕ) → Clean s → key s ≡ s
Clean-key s h = ap lower (trim_space_lem s (Clean-no_space s h)) ∙ Clean-lower s h

Clean-append : (s t : List ℕ) → Clean s → Clean t → Clean (s ++ t)
Clean-append [] t h k = k
Clean-append (c ∷ cs) t h k = let ih = Clean-append cs t (ground arith) k in ground (arith, ih)

Clean-digits : (room n : ℕ) → Clean (digits room n)
Clean-digits zero n = refl
Clean-digits (suc room) n = elim (Bool-cases (ltb n 10)) [
  | inl small ↦ ground arith
  | inr big ↦
      let ih =
        Clean-append (digits room (n / 10)) ((b'0' + n % 10) ∷ []) (Clean-digits room (n / 10))
          (ground arith) in
      ground (arith, ih)
]

-- the names that the loop tries, in order
abbrev pub candidate : List ℕ → ℕ → List ℕ
candidate base zero = base
candidate base (suc k) = with_number base (suc (suc k))

pub Clean-candidate : (base : List ℕ) (k : ℕ) → Clean base → Clean (candidate base k)
Clean-candidate base zero h = h
Clean-candidate base (suc k) h =
    Clean-append base (b'-' ∷ decimal (suc (suc k))) h
      (Clean-digits (suc (suc (suc k))) (suc (suc k)))

append_cancel : (s t u : List ℕ) → s ++ t ≡ s ++ u → t ≡ u
append_cancel [] t u e = e
append_cancel (c ∷ cs) t u e = append_cancel cs t u (cc (e))

longer : (s : List ℕ) (c : ℕ) (t : List ℕ) → s ≢ s ++ c ∷ t
longer s c t e =
    let n : length s ≡ length (s ++ c ∷ t) = ap length e in omega (arith, length-append s (c ∷ t))

candidate_injective : (base : List ℕ) (j k : ℕ) → candidate base j ≡ candidate base k → j ≡ k
candidate_injective base zero zero e = refl
candidate_injective base zero (suc k) e = absurd (longer base b'-' (decimal (suc (suc k))) e)
candidate_injective base (suc j) zero e = absurd (longer base b'-' (decimal (suc (suc j))) (sym e))
candidate_injective base (suc j) (suc k) e =
    let d = append_cancel base (b'-' ∷ decimal (suc (suc j))) (b'-' ∷ decimal (suc (suc k))) e in
    omega (arith, decimal_injective (suc (suc j)) (suc (suc k)) (cc d))

-- the names of users, with what `find` asks of them
abbrev names : List User → List (List ℕ)
names [] = []
names (u ∷ us) = u.username ∷ names us

abbrev has : List ℕ → List (List ℕ) → Bool
has s [] = false
has s (t ∷ ts) = same t s || has s ts

abbrev drop_name : List ℕ → List (List ℕ) → List (List ℕ)
drop_name s [] = []
drop_name s (t ∷ ts) = if same t s then ts else t ∷ drop_name s ts

length-names : (us : List User) → length (names us) ≡ length us
length-names [] = refl
length-names (u ∷ us) = rw (length-names us) refl

length-drop_name :
    (s : List ℕ) (ts : List (List ℕ)) → has s ts ≡ true → suc (length (drop_name s ts)) ≡ length ts
length-drop_name s [] h = absurd (ground arith)
length-drop_name s (t ∷ ts) h = ground (arith, length-drop_name s ts)

has-drop_name :
    (s r : List ℕ) (ts : List (List ℕ)) → s ≢ r → has s ts ≡ true → has s (drop_name r ts) ≡ true
has-drop_name s r [] n h = absurd (ground arith)
has-drop_name s r (t ∷ ts) n h = elim (Bool-cases (same t r)) [
  | inl gone ↦ elim (Bool-cases (same t s)) [
    | inl here ↦ absurd (n (sym (same_eq t s here) ∙ same_eq t r gone))
    | inr there ↦ ground arith
  ]
  | inr stays ↦ ground (arith, has-drop_name s r ts n)
]

-- The pigeonholes: names that are all different and all taken are no more than the names there are.
pigeonholes :
    (f : ℕ → List ℕ)
    → ((j k : ℕ) → f j ≡ f k → j ≡ k)
    → (m : ℕ) (ts : List (List ℕ)) → ((k : ℕ) → k < m → has (f k) ts ≡ true)
    → m ≤ length ts
pigeonholes f inj zero ts h = omega arith
pigeonholes f inj (suc m) ts h =
    let left = drop_name (f m) ts in
    let ih =
      pigeonholes f inj m left (λ k lt.
        has-drop_name (f k) (f m) ts (λ e. omega (arith, inj k m e)) (h k (omega arith))) in
    omega (arith, ih, length-drop_name (f m) ts (h m (omega arith)))

-- a user of this name is found
abbrev pub taken : List ℕ → List User → Bool
taken s us = is_found (find s us)

taken-has : (s : List ℕ) (us : List User) → Clean s → taken s us ≡ has s (names us)
unfolding find first
taken-has s [] h = refl
taken-has s (u ∷ us) h = let ih = taken-has s us h in ground (arith, ih, Clean-key s h)

-- A search from the k-th candidate, with `fuel` rounds, finds the first one that is free, or all of them
-- are taken.
free_from_lem :
    (fuel : ℕ) (base : List ℕ) (k : ℕ) (us : List User)
    → ((free_from fuel base (suc (suc k)) (candidate base k) us ≡ none)
        × ((j : ℕ) → k ≤ j → j < k + fuel → taken (candidate base j) us ≡ true))
      ⊎ ((i : ℕ) × (free_from fuel base (suc (suc k)) (candidate base k) us
            ≡ some (candidate base i))
          × (taken (candidate base i) us ≡ false)
          × ((j : ℕ) → k ≤ j → j < i → taken (candidate base j) us ≡ true))
unfolding free_from
free_from_lem zero base k us = inl (refl, λ j a b. absurd (omega arith))
free_from_lem (suc fuel) base k us = elim (Bool-cases (taken (candidate base k) us)) [
  | inr free ↦ inr (k, ground arith, free, λ j a b. absurd (omega arith))
  | inl here ↦ elim (free_from_lem fuel base (suc k) us) [
    | inl (e, all_taken) ↦
        inl (ground arith, λ j a b. next here j a (λ a'. all_taken j a' (omega arith)))
    | inr (i, e, free, all_taken) ↦
        inr (i, ground arith, free, λ j a b. next here j a (λ a'. all_taken j a' b))
  ]
]
  where
    next :
        taken (candidate base k) us ≡ true
        → (j : ℕ) → k ≤ j
        → (suc k ≤ j → taken (candidate base j) us ≡ true)
        → taken (candidate base j) us ≡ true
    next here j a more = elim (Bool-cases (k == j)) [
      | inl equal ↦ let is : k ≡ j = ground arith in rw (← is) here
      | inr apart ↦ more (ground arith)
    ]

not_found : (o : Option User) → is_found o ≡ false → o ≡ none
not_found none h = refl
not_found (some u) h = absurd (ground arith)

-- The search for a free name ends within one round more than there are users, whatever name of proper
-- characters it starts from: with the first name of base, base-2, base-3 and so on that nobody has.
pub free_username_ends :
    (base : List ℕ) (us : List User)
    → Clean base
    → (i : ℕ) × (free_username base us ≡ some (candidate base i))
      × (find (candidate base i) us ≡ none)
      × (i ≤ length us)
      × ((j : ℕ) → j < i → taken (candidate base j) us ≡ true)
unfolding free_username
free_username_ends base us h = elim (free_from_lem (suc (length us)) base zero us) [
  | inl (e, all_taken) ↦ absurd (
      let n = within (suc (length us)) (λ j b. all_taken j (omega arith) (omega arith)) in
      omega arith)
  | inr (i, e, free, earlier) ↦ (
    i,
    e,
    not_found (find (candidate base i) us) free,
    within i (λ j b. earlier j (omega arith) b),
    λ j b. earlier j (omega arith) b,
  )
]
  where
    within : (m : ℕ) → ((j : ℕ) → j < m → taken (candidate base j) us ≡ true) → m ≤ length us
    within m t =
        let n =
          pigeonholes (candidate base) (candidate_injective base) m (names us)
            (λ j b. sym (taken-has (candidate base j) us (Clean-candidate base j h)) ∙ t j b) in
        omega (arith, n, length-names us)
