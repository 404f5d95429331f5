-- ===== src/Users/Emails.antt =====
-- The name that an email gives (usernameForEmail of pkg/server/users.go).
use native_ops.Base.{
  ℕ, zero, suc, ◌≡◌, ◌≤◌, refl, arith, codes, true, false, List, [], ◌∷◌, length, take, contains,
  Bool-cases, inl, inr, ltb, if◌then◌else◌,
}
use native_ops.Base.Bytes.{lower, trim_start, kept_before, trim_end}
use native_ops.Users.{
  is_alnum, is_name_char, valid_username, name_chars, local_part, long_enough, username_for_email,
}
use native_ops.Users.Naming.{Clean}

-- what is left of a name when the ends are trimmed: it is empty, or begins with a letter or a digit
abbrev Trimmed : List ℕ → Type 0
Trimmed [] = Unit
Trimmed (c ∷ cs) = (is_alnum c ≡ true) × Clean cs

Clean-name_chars : (s : List ℕ) → Clean (name_chars s)
unfolding name_chars
Clean-name_chars [] = refl
Clean-name_chars (c ∷ cs) = let ih = Clean-name_chars cs in ground (arith, ih)

trim_start-Trimmed : (s : List ℕ) → Clean s → Trimmed (trim_start (codes ".-_") s)
trim_start-Trimmed [] h = tt
trim_start-Trimmed (c ∷ cs) h = elim (Bool-cases (contains c (codes ".-_"))) [
  | inl cut ↦ let ih = trim_start-Trimmed cs (ground arith) in rw cut ih
  | inr stays ↦ rw stays (ground arith, ground arith)
]

Clean-kept_before :
    (cut : List ℕ) (c : ℕ) (rest : List ℕ)
    → is_name_char c ≡ true
    → Clean rest
    → Clean (kept_before cut c rest)
Clean-kept_before cut c [] h k = elim (Bool-cases (contains c cut)) [
  | inl gone ↦ rw gone refl
  | inr stays ↦ rw (stays, h) refl
]
Clean-kept_before cut c (d ∷ ds) h k = rw h k

Clean-trim_end : (cut s : List ℕ) → Clean s → Clean (trim_end cut s)
Clean-trim_end cut [] h = refl
Clean-trim_end cut (c ∷ cs) h =
    Clean-kept_before cut c (trim_end cut cs) (ground arith) (Clean-trim_end cut cs (ground arith))

alnum_stays : (c : ℕ) → is_alnum c ≡ true → contains c (codes ".-_") ≡ false
alnum_stays c h = ground arith

kept_before-Trimmed :
    (c : ℕ) (rest : List ℕ)
    → is_alnum c ≡ true
    → Clean rest
    → Trimmed (kept_before (codes ".-_") c rest)
kept_before-Trimmed c [] h k = rw (alnum_stays c h) (h, refl)
kept_before-Trimmed c (d ∷ ds) h k = (h, k)

trim_end-Trimmed : (s : List ℕ) → Trimmed s → Trimmed (trim_end (codes ".-_") s)
trim_end-Trimmed [] t = tt
trim_end-Trimmed (c ∷ cs) t =
    kept_before-Trimmed c (trim_end (codes ".-_") cs) t.0 (Clean-trim_end (codes ".-_") cs t.1)

Clean-take : (n : ℕ) (s : List ℕ) → Clean s → Clean (take n s)
Clean-take zero s h = refl
Clean-take (suc n) [] h = refl
Clean-take (suc n) (c ∷ cs) h = let ih = Clean-take n cs (ground arith) in ground (arith, ih)

length-take_le : (n : ℕ) (s : List ℕ) → length (take n s) ≤ n
length-take_le zero s = omega arith
length-take_le (suc n) [] = omega arith
length-take_le (suc n) (c ∷ cs) = omega (arith, length-take_le n cs)

long_enough-valid : (s : List ℕ) → Trimmed s → length s ≤ 40 → valid_username (long_enough s) ≡ true
unfolding valid_username
long_enough-valid [] t h = refl
long_enough-valid (c ∷ []) t h = ground arith
long_enough-valid (c ∷ d ∷ []) t h = ground arith
long_enough-valid (c ∷ d ∷ e ∷ es) t h = ground arith

-- The name that an email gives is one that a local user may have, whatever the email is: 3 to 40 letters,
-- digits, dots, dashes and underscores, the first a letter or a digit.
pub username_for_email-valid_username :
    (email : List ℕ) → valid_username (username_for_email email) ≡ true
unfolding username_for_email
username_for_email-valid_username email =
    let s = name_chars (lower (local_part email)) in
    let t =
      trim_end-Trimmed (trim_start (codes ".-_") s)
        (trim_start-Trimmed s (Clean-name_chars (lower (local_part email)))) in
    cut_short (trim_end (codes ".-_") (trim_start (codes ".-_") s)) t
  where
    cut_short :
        (s : List ℕ)
        → Trimmed s
        → valid_username (long_enough (if ltb 40 (length s) then take 40 s else s)) ≡ true
    cut_short s t = elim (Bool-cases (ltb 40 (length s))) [
      | inl long ↦ rw long (long_enough-valid (take 40 s) (shorter s t) (length-take_le 40 s))
      | inr fits ↦ rw fits (long_enough-valid s t (ground arith))
    ]
      where
        shorter : (s : List ℕ) → Trimmed s → Trimmed (take 40 s)
        shorter [] t = tt
        shorter (c ∷ cs) t = (t.0, Clean-take 39 cs t.1)

pub valid_username-Clean : (s : List ℕ) → valid_username s ≡ true → Clean s
unfolding valid_username
valid_username-Clean [] h = refl
valid_username-Clean (c ∷ cs) h = ground arith
