-- ===== src/Backups/Clock.antt =====
-- The daily times that a schedule names (ScheduleTimes of pkg/config/config.go).
use native_ops.Base.{
  ℕ, ◌+◌, ◌*◌, ◌-◌, ◌≡◌, ◌<◌, refl, arith, Bool, true, false, ◌&&◌, ◌||◌, Option, none, some, List,
  [], ◌∷◌, ◌++◌, ltb, ◌==◌, All, contains, trim_space, if◌then◌else◌, Bool-cases, Option-cases, inl,
  inr,
}
use native_ops.Base.Sort.{sort_asc, place_asc}
use native_ops.Labels.{between}
use native_ops.Backups.Slots.{Daily}

-- `strings.Split` at a character
abbrev pub split : ℕ → List ℕ → List (List ℕ)
split x [] = [] ∷ []
split x (c ∷ cs) =
    let rest = split x cs in
    if c == x then [] ∷ rest else elim rest [ [] ↦ (c ∷ []) ∷ [] | p ∷ ps ↦ (c ∷ p) ∷ ps ]

abbrev clock : ℕ → ℕ → ℕ → ℕ → Option ℕ
clock a b c d =
    let hour = 10 * (a - b'0') + (b - b'0') in
    if ((between b'0' b'1' a && between b'0' b'9' b) || (a == b'2' && between b'0' b'3' b))
      && (between b'0' b'5' c && between b'0' b'9' d)
    then some (hour * 60 + (10 * (c - b'0') + (d - b'0')))
    else none

-- `scheduleTimeRe`, HH:MM, and the minutes after midnight that it stands for
unfoldable pub daily_time : List ℕ → Option ℕ
daily_time (a ∷ b ∷ x ∷ c ∷ d ∷ []) = if x == b':' then clock a b c d else none
daily_time _ = none

-- the loop, with what it has so far
unfoldable pub read_times : List (List ℕ) → List ℕ → Option (List ℕ)
unfolding daily_time
read_times [] out = some out
read_times (p ∷ ps) out = elim (daily_time (trim_space p)) [
  | none ↦ none
  | some t ↦ read_times ps (if contains t out then out else out ++ t ∷ [])
]

abbrev is_empty : List ℕ → Bool
is_empty [] = true
is_empty (c ∷ cs) = false

-- `ScheduleTimes`; none is the error
unfoldable pub schedule_times : List ℕ → Option (List ℕ)
unfolding read_times sort_asc
schedule_times schedule =
    if is_empty (trim_space schedule) then some [] else elim (read_times (split b',' schedule) []) [
      | none ↦ none
      | some out ↦ some (sort_asc (λ t. t) out)
    ]

daily_time-lt : (s : List ℕ) (t : ℕ) → daily_time s ≡ some t → t < 1440
unfolding daily_time
daily_time-lt [] t h = absurd (ground arith)
daily_time-lt (a ∷ []) t h = absurd (ground arith)
daily_time-lt (a ∷ b ∷ []) t h = absurd (ground arith)
daily_time-lt (a ∷ b ∷ x ∷ []) t h = absurd (ground arith)
daily_time-lt (a ∷ b ∷ x ∷ c ∷ []) t h = absurd (ground arith)
daily_time-lt (a ∷ b ∷ x ∷ c ∷ d ∷ []) t h = ground arith
daily_time-lt (a ∷ b ∷ x ∷ c ∷ d ∷ e ∷ es) t h = absurd (ground arith)

-- minutes of a day, each once
abbrev Minutes : List ℕ → Type 0
Minutes [] = Unit
Minutes (t ∷ ts) = (t < 1440) × (contains t ts ≡ false) × Minutes ts

contains-snoc : (n m : ℕ) (xs : List ℕ) → contains n (xs ++ m ∷ []) ≡ (contains n xs || n == m)
contains-snoc n m [] = ground arith
contains-snoc n m (x ∷ xs) = ground (arith, contains-snoc n m xs)

Minutes-snoc :
    (t : ℕ) (ts : List ℕ) → t < 1440 → contains t ts ≡ false → Minutes ts → Minutes (ts ++ t ∷ [])
Minutes-snoc t [] l c m = (l, refl, tt)
Minutes-snoc t (s ∷ ts) l c m =
    (m.0, ground (arith, m.1, contains-snoc s t ts), Minutes-snoc t ts l (ground arith) m.2)

read_times-Minutes :
    (ps : List (List ℕ)) (out ts : List ℕ) → Minutes out → read_times ps out ≡ some ts → Minutes ts
unfolding read_times
read_times-Minutes [] out ts m h = let is : out ≡ ts = ground arith in rw (← is) m
read_times-Minutes (p ∷ ps) out ts m h = elim (Option-cases (daily_time (trim_space p))) [
  | inl bad ↦ absurd (ground arith)
  | inr (t, good) ↦ elim (Bool-cases (contains t out)) [
    | inl there ↦ read_times-Minutes ps out ts m (ground arith)
    | inr new ↦
        read_times-Minutes ps (out ++ t ∷ []) ts
          (Minutes-snoc t out (daily_time-lt (trim_space p) t good) new m) (ground arith)
  ]
]

All-place_asc :
    (n a : ℕ) (xs : List ℕ)
    → n < a
    → All (λ m. n < m) xs
    → All (λ m. n < m) (place_asc (λ t. t) a xs)
unfolding place_asc
All-place_asc n a [] h t = (h, tt)
All-place_asc n a (b ∷ bs) h t = ground (arith, All-place_asc n a bs)

All-lt : (n m : ℕ) (xs : List ℕ) → n < m → All (λ k. m < k) xs → All (λ k. n < k) xs
All-lt n m [] h t = tt
All-lt n m (x ∷ xs) h t = (omega (arith, t.0), All-lt n m xs h t.1)

place_asc-Daily :
    (a : ℕ) (xs : List ℕ)
    → a < 1440
    → contains a xs ≡ false
    → Daily xs
    → Daily (place_asc (λ t. t) a xs)
unfolding place_asc
place_asc-Daily a [] l c d = (l, tt, tt)
place_asc-Daily a (b ∷ bs) l c d = elim (Bool-cases (ltb b a)) [
  | inl after_b ↦
      rw after_b
        (d.0, All-place_asc b a bs (ground arith) d.1, place_asc-Daily a bs l (ground arith) d.2)
  | inr before_b ↦ rw before_b (l, (ground arith, All-lt a b bs (ground arith) d.1), d)
]

contains-place_asc :
    (n a : ℕ) (xs : List ℕ) → contains n (place_asc (λ t. t) a xs) ≡ (n == a || contains n xs)
unfolding place_asc
contains-place_asc n a [] = refl
contains-place_asc n a (b ∷ bs) = ground (arith, contains-place_asc n a bs)

contains-sort_asc : (n : ℕ) (xs : List ℕ) → contains n (sort_asc (λ t. t) xs) ≡ contains n xs
unfolding sort_asc
contains-sort_asc n [] = refl
contains-sort_asc n (a ∷ xs) =
    ground (arith, contains-sort_asc n xs, contains-place_asc n a (sort_asc (λ t. t) xs))

sort_asc-Daily : (xs : List ℕ) → Minutes xs → Daily (sort_asc (λ t. t) xs)
unfolding sort_asc
sort_asc-Daily [] m = tt
sort_asc-Daily (a ∷ xs) m =
    let c = contains-sort_asc a xs in
    place_asc-Daily a (sort_asc (λ t. t) xs) m.0 (ground (arith, c, m.1)) (sort_asc-Daily xs m.2)

-- Whatever a schedule says, the times that are read of it are minutes of a day, in order and each once: what
-- the scheduler asks of them.
pub schedule_times-Daily :
    (schedule : List ℕ) (times : List ℕ) → schedule_times schedule ≡ some times → Daily times
unfolding schedule_times
schedule_times-Daily schedule times h = elim (Bool-cases (is_empty (trim_space schedule))) [
  | inl none_named ↦ let is : [] ≡ times = ground arith in rw (← is) tt
  | inr named ↦ elim (Option-cases (read_times (split b',' schedule) [])) [
    | inl bad ↦ absurd (ground arith)
    | inr (out, good) ↦
        let is : sort_asc (λ t. t) out ≡ times = ground arith in
        rw (← is) (sort_asc-Daily out (read_times-Minutes (split b',' schedule) [] out tt good))
  ]
]
