-- ===== src/Backups/Slots.antt =====
-- The times at which scheduled backups start (dueBetween and backupScheduleTick of
-- pkg/server/backup_schedule.go).
use native_ops.Base.{
  ℕ, zero, suc, ◌+◌, ◌*◌, ◌-◌, ◌/◌, ◌≡◌, ◌≤◌, ◌<◌, refl, arith, true, false, Option, none, some,
  List, [], ◌∷◌, ltb, All, if◌then◌else◌, Bool-cases, Option-cases, inl, inr,
}
use native_ops.Base.Sort.{Member}
use native_ops.Backups.Schedule.{minute, day, in_window, pick, pick_days, midnight_of}

-- daily times as ScheduleTimes gives them: minutes of a day, in order
abbrev pub Daily : List ℕ → Type 0
Daily [] = Unit
Daily (m ∷ ms) = (m < 1440) × All (λ n. m < n) ms × Daily ms

-- what stands in a list of times from a midnight on
abbrev At : ℕ → List ℕ → ℕ → Type 0
At midnight ms slot = (m : ℕ) × Member m ms × (slot ≡ midnight + m * minute)

pick_found :
    (last now midnight : ℕ) (ms : List ℕ) (found : Option ℕ)
    → pick last now midnight ms found
      ≡ elim (pick last now midnight ms none) [ none ↦ found | some s ↦ some s ]
unfolding pick
pick_found last now midnight [] found = refl
pick_found last now midnight (m ∷ ms) found =
    elim (Bool-cases (in_window last now (midnight + m * minute))) [
      | inl here ↦
          let ih = pick_found last now midnight ms (some (midnight + m * minute)) in
          ground (arith, ih)
      | inr out ↦ let ih = pick_found last now midnight ms found in ground (arith, ih)
    ]

pick-none :
    (last now midnight : ℕ) (ms : List ℕ)
    → pick last now midnight ms none ≡ none
    → (m : ℕ) → Member m ms
    → in_window last now (midnight + m * minute) ≡ false
unfolding pick
pick-none last now midnight [] e m i = absurd i
pick-none last now midnight (n ∷ ms) e m i =
    elim (Bool-cases (in_window last now (midnight + n * minute))) [
      | inl here ↦
          let f = pick_found last now midnight ms (some (midnight + n * minute)) in
          absurd (ground (arith, f))
      | inr out ↦ here_or_later out i (pick-none last now midnight ms (ground arith))
    ]
  where
    here_or_later :
        in_window last now (midnight + n * minute) ≡ false
        → Member m (n ∷ ms)
        → ((k : ℕ) → Member k ms → in_window last now (midnight + k * minute) ≡ false)
        → in_window last now (midnight + m * minute) ≡ false
    here_or_later out (inl is) later = rw (← is) out
    here_or_later out (inr i) later = later m i

later_than : (n k : ℕ) (ms : List ℕ) → All (λ m. n < m) ms → Member k ms → n < k
later_than n k [] a i = absurd i
later_than n k (m ∷ ms) a (inl is) = omega (arith, is, a.0)
later_than n k (m ∷ ms) a (inr i) = later_than n k ms a.1 i

pick-some :
    (last now midnight : ℕ) (ms : List ℕ) (s : ℕ)
    → Daily ms
    → pick last now midnight ms none ≡ some s
    → At midnight ms s
      × (in_window last now s ≡ true)
      × ((m : ℕ)
          → Member m ms
          → in_window last now (midnight + m * minute) ≡ true
          → midnight + m * minute ≤ s)
unfolding pick
pick-some last now midnight [] s d e = absurd (ground arith)
pick-some last now midnight (n ∷ ms) s d e = elim (Option-cases (pick last now midnight ms none)) [
  | inr (t, e2) ↦
      let (at, inside, top) = pick-some last now midnight ms t d.2 e2 in
      let f = pick_found last now midnight ms (
        if in_window last now (midnight + n * minute)
        then some (midnight + n * minute)
        else none) in
      let is : t ≡ s = ground (arith, f) in
      rw (← is) ((at.0, inr at.1, at.2), inside, λ m i w. last_of at i w top)
  | inl e2 ↦ elim (Bool-cases (in_window last now (midnight + n * minute))) [
    | inr out ↦ absurd (ground arith)
    | inl here ↦
        let f = pick_found last now midnight ms (some (midnight + n * minute)) in
        let is : midnight + n * minute ≡ s = ground (arith, f) in
        rw (← is) ((n, inl refl, refl), here, λ m i w. only i w (pick-none last now midnight ms e2))
  ]
]
  where
    last_of :
        {m t : ℕ}
        → At midnight ms t
        → Member m (n ∷ ms)
        → in_window last now (midnight + m * minute) ≡ true
        → ((k : ℕ)
            → Member k ms
            → in_window last now (midnight + k * minute) ≡ true
            → midnight + k * minute ≤ t)
        → midnight + m * minute ≤ t
    last_of {m} {t} (k, i, is) (inl first) w top =
        let later = later_than n k ms d.1 i in omega (arith, first, is, later)
    last_of {m} at (inr i) w top = top m i w

    only :
        {m : ℕ}
        → Member m (n ∷ ms)
        → in_window last now (midnight + m * minute) ≡ true
        → ((k : ℕ) → Member k ms → in_window last now (midnight + k * minute) ≡ false)
        → midnight + m * minute ≤ midnight + n * minute
    only (inl first) w out = omega (arith, first)
    only {m} (inr i) w out = absurd (let no' = out m i in ground arith)

-- no daily time is a day or more after its midnight
within_day :
    (midnight m : ℕ) (ms : List ℕ) → Daily ms → Member m ms → midnight + m * minute < midnight + day
within_day midnight m [] d i = absurd i
within_day midnight m (n ∷ ms) d (inl is) = omega (arith, is, d.0)
within_day midnight m (n ∷ ms) d (inr i) = within_day midnight m ms d.2 i

pick_days_found :
    (fuel last now midnight : ℕ) (ms : List ℕ) (found : Option ℕ)
    → pick_days fuel last now midnight ms found
      ≡ elim (pick_days fuel last now midnight ms none) [ none ↦ found | some s ↦ some s ]
unfolding pick_days
pick_days_found zero last now midnight ms found = refl
pick_days_found (suc fuel) last now midnight ms found =
    let a = pick_found last now midnight ms found in
    let b = pick_days_found fuel last now (midnight + day) ms (pick last now midnight ms found) in
    let c = pick_days_found fuel last now (midnight + day) ms (pick last now midnight ms none) in
    ground (arith, a, b, c)

-- What the loop over the days finds, given rounds enough to come past `now`: nothing, and then no time of a
-- day from this midnight on is in the window; or the latest that is.
abbrev Found : ℕ → ℕ → ℕ → List ℕ → Option ℕ → Type 0
Found last now midnight ms none =
    (j m : ℕ) → Member m ms → in_window last now (midnight + j * day + m * minute) ≡ false
Found last now midnight ms (some s) =
    ((j : ℕ) × At (midnight + j * day) ms s)
    × (in_window last now s ≡ true)
    × ((j m : ℕ)
        → Member m ms
        → in_window last now (midnight + j * day + m * minute) ≡ true
        → midnight + j * day + m * minute ≤ s)

abbrev Today : ℕ → ℕ → ℕ → List ℕ → Option ℕ → Type 0
Today last now midnight ms none =
    (m : ℕ) → Member m ms → in_window last now (midnight + m * minute) ≡ false
Today last now midnight ms (some s) =
    At midnight ms s
    × (in_window last now s ≡ true)
    × ((m : ℕ)
        → Member m ms
        → in_window last now (midnight + m * minute) ≡ true
        → midnight + m * minute ≤ s)

pick-Today :
    (last now midnight : ℕ) (ms : List ℕ)
    → Daily ms
    → Today last now midnight ms (pick last now midnight ms none)
pick-Today last now midnight ms d = elim (Option-cases (pick last now midnight ms none)) [
  | inl e ↦ rw e (pick-none last now midnight ms e)
  | inr (s, e) ↦ rw e (pick-some last now midnight ms s d e)
]

same_day : (midnight m : ℕ) → midnight + zero * day + m * minute ≡ midnight + m * minute
same_day midnight m = omega arith

next_day :
    (midnight j m : ℕ) → midnight + suc j * day + m * minute ≡ midnight + day + j * day + m * minute
next_day midnight j m = omega arith

-- what a day and the days after it come to
combined :
    (last now midnight : ℕ) (ms : List ℕ) (today rest : Option ℕ)
    → Daily ms
    → Today last now midnight ms today
    → Found last now (midnight + day) ms rest
    → Found last now midnight ms (elim rest [ none ↦ today | some s ↦ some s ])
combined last now midnight ms none none d t f = out
  where
    out : (j m : ℕ) → Member m ms → in_window last now (midnight + j * day + m * minute) ≡ false
    out zero m i = rw (same_day midnight m) (t m i)
    out (suc j) m i = rw (next_day midnight j m) (f j m i)
combined last now midnight ms (some s) none d t f = ((zero, at), t.1, top)
  where
    at : At (midnight + zero * day) ms s
    at = let (m, i, is) = t.0 in (m, i, omega (arith, is))

    top :
        (j m : ℕ)
        → Member m ms
        → in_window last now (midnight + j * day + m * minute) ≡ true
        → midnight + j * day + m * minute ≤ s
    top zero m i w = let u = t.2 m i (rw (← same_day midnight m) w) in omega (arith, u)
    top (suc j) m i w =
        absurd (let n = f j m i in let w' = rw (next_day midnight j m) at w in ground arith)
combined last now midnight ms today (some s) d t f = ((suc f.0.0, at), f.1, top)
  where
    at : At (midnight + suc f.0.0 * day) ms s
    at = let (m, i, is) = f.0.1 in (m, i, omega (arith, is))

    late : midnight + day ≤ s
    late = let (m, i, is) = f.0.1 in omega (arith, is)

    top :
        (j m : ℕ)
        → Member m ms
        → in_window last now (midnight + j * day + m * minute) ≡ true
        → midnight + j * day + m * minute ≤ s
    top zero m i w = omega (arith, late, within_day midnight m ms d i)
    top (suc j) m i w = let u = f.2 j m i (rw (next_day midnight j m) at w) in omega (arith, u)

pub pick_days-Found :
    (fuel last now midnight : ℕ) (ms : List ℕ)
    → Daily ms
    → now < midnight + fuel * day
    → Found last now midnight ms (pick_days fuel last now midnight ms none)
unfolding pick_days
pick_days-Found zero last now midnight ms d h = λ j m i. ground arith
pick_days-Found (suc fuel) last now midnight ms d h = elim (Bool-cases (ltb now midnight)) [
  | inl past ↦ rw past (λ j m i. ground arith)
  | inr today ↦
      rw (today, pick_days_found fuel last now (midnight + day) ms (pick last now midnight ms none))
        (combined last now midnight ms (pick last now midnight ms none)
          (pick_days fuel last now (midnight + day) ms none) d (pick-Today last now midnight ms d)
          (pick_days-Found fuel last now (midnight + day) ms d (omega (arith, h))))
]

-- a scheduled time of some day
abbrev pub Slot : List ℕ → ℕ → Type 0
Slot times x = (k : ℕ) × (m : ℕ) × Member m times × (x ≡ k * day + m * minute)

-- what dueBetween answers for a window that is no longer than a day
abbrev pub Due : List ℕ → ℕ → ℕ → Option ℕ → Type 0
Due times last now none = (x : ℕ) → Slot times x → in_window last now x ≡ false
Due times last now (some s) =
    Slot times s
    × (in_window last now s ≡ true)
    × ((x : ℕ) → Slot times x → in_window last now x ≡ true → x ≤ s)

-- a time after another stands so many days after its midnight, or later on that day
days_after :
    (from k t : ℕ) → t < day → from < k * day + t → (j : ℕ) × (k * day ≡ midnight_of from + j * day)
days_after from k t h w = (k - from / day, omega arith)

pub minutes_of_day : (m : ℕ) (times : List ℕ) → Daily times → Member m times → m * minute < day
minutes_of_day m times d i = let w = within_day 0 m times d i in omega (arith, w)

pub in_Due :
    (from now : ℕ) (times : List ℕ) (o : Option ℕ)
    → Daily times
    → Found from now (midnight_of from) times o
    → Due times from now o
in_Due from now times none d f = λ x slot. out x slot
  where
    out : (x : ℕ) → Slot times x → in_window from now x ≡ false
    out x (k, m, i, is) = elim (Bool-cases (in_window from now x)) [
      | inr n ↦ n
      | inl w ↦
          let (j, e) = days_after from k (m * minute) (minutes_of_day m times d i) (ground arith) in
          let same : x ≡ midnight_of from + j * day + m * minute = omega (arith, e, is) in
          rw same (f j m i)
    ]
in_Due from now times (some s) d f = (slot, f.1, top)
  where
    slot : Slot times s
    slot = let (m, i, is) = f.0.1 in (from / day + f.0.0, m, i, omega (arith, is))

    top : (x : ℕ) → Slot times x → in_window from now x ≡ true → x ≤ s
    top x (k, m, i, is) w =
        let (j, e) = days_after from k (m * minute) (minutes_of_day m times d i) (ground arith) in
        let same : x ≡ midnight_of from + j * day + m * minute = omega (arith, e, is) in
        let u = f.2 j m i (rw same at w) in omega (arith, same, u)
