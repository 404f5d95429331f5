-- ===== src/Throttle/Waits.antt =====
-- How long a sign-in waits after so many failures in a row.
use native_ops.Base.{
  inl, inr, true, ℕ, zero, suc, ◌+◌, ◌*◌, ◌-◌, ◌≤◌, ◌<◌, ◌≡◌, refl, String, false, arith, List, [],
  ◌∷◌, none, some, ltb, length, if◌then◌else◌, eq_refl, str_eq, Bool-cases,
}
use native_ops.Base.Dict.{lookup, insert, lookup-insert}
use native_ops.Throttle.{
  throttle_first, throttle_max, throttle_forget, ThrottleState, LoginThrottle, wait, doubled,
  wait_after, state_at, failed_at, fail,
}

doubled-ge : (n w : ℕ) → w ≤ doubled n w
unfolding doubled
doubled-ge zero w = omega arith
doubled-ge (suc n) w = ground (arith, doubled-ge n (2 * w))

-- the waits never shrink as failures add up, start at 30 seconds and end at 15 minutes
wait_after-bounds :
    (over : ℕ) → (throttle_first ≤ wait_after over) × (wait_after over ≤ throttle_max)
unfolding wait_after
wait_after-bounds over = ground (arith, doubled-ge (over - 1) throttle_first)

-- `n` failures of one name in a row, at the times of the list, the latest first
unfoldable pub fails : String → List ℕ → LoginThrottle → LoginThrottle
fails user [] t = t
fails user (now ∷ earlier) t = fail user now (fails user earlier t)

-- no more than an hour between one failure and the next
abbrev pub InARow : List ℕ → Type 0
InARow [] = Unit
InARow (now ∷ []) = Unit
InARow (now ∷ before ∷ earlier) = (now - before ≤ throttle_forget) × InARow (before ∷ earlier)

length-insert :
    (k : String) (v : ThrottleState) (t : LoginThrottle)
    → length (insert k v t) ≡ (elim (lookup k t) [ none ↦ suc (length t) | some _ ↦ length t ])
unfolding insert lookup
length-insert k v [] = refl
length-insert k v ((j, w) ∷ t) = ground (arith, length-insert k v t)

-- what so many failures in a row leave
after_fails : ℕ → ℕ → ThrottleState
after_fails n now = record {
  failures = n;
  until = if ltb 5 n then now + wait_after (n - 5) else 0;
  last = now;
}

fail_small :
    (user k : String) (now : ℕ) (t : LoginThrottle)
    → length (insert user (failed_at now (state_at now (lookup user t))) t) ≤ 10000
    → (lookup k (fail user now t) ≡ (
        if str_eq user k then some (failed_at now (state_at now (lookup user t))) else lookup k t))
      × (length (fail user now t)
          ≡ (elim (lookup user t) [ none ↦ suc (length t) | some _ ↦ length t ]))
unfolding fail
fail_small user k now t small =
    let new = failed_at now (state_at now (lookup user t)) in
    (ground (arith, lookup-insert user k new t), ground (arith, length-insert user new t))

first_failure : (now : ℕ) → failed_at now (state_at now none) ≡ after_fails 1 now
unfolding failed_at state_at after_fails
first_failure now = refl

next_failure :
    (n before now : ℕ)
    → now - before ≤ throttle_forget
    → failed_at now (state_at now (some (after_fails n before))) ≡ after_fails (suc n) now
unfolding failed_at state_at after_fails
next_failure n before now soon = ground arith

fails_lem :
    (user : String) (now : ℕ) (earlier : List ℕ) (t : LoginThrottle)
    → lookup user t ≡ none
    → length t < 10000
    → InARow (now ∷ earlier)
    → (lookup user (fails user (now ∷ earlier) t) ≡ some (after_fails (suc (length earlier)) now))
      × (length (fails user (now ∷ earlier) t) ≡ suc (length t))
      × ((k : String)
          → str_eq user k ≡ false
          → lookup k (fails user (now ∷ earlier) t) ≡ lookup k t)
unfolding fails
fails_lem user now [] t new small row =
    let one : failed_at now (state_at now (lookup user t)) ≡ after_fails 1 now =
      rw new (first_failure now) in
    let fits : length (insert user (failed_at now (state_at now (lookup user t))) t) ≤ 10000 =
      ground (arith, length-insert user (failed_at now (state_at now (lookup user t))) t) in
    let (here, size) = fail_small user user now t fits in
    (
      ground (arith, here, eq_refl user, one),
      ground (arith, size),
      λ k other. let (there, _) = fail_small user k now t fits in ground (arith, there),
    )
fails_lem user now (before ∷ earlier) t new small row =
    let (was, count, others) = fails_lem user before earlier t new small row.1 in
    let t1 = fails user (before ∷ earlier) t in
    let one : failed_at now (state_at now (lookup user t1))
        ≡ after_fails (suc (suc (length earlier))) now =
      rw was (next_failure (suc (length earlier)) before now row.0) in
    let fits : length (insert user (failed_at now (state_at now (lookup user t1))) t1) ≤ 10000 =
      ground (arith, length-insert user (failed_at now (state_at now (lookup user t1))) t1) in
    let (here, size) = fail_small user user now t1 fits in
    (
      ground (arith, here, eq_refl user, one),
      ground (arith, size),
      λ k other.
          let (there, _) = fail_small user k now t1 fits in
          let same = others k other in ground (arith, there, same),
    )

doubled_stays : (n w : ℕ) → throttle_max ≤ w → doubled n w ≡ w
unfolding doubled
doubled_stays zero w h = refl
doubled_stays (suc n) w h = ground arith

-- one round more, counted from the end
doubled_last :
    (n w : ℕ)
    → doubled (suc n) w ≡ (if ltb (doubled n w) throttle_max then 2 * doubled n w else doubled n w)
unfolding doubled
doubled_last zero w = ground arith
doubled_last (suc n) w = elim (Bool-cases (ltb w throttle_max)) [
  | inl low ↦ let ih = doubled_last n (2 * w) in unfold doubled in ground (arith, ih)
  | inr high ↦ ground arith
]

-- one failure more doubles the wait, up to 15 minutes
wait_after_doubles :
    (over : ℕ)
    → wait_after (suc (suc over)) ≡ (
        if ltb (2 * wait_after (suc over)) throttle_max
        then 2 * wait_after (suc over)
        else throttle_max)
unfolding wait_after
wait_after_doubles over = ground (arith, doubled_last over throttle_first)

-- What the failures of one name in a row do, each within an hour of the one before, in a map with room:
-- the first five make nobody wait; after that the name waits, from its last failure, 30 seconds that double
-- with each further failure, and never more than 15 minutes; no other name waits any longer for them.
pub fails-wait :
    (user : String) (now : ℕ) (earlier : List ℕ) (t : LoginThrottle)
    → lookup user t ≡ none
    → length t < 10000
    → InARow (now ∷ earlier)
    → (wait user now (fails user (now ∷ earlier) t)
        ≡ (if ltb 5 (suc (length earlier)) then wait_after (suc (length earlier) - 5) else 0))
      × (wait user now (fails user (now ∷ earlier) t) ≤ throttle_max)
      × ((wait_after 1 ≡ throttle_first)
          × ((over : ℕ)
              → wait_after (suc (suc over)) ≡ (
                  if ltb (2 * wait_after (suc over)) throttle_max
                  then 2 * wait_after (suc over)
                  else throttle_max)))
      × ((k : String) (at : ℕ)
          → str_eq user k ≡ false
          → wait k at (fails user (now ∷ earlier) t) ≡ wait k at t)
unfolding wait
fails-wait user now earlier t new small row =
    let (here, _, others) = fails_lem user now earlier t new small row in
    let bounds = wait_after-bounds (suc (length earlier) - 5) in
    unfold after_fails in
    (
      ground (arith, here),
      ground (arith, here, bounds),
      (unfold wait_after doubled in refl, wait_after_doubles),
      λ k at other. rw (others k other, wait) refl,
    )

-- after more than five failures in a row the name waits for half a minute at least
pub fails_locked :
    (user : String) (now : ℕ) (earlier : List ℕ) (t : LoginThrottle) (at : ℕ)
    → lookup user t ≡ none
    → length t < 10000
    → InARow (now ∷ earlier)
    → 5 ≤ length earlier
    → at < now + throttle_first
    → ltb 0 (wait user at (fails user (now ∷ earlier) t)) ≡ true
unfolding wait after_fails
fails_locked user now earlier t at new small row many soon =
    let (here, _, _) = fails_lem user now earlier t new small row in
    let bounds = wait_after-bounds (suc (length earlier) - 5) in ground (arith, here, bounds)
