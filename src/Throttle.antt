-- ===== src/Throttle.antt =====
-- How failed sign-ins slow the next ones down (pkg/server/throttle.go).
-- A name stands here as its key (throttleKey: trimmed and in lower case). A `*throttleState` is shared by
-- the map alone. A time of zero is Go's zero time, which is before every clock's answer.
pub mod Waits
mod Tests
use native_ops.Base.{
  ℕ, zero, suc, ◌+◌, ◌*◌, ◌-◌, String, Bool, ◌||◌, ◌&&◌, Option, none, some, List, [], ◌∷◌, ltb,
  leb, length, if◌then◌else◌,
}
use native_ops.Base.Dict.{Dict, lookup, insert, erase}

abbrev pub throttle_free : ℕ
throttle_free = 5

-- in nanoseconds: 30 seconds, 15 minutes, an hour
abbrev pub throttle_first : ℕ
throttle_first = 30 * 1000000000

abbrev pub throttle_max : ℕ
throttle_max = 900 * 1000000000

abbrev pub throttle_forget : ℕ
throttle_forget = 3600 * 1000000000

pub record ThrottleState : Type 0 where
  pub failures : ℕ
  pub until : ℕ
  pub last : ℕ

abbrev pub LoginThrottle : Type 0
LoginThrottle = Dict ThrottleState

unfoldable pub wait : String → ℕ → LoginThrottle → ℕ
wait user now t = elim (lookup user t) [ none ↦ 0 | some st ↦ st.until - now ]

-- the loop `for i := 1; i < over && wait < throttleMax; i++`, with `n` rounds left
unfoldable pub doubled : ℕ → ℕ → ℕ
doubled zero w = w
doubled (suc n) w = let next = doubled n (2 * w) in if ltb w throttle_max then next else w

-- the wait after `over` failures more than are free
unfoldable pub wait_after : ℕ → ℕ
unfolding doubled
wait_after over =
    let w = doubled (over - 1) throttle_first in if ltb throttle_max w then throttle_max else w

-- the state that a failure adds to: a new one, if there is none or the last failure is long ago
unfoldable pub state_at : ℕ → Option ThrottleState → ThrottleState
state_at now none = record { failures = 0; until = 0; last = 0 }
state_at now (some st) =
    if ltb throttle_forget (now - st.last) then record { failures = 0; until = 0; last = 0 } else st

unfoldable pub failed_at : ℕ → ThrottleState → ThrottleState
unfolding wait_after
failed_at now st = record {
  failures = suc st.failures;
  until =
      if ltb 0 (suc st.failures - throttle_free)
      then now + wait_after (suc st.failures - throttle_free)
      else st.until;
  last = now;
}

-- the states that a full map lets go
abbrev over_with : ℕ → ThrottleState → Bool
over_with now s = ltb throttle_forget (now - s.last) || ltb s.until now

unfoldable pub swept : ℕ → LoginThrottle → LoginThrottle
swept now [] = []
swept now ((k, s) ∷ rest) =
    let others = swept now rest in if over_with now s then others else (k, s) ∷ others

unfoldable pub fail : String → ℕ → LoginThrottle → LoginThrottle
unfolding state_at failed_at swept
fail user now t =
    let t1 = insert user (failed_at now (state_at now (lookup user t))) t in
    if ltb 10000 (length t1) then swept now t1 else t1

unfoldable pub succeed : String → LoginThrottle → LoginThrottle
succeed user t = erase user t
