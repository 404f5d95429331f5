-- ===== src/Throttle/Tests.antt =====
-- Seven wrong passwords, and the theorem on them.
use native_ops.Base.{
  ℕ, suc, ◌*◌, ◌-◌, ◌≤◌, ◌≡◌, refl, arith, String, false, List, [], ◌∷◌, ltb, str_eq, if◌then◌else◌,
}
use native_ops.Base.Dict.{lookup, insert}
use native_ops.Throttle.{LoginThrottle, throttle_max, throttle_first, wait, wait_after, fail}
use native_ops.Throttle.Waits.{InARow, fails, fails-wait}

abbrev before_last : List ℕ
before_last = 60 ∷ 50 ∷ 40 ∷ 30 ∷ 20 ∷ 10 ∷ []

abbrev nobody : LoginThrottle
nobody = []

-- a minute, after the seventh
a_minute : wait "ann" 70 (fails "ann" (70 ∷ before_last) nobody) ≡ 60000000000
unfolding wait fails fail lookup insert
a_minute = refl

fails-wait_example :
    (wait "ann" 70 (fails "ann" (70 ∷ before_last) nobody)
      ≡ (if ltb 5 7 then wait_after (7 - 5) else 0))
    × (wait "ann" 70 (fails "ann" (70 ∷ before_last) nobody) ≤ throttle_max)
    × ((wait_after 1 ≡ throttle_first)
        × ((over : ℕ)
            → wait_after (suc (suc over)) ≡ (
                if ltb (2 * wait_after (suc over)) throttle_max
                then 2 * wait_after (suc over)
                else throttle_max)))
    × ((k : String) (at : ℕ)
        → str_eq "ann" k ≡ false
        → wait k at (fails "ann" (70 ∷ before_last) nobody) ≡ wait k at nobody)
fails-wait_example =
    fails-wait "ann" 70 before_last nobody (unfold lookup in refl) (omega arith) soon
  where
    soon : InARow (70 ∷ before_last)
    soon =
        (omega arith, (omega arith, (omega arith, (omega arith, (omega arith, (omega arith, tt))))))
