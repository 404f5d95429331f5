-- ===== src/Backups/Tests.antt =====
-- A volume's backups and a schedule, and the theorems at concrete inputs.
use native_ops.Base.{
  ℕ, ◌+◌, ◌*◌, ◌≡◌, ◌≢◌, ◌≤◌, refl, arith, codes, true, false, not, ◌&&◌, none, some, List, [], ◌∷◌,
  ◌++◌, All, ltb, leb, contains, length,
}
use native_ops.Base.Sort.{sort_desc, place, place_asc}
use native_ops.Backups.{Item, items_of, month, select_prune, keep, dropped}
use native_ops.Backups.Times.{parse_object_time, parse_time}
use native_ops.Backups.Retention.{listed, months_of, select_prune_exact}
use native_ops.Backups.Schedule.{
  minute, day, due_between, pick_days, pick, backup_schedule_tick, start_scheduled_backup, done,
}
use native_ops.Backups.Slots.{Daily, Due}
use native_ops.Backups.Ticks.{
  Run, checked_at, cleaned_up, at_start, happen, Reach, begin, next, Once, due_between_exact,
  scheduled-Once,
}
use native_ops.Backups.Clock.{schedule_times, read_times, daily_time, schedule_times-Daily}
use native_ops.Backups.Prune.{Policy, is_candidate, candidates, prune}
use native_ops.Backups.Gone.{prune_gone}

abbrev january : List ℕ
january = codes "web/20240131T020000Z.tar.gz"

abbrev february : List ℕ
february = codes "web/20240229T020000Z.tar.gz"

abbrev march : List ℕ
march = codes "web/20240301T020000Z.tar.gz"

abbrev keys : List (List ℕ)
keys = january ∷ march ∷ codes "web/latest.json" ∷ february ∷ []

no_such_day : parse_object_time (codes "web/20230229T020000Z.tar.gz") ≡ none
unfolding parse_object_time parse_time
no_such_day = refl

-- the newest and the one before it stay
selected : select_prune keys 2 0 0 (λ _. 0) ≡ january ∷ []
unfolding select_prune items_of parse_object_time parse_time sort_desc place keep dropped
selected = refl

abbrev item : List ℕ → ℕ → Item
item k t = record { key = k; ts = t }

abbrev newer : List Item
newer = item march 20240301020000 ∷ item february 20240229020000 ∷ []

in_order : sort_desc (λ b. b.ts) (items_of keys) ≡ newer ++ item january 20240131020000 ∷ []
unfolding items_of parse_object_time parse_time sort_desc place
in_order = refl

select_prune_exact_example :
    All {A = Item} (λ b. 20240131020000 ≤ b.ts) newer
    × All {A = Item} (λ b. b.ts ≤ 20240131020000) []
    × (listed january (select_prune keys 2 0 0 (λ _. 0)) ≡ (
        ltb 0 (length newer)
        && (not (ltb 0 0 && ltb 0 20240131020000)
            && (leb 2 (length newer)
                && not (
                    ltb 0 0
                    && (not (contains (month (item january 20240131020000)) (months_of [] newer))
                        && ltb (length (months_of [] newer)) 0))))))
select_prune_exact_example =
    select_prune_exact keys 2 0 0 (λ _. 0) newer (item january 20240131020000) [] in_order refl refl

abbrev policy : Policy
policy = record { retain_daily = 2; retain_monthly = 0; retain_days = 0 }

prune_gone_example :
    let result = prune (λ _. 0) policy true true (codes "web/") true (λ _. true) keys in
    (listed january keys ≡ true
      → listed january result.0 ≡ false
      → (is_candidate (codes "web/") january ≡ true)
        × (listed january (select_prune (candidates (codes "web/") keys) 2 0 0 (λ _. 0)) ≡ true))
    × (result.1.0 ≡ none
        → listed january result.0 ≡ (listed january keys && not (listed january result.1.1)))
prune_gone_example =
    prune_gone (λ _. 0) policy true true (codes "web/") true (λ _. true) keys january

twice : schedule_times (codes "14:30, 02:00,14:30") ≡ some (120 ∷ 870 ∷ [])
unfolding schedule_times read_times daily_time place_asc
twice = refl

schedule_times-Daily_example : Daily (120 ∷ 870 ∷ [])
schedule_times-Daily_example =
    schedule_times-Daily (codes "14:30, 02:00,14:30") (120 ∷ 870 ∷ []) twice

abbrev times : List ℕ
times = 120 ∷ 870 ∷ []

times-Daily : Daily times
times-Daily = (omega arith, (omega arith, tt), (omega arith, tt, tt))

in_the_night :
    due_between times (3 * day + 119 * minute) (3 * day + 120 * minute)
    ≡ some (3 * day + 120 * minute)
unfolding due_between pick_days pick
in_the_night = refl

due_between_exact_example :
    Due times (3 * day) (5 * day) (due_between times (3 * day) (5 * day))
    × (3 * day + day ≤ 5 * day → times ≢ [] → due_between times (3 * day) (5 * day) ≢ none)
due_between_exact_example = due_between_exact times (3 * day) (5 * day) times-Daily (omega arith)

-- the first check only records the time, the second starts a backup, the third finds it running
abbrev checked : Run
checked = happen (checked_at (3 * day + 900 * minute) (some times) (some "j-2")) (
    happen (checked_at (3 * day + 120 * minute) (some times) (some "j-1"))
      (happen (checked_at (3 * day) (some times) none) at_start))

checked-Reach : Reach checked
checked-Reach =
    next (checked_at (3 * day + 900 * minute) (some times) (some "j-2"))
      (next (checked_at (3 * day + 120 * minute) (some times) (some "j-1"))
        (next (checked_at (3 * day) (some times) none) begin times-Daily) times-Daily)
      times-Daily

dealt_with_both : checked.slots ≡ (3 * day + 870 * minute) ∷ (3 * day + 120 * minute) ∷ []
unfolding happen backup_schedule_tick start_scheduled_backup due_between pick_days pick
dealt_with_both = refl

-- a check between a backup's cleanup and its end starts the next one
abbrev overlapping : Run
overlapping = happen (checked_at (3 * day + 900 * minute) (some times) (some "j-2")) (
    happen cleaned_up (
      happen (checked_at (3 * day + 120 * minute) (some times) (some "j-1"))
        (happen (checked_at (3 * day) (some times) none) at_start)))

one_of_each : (overlapping.jobs ≡ 1) × (overlapping.ending ≡ 1)
unfolding happen backup_schedule_tick start_scheduled_backup done due_between pick_days pick
one_of_each = (refl, refl)

scheduled-Once_example :
    (checked.jobs ≤ 1)
    × ((checked.jobs ≡ 1 → checked.sched.pending ≡ true)
        × (checked.jobs ≡ 0 → checked.sched.pending ≡ false))
    × Once checked.sched.last checked.slots
scheduled-Once_example = scheduled-Once checked-Reach
