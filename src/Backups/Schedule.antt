-- ===== src/Backups/Schedule.antt =====
-- When a scheduled backup is due, and that one starts (pkg/server/backup_schedule.go).
-- A time is a number of nanoseconds in UTC; 0 stands for Go's zero time. What the recorded schedule says
-- (loadBackupSchedule) and whether the job could be queued (queueJob) come as arguments; the logs are left
-- out.
use native_ops.Base.{
  ℕ, zero, suc, ◌+◌, ◌*◌, ◌-◌, ◌%◌, String, Bool, true, false, ◌&&◌, ◌||◌, Option, none, some, List,
  [], ◌∷◌, ltb, leb, ◌==◌, if◌then◌else◌,
}

abbrev pub minute : ℕ
minute = 60 * 1000000000

abbrev pub day : ℕ
day = 86400 * 1000000000

abbrev pub in_window : ℕ → ℕ → ℕ → Bool
in_window last now slot = ltb last slot && leb slot now

-- the loop over the times of a day, with what was found before
unfoldable pub pick : ℕ → ℕ → ℕ → List ℕ → Option ℕ → Option ℕ
pick last now midnight [] found = found
pick last now midnight (m ∷ ms) found =
    pick last now midnight ms
      (if in_window last now (midnight + m * minute) then some (midnight + m * minute) else found)

-- the loop over the days, with at most `fuel` rounds
unfoldable pub pick_days : ℕ → ℕ → ℕ → ℕ → List ℕ → Option ℕ → Option ℕ
unfolding pick
pick_days zero last now midnight times found = found
pick_days (suc fuel) last now midnight times found =
    let next =
      pick_days fuel last now (midnight + day) times (pick last now midnight times found) in
    if ltb now midnight then found else next

abbrev pub not_longer : ℕ → ℕ → ℕ
not_longer last now = if leb day (now - last) then now - day else last

abbrev pub midnight_of : ℕ → ℕ
midnight_of t = t - t % day

-- `dueBetween`
unfoldable pub due_between : List ℕ → ℕ → ℕ → Option ℕ
unfolding pick_days
due_between [] last now = none
due_between (m ∷ ms) last now =
    let from = not_longer last now in pick_days 3 from now (midnight_of from) (m ∷ ms) none

-- `backupSched`
pub record BackupSched : Type 0 where
  pub last : ℕ
  pub pending : Bool
  pub in_flight : String

-- what a check came to; a job that was queued has an identifier
pub data Check : Type 0 where
  nothing_due not_read : Check
  started : ℕ → String → Check
  skipped not_queued : ℕ → Check

-- `done`
unfoldable pub done : BackupSched → BackupSched
done s = record s { pending = false; in_flight = "" }

-- `startScheduledBackup`, up to the queued job; `queued` is its identifier, or none if it was refused
unfoldable pub start_scheduled_backup : ℕ → Option String → BackupSched → BackupSched × Check
unfolding done
start_scheduled_backup slot queued s =
    if s.pending
    then (s, skipped slot)
    else (let s1 = record s { pending = true } in
        elim queued [ none ↦ (done s1, not_queued slot) | some id ↦ (s1, started slot id) ])

-- its last lines: the job may have ended already
unfoldable pub note_in_flight : String → BackupSched → BackupSched
note_in_flight id s = if s.pending then record s { in_flight = id } else s

-- `backupScheduleTick`
unfoldable pub backup_schedule_tick :
    ℕ → Option (List ℕ) → Option String → BackupSched → BackupSched × Check
unfolding due_between start_scheduled_backup
backup_schedule_tick now schedule queued s =
    let s1 = if ltb s.last now then record s { last = now } else s in
    if s.last == 0 || leb now s.last then (s1, nothing_due) else elim schedule [
      | none ↦ (s1, not_read)
      | some times ↦ elim (due_between times s.last now) [
        | none ↦ (s1, nothing_due)
        | some slot ↦ start_scheduled_backup slot queued s1
      ]
    ]
