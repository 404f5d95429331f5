-- ===== src/Backups/Ticks.antt =====
-- Which scheduled backups a run of checks starts (backupScheduleTick of pkg/server/backup_schedule.go).
use native_ops.Base.{
  ℕ, suc, ◌+◌, ◌*◌, ◌-◌, ◌/◌, ◌≡◌, ◌≢◌, ◌≤◌, ◌<◌, refl, arith, String, true, false, ◌||◌, Option,
  none, some, List, [], ◌∷◌, leb, ◌==◌, All, if◌then◌else◌, Bool-cases, Option-cases, inl, inr,
}
use native_ops.Base.Sort.{Member}
use native_ops.Backups.Schedule.{
  minute, day, in_window, pick_days, not_longer, midnight_of, due_between, BackupSched, Check,
  started, skipped, not_queued, done, start_scheduled_backup, note_in_flight, backup_schedule_tick,
}
use native_ops.Backups.Slots.{Daily, Slot, Due, in_Due, pick_days-Found, minutes_of_day}

-- in the last day before `now` every daily time comes once
some_slot :
    (times : List ℕ) (m now : ℕ)
    → Daily times
    → Member m times
    → day ≤ now
    → Due times (now - day) now none
    → ⊥
some_slot times m now d i h out =
    let short = minutes_of_day m times d i in
    let k = (now - m * minute) / day in
    let n = out (k * day + m * minute) (k, m, i, refl) in
    let w : in_window (now - day) now (k * day + m * minute) ≡ true = ground arith in
    ground (arith, n, w)

-- a window of more than a day is as good as its last day
widened :
    (times : List ℕ) (last now : ℕ) (o : Option ℕ)
    → o ≢ none
    → last + day ≤ now
    → Due times (now - day) now o
    → Due times last now o
widened times last now none n h d = absurd (n refl)
widened times last now (some s) n h d = (d.0, ground (arith, d.1), top)
  where
    top : (x : ℕ) → Slot times x → in_window last now x ≡ true → x ≤ s
    top x slot w = elim (Bool-cases (in_window (now - day) now x)) [
      | inl recent ↦ d.2 x slot recent
      | inr old ↦ ground (arith, d.1)
    ]

within_a_day :
    (m : ℕ) (ms : List ℕ) (last now : ℕ)
    → Daily (m ∷ ms)
    → last < now
    → Due (m ∷ ms) (not_longer last now) now (due_between (m ∷ ms) last now)
unfolding due_between
within_a_day m ms last now d h =
    let from = not_longer last now in
    let near : now < midnight_of from + 3 * day = ground arith in
    in_Due from now (m ∷ ms) (pick_days 3 from now (midnight_of from) (m ∷ ms) none) d
      (pick_days-Found 3 from now (midnight_of from) (m ∷ ms) d near)

no_times : (last now : ℕ) → Due [] last now (due_between [] last now)
unfolding due_between
no_times last now = λ x slot. let (k, m, i, e) = slot in absurd i

-- What is due between two checks, for daily times in order: nothing, and then no scheduled time lies after
-- the one check and at or before the other; or the latest time that does. After a day or more, something is
-- due.
pub due_between_exact :
    (times : List ℕ) (last now : ℕ)
    → Daily times
    → last < now
    → Due times last now (due_between times last now)
      × (last + day ≤ now → times ≢ [] → due_between times last now ≢ none)
due_between_exact [] last now d h = (no_times last now, λ _ some_times. absurd (some_times refl))
due_between_exact (m ∷ ms) last now d h = elim (Bool-cases (leb day (now - last))) [
  | inl long ↦
      let due = rw long at (within_a_day m ms last now d h) in
      let n : due_between (m ∷ ms) last now ≢ none =
        λ e. let out = rw e at due in some_slot (m ∷ ms) m now d (inl refl) (ground arith) out in
      (widened (m ∷ ms) last now (due_between (m ∷ ms) last now) n (ground arith) due, λ _ _. n)
  | inr short ↦ (rw short at (within_a_day m ms last now d h), λ gap. absurd (ground arith))
]

-- the scheduler with the scheduled jobs that are queued or at work; those that have cleaned up and are still
-- to be recorded as over (`end` of `launch`, pkg/server/apply.go, cleans up first); and the times that it
-- dealt with, the latest first
pub record Run : Type 0 where
  pub sched : BackupSched
  pub jobs : ℕ
  pub ending : ℕ
  pub slots : List ℕ

pub data Event : Type 0 where
  checked_at : ℕ → Option (List ℕ) → Option String → Event
  noted : String → Event
  cleaned_up ended : Event

abbrev queued_by : Check → ℕ → ℕ
queued_by (started slot id) n = suc n
queued_by _ n = n

abbrev dealt_with : Check → List ℕ → List ℕ
dealt_with (started slot id) xs = slot ∷ xs
dealt_with (skipped slot) xs = slot ∷ xs
dealt_with (not_queued slot) xs = slot ∷ xs
dealt_with _ xs = xs

unfoldable pub happen : Event → Run → Run
happen (checked_at now schedule queued) r =
    let (s, c) = backup_schedule_tick now schedule queued r.sched in
    record r { sched = s; jobs = queued_by c r.jobs; slots = dealt_with c r.slots }
happen (noted id) r = record r { sched = note_in_flight id r.sched }
happen cleaned_up r = record r { sched = done r.sched; jobs = r.jobs - 1; ending = suc r.ending }
happen ended r = record r { ending = r.ending - 1 }

-- a schedule is a list of daily times in order; only a job that there is cleans up, and only one that has
-- cleaned up is recorded as over
abbrev pub MayHappen : Event → Run → Type 0
MayHappen (checked_at now (some times) queued) r = Daily times
MayHappen (checked_at now none queued) r = Unit
MayHappen (noted id) r = Unit
MayHappen cleaned_up r = 0 < r.jobs
MayHappen ended r = 0 < r.ending

abbrev pub at_start : Run
at_start = record {
  sched = record { last = 0; pending = false; in_flight = "" };
  jobs = 0;
  ending = 0;
  slots = [];
}

pub data Reach : Run → Type 0 where
  begin : Reach at_start
  next : {r : Run} (e : Event) → Reach r → MayHappen e r → Reach (happen e r)

-- each time later than the one before it, and none later than the last check
abbrev pub Once : ℕ → List ℕ → Type 0
Once last [] = Unit
Once last (x ∷ xs) = (x ≤ last) × All (λ y. y < x) xs × Once last xs

pub record Inv (r : Run) : Type 0 where
  pub one_job : r.jobs ≡ (if r.sched.pending then 1 else 0)
  pub once : Once r.sched.last r.slots

Once-later : (last now : ℕ) (xs : List ℕ) → last ≤ now → Once last xs → Once now xs
Once-later last now [] h o = tt
Once-later last now (x ∷ xs) h o = (omega (arith, o.0), o.1, Once-later last now xs h o.2)

Once-before : (last x : ℕ) (xs : List ℕ) → last < x → Once last xs → All (λ y. y < x) xs
Once-before last x [] h o = tt
Once-before last x (y ∷ ys) h o = (omega (arith, o.0), Once-before last x ys h o.2)

checked_at-Inv :
    (now : ℕ) (schedule : Option (List ℕ)) (queued : Option String) (r : Run)
    → Inv r
    → MayHappen (checked_at now schedule queued) r
    → Inv (happen (checked_at now schedule queued) r)
unfolding happen backup_schedule_tick start_scheduled_backup done
checked_at-Inv now none queued r v h = record {
  one_job = ground (arith, v.one_job);
  once = ground (arith, v.once, Once-later r.sched.last now r.slots);
}
checked_at-Inv now (some times) queued r v h =
    let last = r.sched.last in
    elim (Bool-cases (last == 0 || leb now last)) [
      | inl early ↦ record {
        one_job = ground (arith, v.one_job);
        once = ground (arith, v.once, Once-later last now r.slots);
      }
      | inr later ↦ elim (Option-cases (due_between times last now)) [
        | inl none_due ↦ record {
          one_job = ground (arith, v.one_job);
          once = ground (arith, v.once, Once-later last now r.slots);
        }
        | inr (slot, due) ↦
            let exact = (due_between_exact times last now h (ground arith)).0 in
            let found = rw due at exact in
            let new : Once now (slot ∷ r.slots) = (
              ground (arith, found.1),
              Once-before last slot r.slots (ground (arith, found.1)) v.once,
              Once-later last now r.slots (ground arith) v.once,
            ) in
            record { one_job = ground (arith, v.one_job); once = ground (arith, new) }
      ]
    ]

act-Inv : (e : Event) (r : Run) → Inv r → MayHappen e r → Inv (happen e r)
act-Inv (checked_at now schedule queued) r v h = checked_at-Inv now schedule queued r v h
act-Inv (noted id) r v h =
    unfold happen note_in_flight in
    record { one_job = ground (arith, v.one_job); once = ground (arith, v.once) }
act-Inv cleaned_up r v h =
    unfold happen done in record { one_job = ground (arith, v.one_job); once = v.once }
act-Inv ended r v h = unfold happen in record { one_job = v.one_job; once = v.once }

Reach-Inv : {r : Run} → Reach r → Inv r
Reach-Inv begin = record { one_job = refl; once = tt }
Reach-Inv (next {r} e before h) = act-Inv e r (Reach-Inv before) h

-- In every run of the scheduler, whatever times its checks come at, whatever the schedule is changed to and
-- whatever ends when: at most one scheduled backup is queued or at work, and the flag is up exactly while
-- there is one; a job that has cleaned up, and is still to be recorded as over, does not count any more. And
-- no scheduled time is dealt with (started, skipped or refused) twice, each is later than the one before.
pub scheduled-Once :
    {r : Run}
    → Reach r
    → (r.jobs ≤ 1)
      × ((r.jobs ≡ 1 → r.sched.pending ≡ true) × (r.jobs ≡ 0 → r.sched.pending ≡ false))
      × Once r.sched.last r.slots
scheduled-Once {r} reach =
    let v = Reach-Inv reach in
    (
      ground (arith, v.one_job),
      (λ h. ground (arith, v.one_job), λ h. ground (arith, v.one_job)),
      v.once,
    )
