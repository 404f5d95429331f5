-- ===== src/Queue/Tests.antt =====
-- Runs of the host queue, and the theorems at concrete inputs.
use native_ops.Base.{ℕ, ◌≡◌, ◌≤◌, refl, true, false, [], ◌∷◌, length, contains}
use native_ops.Queue.{enqueue, name, close, refuse_all, position}
use native_ops.Queue.Threads.{
  System, initial, join, shut_down, name_ticket, give_back, act, Reach, start, step,
}
use native_ops.Queue.Exclusion.{queue_safe, waiting_needs_holder}
use native_ops.Queue.Order.{end_jobs, position-served}
use native_ops.Queue.Refinement.{host_of, host_act, told, host_answer, act-host_act}

-- one job runs and two wait, the second of them named
abbrev line : System
line = act (name_ticket 2 "j-2") (act join (act join (act join initial)))

line-Reach : Reach line
line-Reach = step (name_ticket 2 "j-2") (step join (step join (step join start tt) tt) tt) tt

line_waiting : line.queue.waiting ≡ 1 ∷ 2 ∷ []
unfolding act enqueue name
line_waiting = refl

line_position : position "j-2" line.queue ≡ 2
unfolding act enqueue name position
line_position = refl

line_open : line.queue.closed ≡ false
unfolding act enqueue name
line_open = refl

waits_1 : contains 1 line.queue.waiting ≡ true
unfolding act enqueue name
waits_1 = refl

queue_safe_example :
    (length line.holders ≤ 1)
    × (length line.queue.waiting ≤ 20)
    × ((p : ℕ) → length (line.queue.heap p).ch ≤ 1)
queue_safe_example = queue_safe line-Reach

waiting_needs_holder_example : length line.holders ≡ 1
waiting_needs_holder_example = waiting_needs_holder line-Reach (unfold act enqueue name in λ e. cc)

abbrev stopping : System
stopping = act shut_down line

stopping-Reach : Reach stopping
stopping-Reach = step shut_down line-Reach tt

stopping_closed : stopping.queue.closed ≡ true
unfolding act enqueue name close refuse_all
stopping_closed = refl

position-served_example :
    (p : ℕ) × ((line.queue.heap p).id ≡ "j-2") × ((end_jobs 2 line).holders ≡ p ∷ [])
position-served_example = position-served "j-2" 1 line-Reach line_open line_position

act-host_act_example :
    (host_of (act (give_back 0) line) ≡ host_act (give_back 0) (host_of line))
    × (told (give_back 0) line ≡ host_answer (give_back 0) (host_of line))
act-host_act_example = act-host_act (give_back 0) line-Reach (unfold act enqueue name in refl)
