-- ===== src/Queue.antt =====
-- The host queue (pkg/server/queue.go): one change at a time holds the host, the others wait in line.
-- A `*ticket` is an address in the queue's heap. A ticket's channel is the list of the messages in its
-- buffer, the oldest first; the buffer has room for one.
pub mod Threads
pub mod Invariant
pub mod Exclusion
pub mod Order
pub mod Refinement
mod Tests
use native_ops.Base.{
  ℕ, suc, ◌+◌, String, Bool, true, false, ◌||◌, Option, none, some, List, [], ◌∷◌, ◌++◌, ltb, leb,
  ◌==◌, str_eq, if◌then◌else◌, length, contains, without, Result, ok, err,
}

abbrev pub max_queued_jobs : ℕ
max_queued_jobs = 20

pub data QueueError : Type 0 where
  queue_full queue_closed : QueueError

pub record Ticket : Type 0 where
  pub id : String
  pub granted : Bool
  pub ch : List Bool

pub record HostQueue : Type 0 where
  pub busy : Bool
  pub closed : Bool
  pub waiting : List ℕ
  pub heap : ℕ → Ticket
  pub next : ℕ

abbrev pub update : (ℕ → Ticket) → ℕ → Ticket → ℕ → Ticket
update h p t i = if i == p then t else h i

-- `t.ch <- b`
unfoldable pub send : ℕ → Bool → HostQueue → HostQueue
send p b q =
    let t = q.heap p in record q { heap = update q.heap p (record t { ch = t.ch ++ b ∷ [] }) }

-- `&ticket{granted: g, ch: make(chan bool, 1)}`, at the next free address
unfoldable pub issue : Bool → HostQueue → HostQueue
issue g q = record q {
  heap = update q.heap q.next (record { id = ""; granted = g; ch = [] });
  next = suc q.next;
}

unfoldable pub grant : HostQueue → HostQueue
unfolding send issue
grant q = send q.next true (issue true (record q { busy = true }))

unfoldable pub try_ticket : HostQueue → HostQueue × Option ℕ
unfolding grant
try_ticket q =
    if q.closed || (q.busy || ltb 0 (length q.waiting)) then (q, none) else (grant q, some q.next)

unfoldable pub enqueue : HostQueue → HostQueue × Result QueueError ℕ
unfolding grant issue
enqueue q =
    if q.closed
    then (q, err queue_closed)
    else if q.busy
    then (if leb max_queued_jobs (length q.waiting)
        then (q, err queue_full)
        else (record (issue false q) { waiting = q.waiting ++ q.next ∷ [] }, ok q.next))
    else (grant q, ok q.next)

unfoldable pub name : ℕ → String → HostQueue → HostQueue
name p id q = let t = q.heap p in record q { heap = update q.heap p (record t { id = id }) }

-- the host goes to the head of the line, or is free
unfoldable pub hand_on : List ℕ → HostQueue → HostQueue
unfolding send
hand_on [] q = record q { busy = false }
hand_on (p ∷ rest) q = send p true (record q { waiting = rest })

unfoldable pub release : HostQueue → HostQueue
unfolding hand_on
release q = if q.closed then record q { busy = false } else hand_on q.waiting q

unfoldable pub abandon : ℕ → HostQueue → HostQueue
unfolding release
abandon p q = if contains p q.waiting then record q { waiting = without p q.waiting } else release q

-- the loop of `close`
unfoldable pub refuse_all : List ℕ → HostQueue → HostQueue
unfolding send
refuse_all [] q = q
refuse_all (p ∷ rest) q = refuse_all rest (send p false q)

unfoldable pub close : HostQueue → HostQueue
close q = record (refuse_all q.waiting (record q { closed = true })) { waiting = [] }

-- the loop of `position`: the index, from 1, of the first ticket with this id
position_from : (ℕ → Ticket) → String → ℕ → List ℕ → ℕ
position_from h id i [] = 0
position_from h id i (p ∷ rest) =
    if str_eq (h p).id id then i + 1 else position_from h id (i + 1) rest

unfoldable pub position : String → HostQueue → ℕ
unfolding position_from
position id q = position_from q.heap id 0 q.waiting

unfoldable pub waiting_count : HostQueue → ℕ
waiting_count q = length q.waiting
