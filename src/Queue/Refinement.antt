-- ===== src/Queue/Refinement.antt =====
-- The host queue as its callers see it, without flags, addresses of tickets in a heap or channels: who
-- holds the host, who waits in which order, and whether the daemon still takes work (pkg/server/queue.go).
use native_ops.Base.{
  ℕ, suc, ◌≡◌, refl, arith, Bool, true, false, not, ◌||◌, ◌&&◌, Option, none, some, List, [], ◌∷◌,
  ◌++◌, ltb, if◌then◌else◌, length, contains, without, Result, ok, err,
}
use native_ops.Queue.{
  QueueError, queue_full, queue_closed, try_ticket, enqueue, abandon, release, close, name,
}
use native_ops.Queue.Threads.{
  System, Action, try_ticket_now, join, shut_down, name_ticket, give_up, give_back, read, heir, act,
  Allowed, Reach,
}
use native_ops.Queue.Invariant.{Reach-Inv, refuse_all_rest}

-- `issued` counts the tickets given out: the next one has this number
pub record Host : Type 0 where
  pub running : Bool
  pub holding : List ℕ
  pub line : List ℕ
  pub issued : ℕ

abbrev pub host_of : System → Host
host_of s = record {
  running = not s.queue.closed;
  holding = s.holders;
  line = s.queue.waiting;
  issued = s.queue.next;
}

abbrev nobody : List ℕ → Bool
nobody [] = true
nobody (x ∷ xs) = false

-- the host is taken by a new ticket
abbrev takes : Host → Host
takes h = record h { holding = h.issued ∷ h.holding; issued = suc h.issued }

-- the host goes to the head of the line
abbrev passes_on : ℕ → Host → Host
passes_on p h =
    if h.running
    then record h { holding = heir h.line (without p h.holding); line = rest h.line }
    else record h { holding = without p h.holding }
  where
    rest : List ℕ → List ℕ
    rest [] = []
    rest (x ∷ xs) = xs

unfoldable pub host_act : Action → Host → Host
host_act try_ticket_now h = if h.running && (nobody h.holding && nobody h.line) then takes h else h
host_act join h =
    if not h.running
    then h
    else if nobody h.holding
    then takes h
    else if ltb (length h.line) 20
    then record h { line = h.line ++ h.issued ∷ []; issued = suc h.issued }
    else h
host_act shut_down h = record h { running = false; line = [] }
host_act (name_ticket p id) h = h
host_act (read p) h = h
host_act (give_back p) h = passes_on p h
host_act (give_up p) h =
    if contains p h.line
    then record h { line = without p h.line }
    else if contains p h.holding
    then passes_on p h
    else h

-- what the caller is told: a ticket, none, or an error
abbrev pub told : Action → System → Result QueueError (Option ℕ)
told try_ticket_now s = ok (try_ticket s.queue).1
told join s = elim (enqueue s.queue).1 [ err e ↦ err e | ok p ↦ ok (some p) ]
told _ s = ok none

abbrev pub host_answer : Action → Host → Result QueueError (Option ℕ)
host_answer try_ticket_now h =
    ok (if h.running && (nobody h.holding && nobody h.line) then some h.issued else none)
host_answer join h =
    if not h.running
    then err queue_closed
    else if nobody h.holding || ltb (length h.line) 20
    then ok (some h.issued)
    else err queue_full
host_answer _ h = ok none

-- Every call on the queue, in every reachable state in which it is allowed, does what the plain
-- description of a host with a line of at most twenty does, and gives the caller the same told.
pub act-host_act :
    (a : Action) {s : System}
    → Reach s
    → Allowed a s
    → (host_of (act a s) ≡ host_act a (host_of s)) × (told a s ≡ host_answer a (host_of s))
unfolding act host_act
act-host_act try_ticket_now {s} r h =
    let v = Reach-Inv r in
    unfold try_ticket in (ground (arith, v.idle, v.held), ground (arith, v.idle, v.held))
act-host_act join {s} r h =
    let v = Reach-Inv r in
    unfold enqueue in (ground (arith, v.idle, v.held), ground (arith, v.idle, v.held))
act-host_act shut_down {s} r h = (
  unfold close in
      ground (arith, refuse_all_rest s.queue.waiting (record s.queue { closed = true })),
  refl,
)
act-host_act (name_ticket p id) r h = (unfold name in refl, refl)
act-host_act (read p) r h = (refl, refl)
act-host_act (give_back p) {s} r h = let v = Reach-Inv r in (unfold release in ground arith, refl)
act-host_act (give_up p) {s} r h =
    let v = Reach-Inv r in (unfold abandon release in ground arith, refl)
