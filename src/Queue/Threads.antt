-- ===== src/Queue/Threads.antt =====
-- The callers of the host queue (pkg/server/apply.go: handleApply, queueJob, launch), as the steps that
-- they take on it in any order. `holders` are the tickets that were given the host and have not given
-- it back.
use native_ops.Base.{
  ℕ, String, ◌≡◌, ◌⊎◌, Bool, true, false, Option, none, some, List, [], ◌∷◌, if◌then◌else◌,
  contains, without, Result, ok, err,
}
use native_ops.Queue.{
  QueueError, HostQueue, update, try_ticket, enqueue, name, abandon, release, close,
}

pub record System : Type 0 where
  pub queue : HostQueue
  pub holders : List ℕ

abbrev pub initial : System
initial = record {
  queue = record {
    busy = false;
    closed = false;
    waiting = [];
    heap = λ _. record { id = ""; granted = false; ch = [] };
    next = 0;
  };
  holders = [];
}

pub data Action : Type 0 where
  try_ticket_now join shut_down : Action
  name_ticket : ℕ → String → Action
  give_up give_back read : ℕ → Action

-- a ticket that comes back granted holds the host
abbrev pub took : Option ℕ → List ℕ → List ℕ
took none hs = hs
took (some p) hs = p ∷ hs

abbrev pub joined : HostQueue → Result QueueError ℕ → List ℕ → List ℕ
joined q (err e) hs = hs
joined q (ok p) hs = if (q.heap p).granted then p ∷ hs else hs

-- who gets the host when it is released
abbrev pub heir : List ℕ → List ℕ → List ℕ
heir [] hs = hs
heir (p ∷ rest) hs = p ∷ hs

abbrev pub handed : HostQueue → List ℕ → List ℕ
handed q hs = if q.closed then hs else heir q.waiting hs

-- the goroutine of a job receives from its ticket's channel
abbrev pub tail : List Bool → List Bool
tail [] = []
tail (b ∷ bs) = bs

abbrev pub receive : ℕ → HostQueue → HostQueue
receive p q = let t = q.heap p in record q { heap = update q.heap p (record t { ch = tail t.ch }) }

unfoldable pub act : Action → System → System
act try_ticket_now s =
    let (q, t) = try_ticket s.queue in record { queue = q; holders = took t s.holders }
act join s = let (q, t) = enqueue s.queue in record { queue = q; holders = joined q t s.holders }
act shut_down s = record s { queue = close s.queue }
act (name_ticket p id) s = record s { queue = name p id s.queue }
act (give_up p) s = record {
  queue = abandon p s.queue;
  holders =
      if contains p s.queue.waiting
      then s.holders
      else if contains p s.holders
      then handed s.queue (without p s.holders)
      else s.holders;
}
act (give_back p) s = record {
  queue = release s.queue;
  holders = handed s.queue (without p s.holders);
}
act (read p) s = record s { queue = receive p s.queue }

-- Only a job that holds the host releases it. A ticket is given up by a job that waits, that holds the
-- host, or that was told that the daemon stops.
abbrev pub Allowed : Action → System → Type 0
Allowed (give_back p) s = contains p s.holders ≡ true
Allowed (give_up p) s =
    (contains p s.queue.waiting ≡ true) ⊎ ((contains p s.holders ≡ true) ⊎ (s.queue.closed ≡ true))
Allowed _ s = Unit

pub data Reach : System → Type 0 where
  start : Reach initial
  step : {s : System} (a : Action) → Reach s → Allowed a s → Reach (act a s)
