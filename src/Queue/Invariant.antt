-- ===== src/Queue/Invariant.antt =====
-- What holds of the host queue and its callers between two steps.
use native_ops.Base.{
  ℕ, ◌≤◌, ◌<◌, String, ◌≡◌, refl, true, false, List, [], ◌∷◌, arith, length, length-append,
  contains, contains-append, contains-without, length-without, length-without-le, Distinct,
  Distinct-append, Distinct-without,
}
use native_ops.Queue.{
  HostQueue, max_queued_jobs, send, try_ticket, enqueue, name, abandon, release, refuse_all, close,
}
use native_ops.Queue.Threads.{
  System, initial, Action, try_ticket_now, join, shut_down, name_ticket, give_up, give_back, read,
  act, Allowed, Reach, start, step,
}

pub record Inv (s : System) : Type 0 where
  pub waiting_bound : length s.queue.waiting ≤ max_queued_jobs
  pub idle_line : s.queue.busy ≡ false → s.queue.waiting ≡ []
  pub closed_line : s.queue.closed ≡ true → s.queue.waiting ≡ []
  pub one_holder : length s.holders ≤ 1
  pub idle : s.queue.closed ≡ false → s.queue.busy ≡ false → length s.holders ≡ 0
  pub held : s.queue.closed ≡ false → s.queue.busy ≡ true → length s.holders ≡ 1
  pub distinct : Distinct s.queue.waiting
  pub unsent : (p : ℕ) → contains p s.queue.waiting ≡ true → (s.queue.heap p).ch ≡ []
  pub allocated : (p : ℕ) → contains p s.queue.waiting ≡ true → p < s.queue.next
  pub one_message : (p : ℕ) → length (s.queue.heap p).ch ≤ 1

initial-Inv : Inv initial
initial-Inv = record {
  waiting_bound = omega arith;
  idle_line = λ _. refl;
  closed_line = λ _. refl;
  one_holder = omega arith;
  idle = λ _ _. refl;
  held = λ _ e. ground arith;
  distinct = tt;
  unsent = λ p h. ground arith;
  allocated = λ p h. ground arith;
  one_message = λ p. omega arith;
}

try-Inv : (s : System) → Inv s → Inv (act try_ticket_now s)
unfolding act try_ticket
try-Inv s v = record {
  waiting_bound = ground arith;
  idle_line = ground arith;
  closed_line = ground arith;
  one_holder = ground arith;
  idle = ground arith;
  held = ground arith;
  distinct = ground arith;
  unsent = λ p h. ground (arith, v.unsent p, v.allocated p);
  allocated = λ p h. ground (arith, v.allocated p);
  one_message = λ p. ground (arith, v.one_message p);
}

join-Inv : (s : System) → Inv s → Inv (act join s)
unfolding act enqueue
join-Inv s v = record {
  waiting_bound = ground (arith, length-append s.queue.waiting (s.queue.next ∷ []));
  idle_line = ground arith;
  closed_line = ground arith;
  one_holder = ground arith;
  idle = ground arith;
  held = ground arith;
  distinct = ground (arith, Distinct-append s.queue.next s.queue.waiting, v.allocated s.queue.next);
  unsent = λ p h.
      ground
        (arith, v.unsent p, v.allocated p, contains-append p s.queue.waiting (s.queue.next ∷ []));
  allocated =
      λ p h. ground (arith, v.allocated p, contains-append p s.queue.waiting (s.queue.next ∷ []));
  one_message = λ p. ground (arith, v.one_message p);
}

-- closing sends to each ticket in line once, so no buffer is overfull
one_message-refuse_all :
    (ps : List ℕ) (q : HostQueue) (p : ℕ)
    → Distinct ps
    → (contains p ps ≡ true → (q.heap p).ch ≡ [])
    → length (q.heap p).ch ≤ 1
    → length ((refuse_all ps q).heap p).ch ≤ 1
unfolding refuse_all
one_message-refuse_all [] q p d u h = h
one_message-refuse_all (r ∷ rest) q p d u h =
    one_message-refuse_all rest (send r false q) p d.1 (unfold send in λ e. ground arith)
      (unfold send in ground arith)

pub refuse_all_rest :
    (ps : List ℕ) (q : HostQueue)
    → ((refuse_all ps q).busy ≡ q.busy)
      × ((refuse_all ps q).closed ≡ q.closed)
      × ((refuse_all ps q).next ≡ q.next)
unfolding refuse_all
refuse_all_rest [] q = (refl, refl, refl)
refuse_all_rest (p ∷ rest) q = refuse_all_rest rest (send p false q)

close-Inv : (s : System) → Inv s → Inv (act shut_down s)
unfolding act close
close-Inv s v =
    let q : HostQueue = record s.queue { closed = true } in
    let same = refuse_all_rest s.queue.waiting q in
    record {
      waiting_bound = omega arith;
      idle_line = λ _. refl;
      closed_line = λ _. refl;
      one_holder = v.one_holder;
      idle = ground (arith, same);
      held = ground (arith, same);
      distinct = tt;
      unsent = λ p h. ground arith;
      allocated = λ p h. ground arith;
      one_message =
          λ p. one_message-refuse_all s.queue.waiting q p v.distinct (v.unsent p) (v.one_message p);
    }

name-Inv : (s : System) (p : ℕ) (id : String) → Inv s → Inv (act (name_ticket p id) s)
unfolding act name
name-Inv s p id v = record {
  waiting_bound = v.waiting_bound;
  idle_line = v.idle_line;
  closed_line = v.closed_line;
  one_holder = v.one_holder;
  idle = v.idle;
  held = v.held;
  distinct = v.distinct;
  unsent = λ r h. ground (arith, v.unsent r);
  allocated = λ r h. v.allocated r h;
  one_message = λ r. ground (arith, v.one_message r);
}

read-Inv : (s : System) (p : ℕ) → Inv s → Inv (act (read p) s)
unfolding act
read-Inv s p v = record {
  waiting_bound = v.waiting_bound;
  idle_line = v.idle_line;
  closed_line = v.closed_line;
  one_holder = v.one_holder;
  idle = v.idle;
  held = v.held;
  distinct = v.distinct;
  unsent = λ r h. ground (arith, v.unsent r);
  allocated = λ r h. v.allocated r h;
  one_message = λ r. ground (arith, v.one_message r);
}

release-Inv : (s : System) (p : ℕ) → Inv s → contains p s.holders ≡ true → Inv (act (give_back p) s)
unfolding act release
release-Inv s p v h = record {
  waiting_bound = ground arith;
  idle_line = ground arith;
  closed_line = ground arith;
  one_holder = ground (arith, length-without p s.holders);
  idle = ground (arith, length-without p s.holders);
  held = ground (arith, length-without p s.holders);
  distinct = ground arith;
  unsent = λ r m. ground (arith, v.unsent r);
  allocated = λ r m. ground (arith, v.allocated r);
  one_message = λ r. ground (arith, v.one_message r, v.unsent r);
}

give_up-Inv : (s : System) (p : ℕ) → Inv s → Allowed (give_up p) s → Inv (act (give_up p) s)
unfolding act release abandon
give_up-Inv s p v h = record {
  waiting_bound = ground (arith, length-without-le p s.queue.waiting);
  idle_line = ground arith;
  closed_line = ground arith;
  one_holder = ground (arith, length-without p s.holders);
  idle = ground (arith, length-without p s.holders);
  held = ground (arith, length-without p s.holders);
  distinct = ground (arith, Distinct-without p s.queue.waiting);
  unsent = λ r m. ground (arith, v.unsent r, contains-without r p s.queue.waiting);
  allocated = λ r m. ground (arith, v.allocated r, contains-without r p s.queue.waiting);
  one_message = λ r. ground (arith, v.one_message r, v.unsent r);
}

act-Inv : (a : Action) (s : System) → Inv s → Allowed a s → Inv (act a s)
act-Inv try_ticket_now s v h = try-Inv s v
act-Inv join s v h = join-Inv s v
act-Inv shut_down s v h = close-Inv s v
act-Inv (name_ticket p id) s v h = name-Inv s p id v
act-Inv (give_up p) s v h = give_up-Inv s p v h
act-Inv (give_back p) s v h = release-Inv s p v h
act-Inv (read p) s v h = read-Inv s p v

pub Reach-Inv : {s : System} → Reach s → Inv s
Reach-Inv start = initial-Inv
Reach-Inv (step {s} a r h) = act-Inv a s (Reach-Inv r) h
