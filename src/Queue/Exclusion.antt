-- ===== src/Queue/Exclusion.antt =====
-- Who holds the host, in every interleaving of the callers (pkg/server/queue.go).
use native_ops.Base.{
  ℕ, ◌≤◌, ◌≡◌, ◌≢◌, refl, true, false, List, [], ◌∷◌, ◌++◌, arith, length, contains,
  contains-without, Distinct,
}
use native_ops.Queue.{
  HostQueue, send, try_ticket, enqueue, name, abandon, release, refuse_all, close,
}
use native_ops.Queue.Threads.{
  System, Action, try_ticket_now, join, shut_down, name_ticket, give_up, give_back, read, act,
  Reach,
}
use native_ops.Queue.Invariant.{Reach-Inv, refuse_all_rest}

-- Whatever steps the callers take and in whatever order, at most one ticket holds the host, at most
-- twenty wait, and no channel holds more than the one message its buffer has room for (so no send
-- made under the queue's lock ever blocks).
pub queue_safe :
    {s : System}
    → Reach s
    → (length s.holders ≤ 1)
      × (length s.queue.waiting ≤ 20)
      × ((p : ℕ) → length (s.queue.heap p).ch ≤ 1)
queue_safe r = let v = Reach-Inv r in (v.one_holder, v.waiting_bound, v.one_message)

-- In every reachable state in which a ticket waits, some ticket holds the host: the line never stands
-- still with the host free.
pub waiting_needs_holder : {s : System} → Reach s → s.queue.waiting ≢ [] → length s.holders ≡ 1
waiting_needs_holder r h =
    let v = Reach-Inv r in ground (arith, v.idle_line, v.closed_line, v.held, h)

-- Once the daemon is stopping, no step of any caller gives the host to a ticket that did not hold it,
-- and no step opens the queue again.
pub closed_grants_nobody :
    (a : Action) {s : System} (r : ℕ)
    → Reach s
    → s.queue.closed ≡ true
    → ((act a s).queue.closed ≡ true)
      × (contains r (act a s).holders ≡ true → contains r s.holders ≡ true)
unfolding act
closed_grants_nobody try_ticket_now {s} r _ c = unfold try_ticket in ground arith
closed_grants_nobody join {s} r _ c = unfold enqueue in ground arith
closed_grants_nobody shut_down {s} r _ c =
    unfold close in
    ground (arith, refuse_all_rest s.queue.waiting (record s.queue { closed = true }))
closed_grants_nobody (name_ticket p id) r _ c = unfold name in ground arith
closed_grants_nobody (give_up p) {s} r _ c =
    unfold abandon release in ground (arith, contains-without r p s.holders)
closed_grants_nobody (give_back p) {s} r _ c =
    unfold release in ground (arith, contains-without r p s.holders)
closed_grants_nobody (read p) r _ c = ground arith

refuse_all-other :
    (ps : List ℕ) (q : HostQueue) (p : ℕ)
    → contains p ps ≡ false
    → (refuse_all ps q).heap p ≡ q.heap p
unfolding refuse_all
refuse_all-other [] q p h = refl
refuse_all-other (r ∷ rest) q p h =
    let later = refuse_all-other rest (send r false q) p in unfold send in ground (arith, later)

refuse_all-told :
    (ps : List ℕ) (q : HostQueue) (p : ℕ)
    → Distinct ps
    → contains p ps ≡ true
    → ((refuse_all ps q).heap p).ch ≡ (q.heap p).ch ++ false ∷ []
unfolding refuse_all
refuse_all-told [] q p d h = ground arith
refuse_all-told (r ∷ rest) q p d h =
    ground
      (arith, refuse_all-told rest (send r false q) p, refuse_all-other rest (send r false q) p)

-- Stopping the daemon tells every ticket in line, and each exactly once, that it will not run; the
-- line is empty then, and who holds the host is unchanged.
pub close_tells_everyone :
    {s : System} (p : ℕ)
    → Reach s
    → contains p s.queue.waiting ≡ true
    → (((close s.queue).heap p).ch ≡ false ∷ [])
      × ((close s.queue).waiting ≡ [])
      × ((act shut_down s).holders ≡ s.holders)
unfolding act close
close_tells_everyone {s} p r h =
    let v = Reach-Inv r in
    (
      ground (
        arith,
        refuse_all-told s.queue.waiting (record s.queue { closed = true }) p,
        v.distinct,
        v.unsent p,
      ),
      refl,
      refl,
    )
