-- ===== src/Queue/Order.antt =====
-- The order of the line (`enqueue`, `release` and `position` of pkg/server/queue.go).
use native_ops.Base.{
  ℕ, zero, suc, ◌+◌, String, ◌≡◌, ◌≢◌, ◌⊎◌, ◌↔◌, ◌<◌, refl, true, false, none, List, [], ◌∷◌, ◌++◌,
  arith, length, All, str_eq, eq_iff, ok, err, ap, ◌∙◌, Bool-cases, inl, inr, leb,
}
use native_ops.Queue.{
  queue_full, queue_closed, Ticket, max_queued_jobs, try_ticket, enqueue, release, position_from,
  position,
}
use native_ops.Queue.Threads.{System, give_back, join, act, Reach}
use native_ops.Queue.Invariant.{Inv, Reach-Inv}

-- the job that holds the host ends, `n` times over
abbrev pub end_one : System → System
end_one s = elim s.holders [ [] ↦ s | p ∷ _ ↦ act (give_back p) s ]

abbrev pub end_jobs : ℕ → System → System
end_jobs zero s = s
end_jobs (suc n) s = end_jobs n (end_one s)

end_one-line :
    (s : System) (h p : ℕ) (ys : List ℕ)
    → s.queue.closed ≡ false
    → s.holders ≡ h ∷ []
    → s.queue.waiting ≡ p ∷ ys
    → ((end_one s).queue.closed ≡ false)
      × ((end_one s).holders ≡ p ∷ [])
      × ((end_one s).queue.waiting ≡ ys)
      × (((end_one s).queue.heap p).ch ≡ (s.queue.heap p).ch ++ true ∷ [])
      × ((r : ℕ) → ((end_one s).queue.heap r).id ≡ (s.queue.heap r).id)
unfolding act release
end_one-line s h p ys c e w =
    (ground arith, ground arith, ground arith, ground arith, λ r. ground arith)

end_jobs-line :
    (xs : List ℕ) (s : System) (h p : ℕ) (ys : List ℕ)
    → s.queue.closed ≡ false
    → s.holders ≡ h ∷ []
    → s.queue.waiting ≡ xs ++ p ∷ ys
    → ((end_jobs (suc (length xs)) s).holders ≡ p ∷ [])
      × ((end_jobs (suc (length xs)) s).queue.waiting ≡ ys)
      × (((end_jobs (suc (length xs)) s).queue.heap p).id ≡ (s.queue.heap p).id)
end_jobs-line [] s h p ys c e w =
    let (_, held, line, _, ids) = end_one-line s h p ys c e w in (held, line, ids p)
end_jobs-line (x ∷ xs) s h p ys c e w =
    let (open', held, line, _, ids) = end_one-line s h x (xs ++ p ∷ ys) c e w in
    let (last, rest, same) = end_jobs-line xs (end_one s) x p ys open' held line in
    (last, rest, same ∙ ids p)

-- Where a name stands in line, counted from `i`: 0 if nobody in line has it.
position_from-absent :
    (h : ℕ → Ticket) (id : String) (i : ℕ) (ps : List ℕ)
    → All (λ p. (h p).id ≢ id) ps
    → position_from h id i ps ≡ 0
unfolding position_from
position_from-absent h id i [] a = refl
position_from-absent h id i (p ∷ ps) a =
    ground (arith, eq_iff (h p).id id, a.0, position_from-absent h id (i + 1) ps a.1)

position_from-found :
    (h : ℕ → Ticket) (id : String) (i k : ℕ) (ps : List ℕ)
    → position_from h id i ps ≡ suc k
    → (xs : List ℕ) × (p : ℕ) × (ys : List ℕ) × (ps ≡ xs ++ p ∷ ys)
      × ((h p).id ≡ id)
      × (i + length xs ≡ k)
unfolding position_from
position_from-found h id i k [] e = absurd (omega arith)
position_from-found h id i k (p ∷ ps) e = elim (Bool-cases (str_eq (h p).id id)) [
  | inl here ↦ ([], p, ps, refl, (eq_iff (h p).id id).0 here, ground arith)
  | inr elsewhere ↦ later (position_from-found h id (i + 1) k ps (ground arith))
]
  where
    later :
        (xs : List ℕ) × (q : ℕ) × (ys : List ℕ) × (ps ≡ xs ++ q ∷ ys)
          × ((h q).id ≡ id)
          × (i + 1 + length xs ≡ k)
        → (xs : List ℕ) × (q : ℕ) × (ys : List ℕ) × (p ∷ ps ≡ xs ++ q ∷ ys)
          × ((h q).id ≡ id)
          × (i + length xs ≡ k)
    later (xs, q, ys, line, named, count) =
        (p ∷ xs, q, ys, ap (λ l. p ∷ l) line, named, omega arith)

one_of_length : (hs : List ℕ) → length hs ≡ 1 → (h : ℕ) × (hs ≡ h ∷ [])
one_of_length [] e = absurd (omega arith)
one_of_length (h ∷ []) e = (h, refl)
one_of_length (h ∷ g ∷ hs) e = absurd (omega arith)

-- In every reachable state of a daemon that is not stopping, a job at position k + 1 in line holds the
-- host, alone, as soon as k + 1 jobs have ended one after the other: the jobs before it in line had
-- their turn first, and no other job came between.
pub position-served :
    {s : System} (id : String) (k : ℕ)
    → Reach s
    → s.queue.closed ≡ false
    → position id s.queue ≡ suc k
    → (p : ℕ) × ((s.queue.heap p).id ≡ id) × ((end_jobs (suc k) s).holders ≡ p ∷ [])
unfolding position
position-served {s} id k r c e = served (position_from-found s.queue.heap id 0 k s.queue.waiting e)
  where
    v : Inv s
    v = Reach-Inv r

    served :
        (xs : List ℕ) × (p : ℕ) × (ys : List ℕ) × (s.queue.waiting ≡ xs ++ p ∷ ys)
          × ((s.queue.heap p).id ≡ id)
          × (0 + length xs ≡ k)
        → (p : ℕ) × ((s.queue.heap p).id ≡ id) × ((end_jobs (suc k) s).holders ≡ p ∷ [])
    served (xs, p, ys, line, named, count) =
        let busy : s.queue.busy ≡ true = ground (arith, v.idle_line, line) in
        let (h, held) = one_of_length s.holders (v.held c busy) in
        let k' : length xs ≡ k = omega arith in
        (p, named, rw (← k') (end_jobs-line xs s h p ys c held line).0)

-- In every reachable state, a change that cannot wait gets the host exactly when the daemon is not
-- stopping, no ticket holds the host and no ticket waits: it never jumps the line.
pub try_ticket-never_jumps :
    {s : System}
    → Reach s
    → ((try_ticket s.queue).1 ≢ none)
      ↔ ((s.queue.closed ≡ false) × (length s.holders ≡ 0) × (s.queue.waiting ≡ []))
unfolding try_ticket
try_ticket-never_jumps {s} r =
    let v = Reach-Inv r in
    (
      λ h. ground (arith, h, v.idle, v.held, v.closed_line),
      λ h. ground (arith, h, v.idle, v.held, v.closed_line),
    )

-- In every reachable state, asking for a place gives: an error when the daemon is stopping; the host,
-- with nothing before it, when no ticket holds it; else the last place in line, with those before it
-- unmoved; and the error that the line is full exactly when twenty wait.
pub enqueue_cases :
    {s : System}
    → Reach s
    → ((s.queue.closed ≡ true) × ((enqueue s.queue).1 ≡ err queue_closed))
      ⊎ ((s.queue.closed ≡ false)
          × (length s.holders ≡ 0)
          × ((enqueue s.queue).1 ≡ ok s.queue.next)
          × ((act join s).holders ≡ s.queue.next ∷ []))
      ⊎ ((s.queue.closed ≡ false)
          × (length s.holders ≡ 1)
          × (length s.queue.waiting ≡ 20)
          × ((enqueue s.queue).1 ≡ err queue_full)
          × ((act join s).queue.waiting ≡ s.queue.waiting))
      ⊎ ((s.queue.closed ≡ false)
          × (length s.holders ≡ 1)
          × (length s.queue.waiting < 20)
          × ((enqueue s.queue).1 ≡ ok s.queue.next)
          × ((act join s).queue.waiting ≡ s.queue.waiting ++ s.queue.next ∷ [])
          × ((act join s).holders ≡ s.holders))
unfolding act enqueue
enqueue_cases {s} r =
    let v = Reach-Inv r in
    elim (Bool-cases s.queue.closed) [
      | inl c ↦ inl (c, ground arith)
      | inr c ↦ elim (Bool-cases s.queue.busy) [
        | inr free ↦ inr (inl (c, v.idle c free, ground arith, ground arith))
        | inl taken ↦ elim (Bool-cases (leb max_queued_jobs (length s.queue.waiting))) [
          | inl full ↦ inr (inr (inl (c, v.held c taken, ground arith, ground arith, ground arith)))
          | inr room ↦ inr (
              inr (inr (c, v.held c taken, ground arith, ground arith, ground arith, ground arith)))
        ]
      ]
    ]
