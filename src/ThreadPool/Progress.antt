-- ===== src/ThreadPool/Progress.antt =====
-- The pool of src/core/bounded_thread_pool.hpp does not get stuck, and its destructor waits for
-- every task that was accepted.
use water_structure_cpp.Common.{
  ℕ, ◌+◌, ◌*◌, ◌<◌, ◌≡◌, refl, sym, ap, ◌∙◌, ◌⊎◌, inl, inr, true, false, List, [], ◌∷◌, ◌++◌,
  length, length-eq-zero, append-nil, arith, if◌then◌else◌, dec_lt,
}
use water_structure_cpp.ThreadPool.{
  Pool, Task, Reach, make_pool, Move, submits, signals_ready, works, signals_space, finishes,
  signals_everyone, worker_section, worker_section_on, notify_ready, notify_space, notify_everyone,
  submit_section, finish_task,
}
use water_structure_cpp.ThreadPool.Invariant.{Inv, reachable_pool-Inv}

-- There is something left to do: a queued task, a submitter that waits, or, once the pool shuts
-- down, a worker that has not returned.
abbrev pub HasWork : Pool → Type 0
HasWork p = 0 < length p.tasks + p.waiting ⊎ ((p.accepting ≡ false) × (p.exited < p.workers))

can_move :
    (p : Pool)
    → Inv p
    → HasWork p
    → (p.closing ≡ true) ⊎ (0 < p.awake + p.ready_signals + p.signalling + p.running + p.callers)
can_move p v w = ground arith

mover :
    (p : Pool)
    → 0 < p.awake + p.ready_signals + p.signalling + p.running + p.callers
    → (q : Pool) × Move p q
mover p h = elim (dec_lt 0 p.awake) [
  | yes a ↦ (worker_section p, works a refl)
  | no a ↦ elim (dec_lt 0 p.ready_signals) [
    | yes r ↦ (notify_ready p, signals_ready r refl)
    | no r ↦ elim (dec_lt 0 p.signalling) [
      | yes s ↦ (notify_space p, signals_space s refl)
      | no s ↦ elim (dec_lt 0 p.running) [
        | yes b ↦ (finish_task p, finishes b refl)
        | no b ↦ (submit_section p 0, submits 0 (omega arith) refl)
      ]
    ]
  ]
]

-- No wake-up is lost: in every reachable state with something left to do, some thread of the pool
-- can move by itself, with no newcomer and no spurious wake-up.
pub reachable_progress :
    (worker_count queue_capacity : ℕ) (p : Pool)
    → Reach (make_pool worker_count queue_capacity) p
    → HasWork p
    → (q : Pool) × Move p q
reachable_progress w c p r work = elim (can_move p (reachable_pool-Inv w c p r) work) [
  | inl e ↦ (notify_everyone p, signals_everyone e refl)
  | inr h ↦ mover p h
]

Inv-drained :
    (p : Pool)
    → Inv p
    → p.exited ≡ p.workers
    → (p.accepting ≡ false) × (p.running ≡ 0) × (p.tasks ≡ []) × (p.started ≡ p.submitted)
Inv-drained p v e =
    let (closed, empty) = v.drained (omega arith) in
    let none_left : p.tasks ≡ [] = length-eq-zero p.tasks empty in
    (
      closed,
      omega arith,
      none_left,
      sym (append-nil p.started) ∙ ap (λ l. p.started ++ l) (sym none_left) ∙ v.fifo,
    )

-- When every worker has returned, as the destructor's joins wait for, the pool no longer accepts
-- tasks, no task runs any more, and the tasks that were taken are the ones that were accepted, in
-- order: none is left behind.
pub joined_drained :
    (worker_count queue_capacity : ℕ) (p : Pool)
    → Reach (make_pool worker_count queue_capacity) p
    → p.exited ≡ p.workers
    → (p.accepting ≡ false) × (p.running ≡ 0) × (p.tasks ≡ []) × (p.started ≡ p.submitted)
joined_drained w c p r e = Inv-drained p (reachable_pool-Inv w c p r) e

-- What a pool that shuts down has left to do.
unfoldable pub remaining : Pool → ℕ
remaining p =
    p.awake
    + 2 * p.asleep
    + 3 * p.signalling
    + 2 * p.running
    + 3 * length p.tasks
    + p.callers
    + 2 * p.waiting
    + p.ready_signals
    + (if p.closing then 1 else 0)

worker_section_remaining :
    (p : Pool) (queue : List Task)
    → p.tasks ≡ queue
    → p.accepting ≡ false
    → 0 < p.awake
    → (remaining (worker_section_on queue p) < remaining p)
      × ((worker_section_on queue p).accepting ≡ false)
unfolding remaining worker_section_on
worker_section_remaining p [] e a h = ground (arith, ap length e)
worker_section_remaining p (t ∷ rest) e a h = ground (arith, ap length e)

-- Once the pool shuts down every move leaves less to do, so `remaining p` moves at most are left
-- before all workers have returned; and it accepts nothing any more.
pub shut_down_shrinks :
    (p q : Pool)
    → p.accepting ≡ false
    → Move p q
    → (remaining q < remaining p) × (q.accepting ≡ false)
shut_down_shrinks p q a (submits task h e) = rw e (unfold remaining submit_section in ground arith)
shut_down_shrinks p q a (signals_ready h e) = rw e (unfold remaining notify_ready in ground arith)
shut_down_shrinks p q a (works h e) =
    rw e (unfold worker_section in worker_section_remaining p p.tasks refl a h)
shut_down_shrinks p q a (signals_space h e) = rw e (unfold remaining notify_space in ground arith)
shut_down_shrinks p q a (finishes h e) = rw e (unfold remaining finish_task in ground arith)
shut_down_shrinks p q a (signals_everyone h e) =
    rw e (unfold remaining notify_everyone in ground arith)
