-- ===== src/ThreadPool/Invariant.antt =====
-- What every step of the pool of src/core/bounded_thread_pool.hpp keeps.
use water_structure_cpp.Common.{
  ℕ, ◌+◌, ◌≤◌, ◌<◌, ◌≡◌, refl, ap, true, false, List, [], ◌∷◌, ◌++◌, length, length-append,
  append_assoc, arith,
}
use water_structure_cpp.ThreadPool.{
  Pool, Task, make_pool, submit_section, notify_ready, worker_section_on, worker_section,
  notify_space, shut_down, notify_everyone, finish_task, Move, Step, submits, signals_ready, works,
  signals_space, finishes, signals_everyone, moves, arrives, shuts_down, worker_wakes,
  submitter_wakes, Reach, here, next,
}

-- Threads are neither lost nor made up, the queue keeps its bound and the order of the tasks, and
-- each sleeper has somebody who will wake it when there is something for it to do.
pub record Inv (p : Pool) : Type 0 where
  pub staffed : p.awake + p.asleep + p.signalling + p.running + p.exited ≡ p.workers
  pub manned : 0 < p.workers
  pub roomy : 0 < p.capacity
  pub bounded : length p.tasks ≤ p.capacity
  pub fifo : p.started ++ p.tasks ≡ p.submitted
  pub workers_called : 0 < p.asleep → length p.tasks ≤ p.ready_signals + p.awake
  pub submitters_called :
      0 < p.waiting → p.accepting ≡ true → p.capacity ≤ length p.tasks + p.signalling + p.callers
  pub sleepers_closing : p.accepting ≡ false → 0 < p.asleep + p.waiting → p.closing ≡ true
  pub drained : 0 < p.exited → (p.accepting ≡ false) × (length p.tasks ≡ 0)

make_pool-Inv : (worker_count queue_capacity : ℕ) → Inv (make_pool worker_count queue_capacity)
unfolding make_pool
make_pool-Inv w c = ground arith

submit_section-Inv : (p : Pool) (task : Task) → 0 < p.callers → Inv p → Inv (submit_section p task)
unfolding submit_section
submit_section-Inv p task h v =
    ground (arith, length-append p.tasks (task ∷ []), append_assoc p.started p.tasks (task ∷ []))

notify_ready-Inv : (p : Pool) → 0 < p.ready_signals → Inv p → Inv (notify_ready p)
unfolding notify_ready
notify_ready-Inv p h v = ground arith

worker_section_on-Inv :
    (p : Pool) (queue : List Task)
    → p.tasks ≡ queue
    → 0 < p.awake
    → Inv p
    → Inv (worker_section_on queue p)
unfolding worker_section_on
worker_section_on-Inv p [] e h v = ground (arith, ap length e)
worker_section_on-Inv p (t ∷ rest) e h v =
    ground (arith, ap length e, append_assoc p.started (t ∷ []) rest)

notify_space-Inv : (p : Pool) → 0 < p.signalling → Inv p → Inv (notify_space p)
unfolding notify_space
notify_space-Inv p h v = ground arith

shut_down-Inv : (p : Pool) → Inv p → Inv (shut_down p)
unfolding shut_down
shut_down-Inv p v = ground arith

notify_everyone-Inv : (p : Pool) → Inv p → Inv (notify_everyone p)
unfolding notify_everyone
notify_everyone-Inv p v = ground arith

finish_task-Inv : (p : Pool) → 0 < p.running → Inv p → Inv (finish_task p)
unfolding finish_task
finish_task-Inv p h v = ground arith

pub Move-Inv : (p q : Pool) → Move p q → Inv p → Inv q
Move-Inv p q (submits task h e) v = rw e (submit_section-Inv p task h v)
Move-Inv p q (signals_ready h e) v = rw e (notify_ready-Inv p h v)
Move-Inv p q (works h e) v =
    rw e (unfold worker_section in worker_section_on-Inv p p.tasks refl h v)
Move-Inv p q (signals_space h e) v = rw e (notify_space-Inv p h v)
Move-Inv p q (finishes h e) v = rw e (finish_task-Inv p h v)
Move-Inv p q (signals_everyone h e) v = rw e (notify_everyone-Inv p v)

Step-Inv : (p q : Pool) → Step p q → Inv p → Inv q
Step-Inv p q (moves m) v = Move-Inv p q m v
Step-Inv p q (arrives e) v = rw e (ground arith)
Step-Inv p q (shuts_down e) v = rw e (shut_down-Inv p v)
Step-Inv p q (worker_wakes h e) v = rw e (ground arith)
Step-Inv p q (submitter_wakes h e) v = rw e (ground arith)

Reach-Inv : (p q : Pool) → Inv p → Reach p q → Inv q
Reach-Inv p q v here = v
Reach-Inv p q v (next {q = r} reach step) = Step-Inv r q step (Reach-Inv p r v reach)

-- After any interleaving of any number of submitters, workers and the destructor, the pool satisfies
-- the invariant: threads are conserved, the queue holds at most `capacity` tasks and they left it in
-- the order in which they entered it, none lost and none twice.
pub reachable_pool-Inv :
    (worker_count queue_capacity : ℕ) (p : Pool)
    → Reach (make_pool worker_count queue_capacity) p
    → Inv p
reachable_pool-Inv w c p r = Reach-Inv (make_pool w c) p (make_pool-Inv w c) r
