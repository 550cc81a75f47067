-- ===== src/ThreadPool/Runs.antt =====
-- A run of the pool of src/core/bounded_thread_pool.hpp: one worker, one task, and the destructor.
use water_structure_cpp.Common.{◌<◌, ◌≡◌, refl, [], inl, false, arith}
use water_structure_cpp.ThreadPool.{
  Pool, make_pool, submit_section, notify_ready, worker_section, worker_section_on, notify_space,
  finish_task, shut_down, notify_everyone, Move, Reach, here, next, moves, arrives, shuts_down,
  submits, signals_ready, works, signals_space, finishes, signals_everyone,
}
use water_structure_cpp.ThreadPool.Invariant.{Inv, reachable_pool-Inv}
use water_structure_cpp.ThreadPool.Progress.{
  remaining, reachable_progress, joined_drained, shut_down_shrinks,
}

-- The task waits in the queue; the worker is on its way.
abbrev queued : Pool
queued = submit_section (record (make_pool 1 1) { callers = 1 }) 7

abbrev closed : Pool
closed = shut_down (finish_task (notify_space (worker_section (notify_ready queued))))

abbrev joined : Pool
joined = worker_section (notify_everyone closed)

queued-Reach : Reach (make_pool 1 1) queued
unfolding make_pool
queued-Reach = next (next here (arrives refl)) (moves (submits 7 (omega arith) refl))

closed-Reach : Reach (make_pool 1 1) closed
unfolding make_pool submit_section notify_ready worker_section worker_section_on notify_space
closed-Reach =
    next
      (next
        (next
          (next (next queued-Reach (moves (signals_ready (omega arith) refl)))
            (moves (works (omega arith) refl)))
          (moves (signals_space (omega arith) refl)))
        (moves (finishes (omega arith) refl)))
      (shuts_down refl)

joined-Reach : Reach (make_pool 1 1) joined
unfolding make_pool submit_section notify_ready worker_section worker_section_on notify_space
    finish_task shut_down notify_everyone
joined-Reach =
    next (next closed-Reach (moves (signals_everyone refl refl))) (moves (works (omega arith) refl))

reachable_pool-Inv_example : Inv queued
reachable_pool-Inv_example = reachable_pool-Inv 1 1 queued queued-Reach

reachable_progress_example : (q : Pool) × Move queued q
unfolding make_pool submit_section
reachable_progress_example = reachable_progress 1 1 queued queued-Reach (inl (omega arith))

joined_drained_example :
    (joined.accepting ≡ false)
    × (joined.running ≡ 0)
    × (joined.tasks ≡ [])
    × (joined.started ≡ joined.submitted)
unfolding make_pool submit_section notify_ready worker_section worker_section_on notify_space
    finish_task shut_down notify_everyone
joined_drained_example = joined_drained 1 1 joined joined-Reach refl

shut_down_shrinks_example :
    (remaining (notify_everyone closed) < remaining closed)
    × ((notify_everyone closed).accepting ≡ false)
unfolding shut_down
shut_down_shrinks_example =
    shut_down_shrinks closed (notify_everyone closed) refl (signals_everyone refl refl)
