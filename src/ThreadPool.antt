-- ===== src/ThreadPool.antt =====
-- src/core/bounded_thread_pool.hpp: a queue of tasks with a bound, fed by any number of threads and
-- served by a fixed number of workers. Threads of one kind are alike, so the state counts them by
-- where they stand; the queue holds the tasks themselves. `submit` and `submit_indexed` differ only
-- in what the task is handed and are one operation here. The code under the mutex is one step, and
-- what stands between two such sections (a notification, a task's run) is a step of its own, so
-- every interleaving is a sequence of steps. A sleeper may also wake with no notification.
pub mod Invariant
pub mod Progress
mod Runs
use water_structure_cpp.Common.{
  ℕ, zero, suc, ◌+◌, ◌-◌, ◌<◌, max, ◌≡◌, Bool, true, false, not, ◌||◌, List, [], ◌∷◌, ◌++◌, length,
  ltb, if◌then◌else◌,
}

-- A task is known by its number.
abbrev pub Task : Type 0
Task = ℕ

pub record Pool : Type 0 where
  -- mQueueCapacity, mTasks (oldest first), mAccepting and the size of mWorkers
  pub capacity : ℕ
  pub tasks : List Task
  pub accepting : Bool
  pub workers : ℕ
  -- workers on the way to the mutex, asleep on mTaskReady, about to notify mQueueSpace, in a task,
  -- and returned
  pub awake : ℕ
  pub asleep : ℕ
  pub signalling : ℕ
  pub running : ℕ
  pub exited : ℕ
  -- submitters on the way to the mutex, asleep on mQueueSpace, about to notify mTaskReady, and
  -- turned away by the exception
  pub callers : ℕ
  pub waiting : ℕ
  pub ready_signals : ℕ
  pub refused : ℕ
  -- the destructor has yet to notify all
  pub closing : Bool
  -- the tasks queued so far and the tasks taken from the queue so far, in order
  pub submitted : List Task
  pub started : List Task

-- The constructor starts each worker, which goes for the mutex.
pub make_pool : ℕ → ℕ → Pool
make_pool worker_count queue_capacity = record {
  capacity = max queue_capacity 1;
  tasks = [];
  accepting = true;
  workers = max worker_count 1;
  awake = max worker_count 1;
  asleep = 0;
  signalling = 0;
  running = 0;
  exited = 0;
  callers = 0;
  waiting = 0;
  ready_signals = 0;
  refused = 0;
  closing = false;
  submitted = [];
  started = [];
}

-- A submitter under the mutex: it goes to sleep while the predicate of `wait` fails, throws where
-- the pool shuts down, and queues the task otherwise.
pub submit_section : Pool → Task → Pool
submit_section p task =
    if not (not p.accepting || ltb (length p.tasks) p.capacity)
    then record p { callers = p.callers - 1; waiting = p.waiting + 1 }
    else if not p.accepting
    then record p { callers = p.callers - 1; refused = p.refused + 1 }
    else record p {
      callers = p.callers - 1;
      tasks = p.tasks ++ task ∷ [];
      ready_signals = p.ready_signals + 1;
      submitted = p.submitted ++ task ∷ [];
    }

-- `mTaskReady.notify_one()`.
pub notify_ready : Pool → Pool
notify_ready p =
    if ltb 0 p.asleep
    then record p {
      ready_signals = p.ready_signals - 1;
      asleep = p.asleep - 1;
      awake = p.awake + 1;
    }
    else record p { ready_signals = p.ready_signals - 1 }

-- A worker under the mutex, by the queue that it finds.
worker_section_on : List Task → Pool → Pool
worker_section_on [] p =
    if p.accepting
    then record p { awake = p.awake - 1; asleep = p.asleep + 1 }
    else record p { awake = p.awake - 1; exited = p.exited + 1 }
worker_section_on (task ∷ rest) p = record p {
  awake = p.awake - 1;
  signalling = p.signalling + 1;
  tasks = rest;
  started = p.started ++ task ∷ [];
}

pub worker_section : Pool → Pool
unfolding worker_section_on
worker_section p = worker_section_on p.tasks p

-- `mQueueSpace.notify_one()`, after which the worker runs its task.
pub notify_space : Pool → Pool
notify_space p =
    if ltb 0 p.waiting
    then record p {
      signalling = p.signalling - 1;
      running = p.running + 1;
      waiting = p.waiting - 1;
      callers = p.callers + 1;
    }
    else record p { signalling = p.signalling - 1; running = p.running + 1 }

-- The task returns, and the worker goes round its loop.
pub finish_task : Pool → Pool
finish_task p = record p { running = p.running - 1; awake = p.awake + 1 }

-- The destructor up to its `notify_all` calls, and those.
pub shut_down : Pool → Pool
shut_down p = record p { accepting = false; closing = true }

-- The two `notify_all` calls of the destructor, in one step.
pub notify_everyone : Pool → Pool
notify_everyone p = record p {
  closing = false;
  awake = p.awake + p.asleep;
  asleep = 0;
  callers = p.callers + p.waiting;
  waiting = 0;
}

-- What the threads of the pool do next, each by itself.
pub data Move (p q : Pool) : Type 0 where
  submits : (task : Task) → 0 < p.callers → q ≡ submit_section p task → Move p q
  signals_ready : 0 < p.ready_signals → q ≡ notify_ready p → Move p q
  works : 0 < p.awake → q ≡ worker_section p → Move p q
  signals_space : 0 < p.signalling → q ≡ notify_space p → Move p q
  finishes : 0 < p.running → q ≡ finish_task p → Move p q
  signals_everyone : p.closing ≡ true → q ≡ notify_everyone p → Move p q

-- A step of the program: a move, a new submitter, the destructor, or a wake-up with no notification.
pub data Step (p q : Pool) : Type 0 where
  moves : Move p q → Step p q
  arrives : q ≡ record p { callers = p.callers + 1 } → Step p q
  shuts_down : q ≡ shut_down p → Step p q
  worker_wakes :
      0 < p.asleep → q ≡ record p { asleep = p.asleep - 1; awake = p.awake + 1 } → Step p q
  submitter_wakes :
      0 < p.waiting → q ≡ record p { waiting = p.waiting - 1; callers = p.callers + 1 } → Step p q

pub data Reach (p : Pool) : Pool → Type 0 where
  here : Reach p p
  next : {q r : Pool} → Reach p q → Step q r → Reach p r
