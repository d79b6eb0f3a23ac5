-- ===== src/ThreadPool/System.antt =====
-- 013threadPoll/threadpool.c: a pool with its workers, its adjuster and its clients, interleaved
-- by a schedule. Each event is one section under a lock.
use linux_c_program_exercris.Prelude.{
  ℕ, ◌+◌, Option, none, some, List, [], ◌∷◌, ◌++◌, set, get_elem?, replicate,
}
use linux_c_program_exercris.ThreadPool.Defs.{
  Pool, Task, Added, blocked, added, WorkerPc, starting, waiting, holding, threadpool_add,
  worker_step,
}
use linux_c_program_exercris.ThreadPool.Adjust.{AdjustPc, checking, adjust_step, close_pool}

-- `accepted` and `taken` record which tasks were put into the queue and fetched, oldest first, and
-- `begun` how many went into their function.
pub record System : Type 0 where
  pub pool : Pool
  pub workers : List WorkerPc
  pub adjuster : AdjustPc
  pub accepted : List Task
  pub taken : List Task
  pub begun : ℕ

-- `threadpool_add` by a client, a section of worker `i` or of the adjuster, the flag of
-- `threadpool_destroy`. A blocked add, or a waiter that sleeps on, is an event that changes nothing.
pub data Event : Type 0 where
  submit : Task → Event
  work : ℕ → Event
  adjust : Event
  close : Event

-- The task that a section took from the queue, and whether it began one.
abbrev pub fetched : WorkerPc → WorkerPc → List Task
fetched starting (holding t) = t ∷ []
fetched waiting (holding t) = t ∷ []
fetched _ _ = []

abbrev pub begins : WorkerPc → ℕ
begins (holding t) = 1
begins _ = 0

unfoldable pub submit_task : System → Task → Added → System
submit_task s t blocked = s
submit_task s t (added calls p) = record s { pool = p; accepted = s.accepted ++ (t ∷ []) }

unfoldable pub work_at : System → ℕ → Option WorkerPc → System
unfolding worker_step
work_at s i none = s
work_at s i (some pc) = record s {
  pool = (worker_step pc s.pool).1;
  workers = set s.workers i (worker_step pc s.pool).0;
  taken = s.taken ++ fetched pc (worker_step pc s.pool).0;
  begun = s.begun + begins pc;
}

module _ (kill : ℕ → ℕ) (spawn : ℕ → ℕ) where
  unfoldable pub adjust_system : System → System
  unfolding adjust_step
  adjust_system s = record s {
    pool = (adjust_step kill spawn s.adjuster s.pool).1;
    adjuster = (adjust_step kill spawn s.adjuster s.pool).0;
    workers = s.workers ++ replicate (adjust_step kill spawn s.adjuster s.pool).2 starting;
  }

  unfoldable pub step : System → Event → System
  unfolding submit_task work_at adjust_system close_pool threadpool_add
  step s (submit t) = submit_task s t (threadpool_add s.pool t)
  step s (work i) = work_at s i (get_elem? s.workers i)
  step s adjust = adjust_system s
  step s close = record s { pool = close_pool s.pool }

  unfoldable pub run : System → List Event → System
  unfolding step
  run s [] = s
  run s (e ∷ es) = run (step s e) es

-- After `threadpool_create`: every worker is about to start.
unfoldable pub launch : Pool → System
launch p = record {
  pool = p;
  workers = replicate p.pthread_min_num starting;
  adjuster = checking;
  accepted = [];
  taken = [];
  begun = 0;
}
