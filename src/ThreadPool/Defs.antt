-- ===== src/ThreadPool/Defs.antt =====
-- 013threadPoll/threadpool.c: the structures, `threadpool_add`, and the sections of
-- `threadpool_thread` and `adjust_thread` that run under a lock.
use linux_c_program_exercris.Prelude.{
  ℕ, ◌+◌, ◌-◌, ◌%◌, Bool, not, ◌&&◌, List, [], ◌∷◌, ◌++◌, ltb, ◌==◌, if◌then◌else◌, set, get_or,
}

-- `threadpool_task_t`. A pointer is a number, and 0 is NULL.
pub record Task : Type 0 where
  pub function : ℕ
  pub args : ℕ

abbrev pub no_task : Task
no_task = record { function = 0; args = 0 }

-- `threadpool_t`. The locks and conditions are in the granularity of the steps.
pub record Pool : Type 0 where
  pub threads : List ℕ
  pub adjust_tid : ℕ
  pub task_queue : List Task
  pub pthread_min_num : ℕ
  pub pthread_max_num : ℕ
  pub pthread_alive_num : ℕ
  pub pthread_busy_num : ℕ
  pub pthread_wait_exit_num : ℕ
  pub queue_front : ℕ
  pub queue_rear : ℕ
  pub queue_size : ℕ
  pub queue_max_size : ℕ
  pub shutdown : Bool

abbrev pub default_thread_num : ℕ
default_thread_num = 10

-- The calls that leave the pool: what is released, signalled, joined or destroyed.
pub data Call : Type 0 where
  unlock : Call
  free : ℕ → Call
  signal_not_empty broadcast_not_empty : Call
  join : ℕ → Call
  destroy_locks : Call

-- The test of the `while` in `threadpool_add`: the caller sleeps on `queue_not_full`.
unfoldable pub add_waits : Pool → Bool
add_waits p = not p.shutdown && p.queue_size == p.queue_max_size

-- The pointer that stays behind in the slot at the rear.
unfoldable pub stale_args : Pool → ℕ
stale_args p = (get_or p.task_queue p.queue_rear no_task).args

unfoldable pub put_task : Pool → Task → Pool
put_task p t = record p {
  task_queue = set p.task_queue p.queue_rear t;
  queue_rear = (p.queue_rear + 1) % p.queue_max_size;
  queue_size = p.queue_size + 1;
}

pub data Added : Type 0 where
  blocked : Added
  added : List Call → Pool → Added

-- The early unlock of a pool that shuts down does not return.
unfoldable pub add_calls : Pool → List Call
unfolding stale_args
add_calls p =
    (if p.shutdown then unlock ∷ [] else [])
    ++ ((if stale_args p == 0 then [] else free (stale_args p) ∷ [])
        ++ (signal_not_empty ∷ unlock ∷ []))

unfoldable pub threadpool_add : Pool → Task → Added
unfolding add_waits add_calls put_task
threadpool_add p t = if add_waits p then blocked else added (add_calls p) (put_task p t)

-- Where a worker stands between two sections.
pub data WorkerPc : Type 0 where
  starting : WorkerPc  -- at the head of `while(true)`
  waiting : WorkerPc  -- in `pthread_cond_wait`
  holding : Task → WorkerPc  -- a task is taken, the lock released
  working : Task → WorkerPc  -- in the task's function
  exited : WorkerPc

unfoldable pub worker_waits : Pool → Bool
worker_waits p = not p.shutdown && p.queue_size == 0

unfoldable pub front_task : Pool → Task
front_task p = get_or p.task_queue p.queue_front no_task

unfoldable pub drop_front : Pool → Pool
drop_front p = record p {
  queue_front = (p.queue_front + 1) % p.queue_max_size;
  queue_size = p.queue_size - 1;
}

-- From the test of the inner `while` to the release of the lock.
unfoldable pub worker_enter : Pool → WorkerPc × Pool
unfolding worker_waits front_task drop_front
worker_enter p =
    if worker_waits p
    then (waiting, p)
    else if p.shutdown
    then (exited, p)
    else (holding (front_task p), drop_front p)

-- From the return of `pthread_cond_wait`, which may be spurious.
unfoldable pub worker_wake : Pool → WorkerPc × Pool
unfolding worker_enter
worker_wake p =
    if ltb 0 p.pthread_wait_exit_num
    then (if ltb p.pthread_min_num p.pthread_alive_num
        then (
          exited,
          record p {
            pthread_wait_exit_num = p.pthread_wait_exit_num - 1;
            pthread_alive_num = p.pthread_alive_num - 1;
          },
        )
        else worker_enter (record p { pthread_wait_exit_num = p.pthread_wait_exit_num - 1 }))
    else worker_enter p

-- One section of `threadpool_thread`. The busy count goes up before the task and never down.
unfoldable pub worker_step : WorkerPc → Pool → WorkerPc × Pool
unfolding worker_enter worker_wake
worker_step starting p = worker_enter p
worker_step waiting p = worker_wake p
worker_step (holding t) p = (working t, record p { pthread_busy_num = p.pthread_busy_num + 1 })
worker_step (working t) p = (starting, p)
worker_step exited p = (exited, p)
