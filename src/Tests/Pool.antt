-- ===== src/Tests/Pool.antt =====
-- 013threadPoll/threadpool.c: pools of two and three slots, run on concrete inputs.
use linux_c_program_exercris.Prelude.{
  ℕ, ◌+◌, ◌≤◌, ◌<◌, ◌≡◌, refl, ◌≢◌, ◌⊎◌, true, false, some, List, [], ◌∷◌, ◌++◌, arith, ◌==◌,
  if◌then◌else◌, length, get_or,
}
use linux_c_program_exercris.ThreadPool.Defs.{
  Pool, Task, Call, unlock, free, signal_not_empty, threadpool_add, added, put_task, drop_front,
  front_task, no_task, default_thread_num,
}
use linux_c_program_exercris.ThreadPool.Adjust.{close_pool, Resources, grow}
use linux_c_program_exercris.ThreadPool.System.{Event, submit, work, adjust, run, launch}
use linux_c_program_exercris.ThreadPool.Queue.{IsRing, contents}
use linux_c_program_exercris.ThreadPool.Invariant.{AllPresent, count_holding}
use linux_c_program_exercris.ThreadPool.Safety.{
  IsNew, tasks_in_order, alive_never_changes, nobody_leaves, busy_counts_begun,
}
use linux_c_program_exercris.ThreadPool.Growth.{Refilled, grow_replaces_vacant}
use linux_c_program_exercris.ThreadPool.Faults.{taken_args_freed, add_after_close}

abbrev pub job : ℕ → Task
job a = record { function = 1; args = a }

-- Two workers, room for two tasks.
abbrev pub new : Pool
new = record {
  threads = 11 ∷ 12 ∷ 0 ∷ [];
  adjust_tid = 20;
  task_queue = no_task ∷ no_task ∷ [];
  pthread_min_num = 2;
  pthread_max_num = 3;
  pthread_alive_num = 2;
  pthread_busy_num = 0;
  pthread_wait_exit_num = 0;
  queue_front = 0;
  queue_rear = 0;
  queue_size = 0;
  queue_max_size = 2;
  shutdown = false;
}

pub new-IsNew : IsNew new
new-IsNew = record {
  room = omega arith;
  slots = omega arith;
  front = refl;
  rear = refl;
  size = refl;
  alive = refl;
  busy = refl;
}

abbrev pub kills : ℕ → ℕ
kills tid = if tid == 12 then 3 else 0

abbrev pub spawns : ℕ → ℕ
spawns i = 30 + i

-- Three tasks for two slots: the third waits until a worker has taken the first.
abbrev pub events : List Event
events =
    work 0
    ∷ submit (job 5)
    ∷ submit (job 6)
    ∷ submit (job 7)
    ∷ work 0
    ∷ work 0
    ∷ submit (job 8)
    ∷ adjust
    ∷ adjust
    ∷ work 1
    ∷ []

tasks_in_order_example :
    ((run kills spawns (launch new) events).accepted
      ≡ (run kills spawns (launch new) events).taken
        ++ contents (run kills spawns (launch new) events).pool)
    × (length (contents (run kills spawns (launch new) events).pool)
        ≤ (run kills spawns (launch new) events).pool.queue_max_size)
unfolding run launch
tasks_in_order_example = tasks_in_order kills spawns new new-IsNew events refl

alive_never_changes_example :
    (run kills spawns (launch new) events).pool.pthread_alive_num
    ≡ (run kills spawns (launch new) events).pool.pthread_min_num
alive_never_changes_example = alive_never_changes kills spawns new new-IsNew events

nobody_leaves_example : AllPresent (run kills spawns (launch new) events).workers
unfolding run launch
nobody_leaves_example = nobody_leaves kills spawns new new-IsNew events refl

busy_counts_begun_example :
    ((run kills spawns (launch new) events).pool.pthread_busy_num
      ≡ (run kills spawns (launch new) events).begun)
    × ((run kills spawns (launch new) events).begun
          + count_holding (run kills spawns (launch new) events).workers
        ≡ length (run kills spawns (launch new) events).taken)
busy_counts_begun_example = busy_counts_begun kills spawns new new-IsNew events

-- One task in the second slot, so that the rear is back at the first.
abbrev wrapped : Pool
wrapped = record new {
  task_queue = job 5 ∷ job 6 ∷ [];
  queue_front = 1;
  queue_rear = 0;
  queue_size = 1;
}

wrapped-IsRing : IsRing wrapped
wrapped-IsRing = record {
  room = omega arith;
  slots = omega arith;
  front_in = omega arith;
  size_in = omega arith;
  rear_at = refl;
}

abbrev full : Pool
full = record wrapped { queue_rear = 1; queue_size = 2 }

full-IsRing : IsRing full
full-IsRing = record {
  room = omega arith;
  slots = omega arith;
  front_in = omega arith;
  size_in = omega arith;
  rear_at = refl;
}

add_after_close_example :
    (q : Pool) × (cs : List Call) × (threadpool_add (close_pool full) (job 7)
      ≡ added (unlock ∷ cs ++ (signal_not_empty ∷ unlock ∷ [])) q)
    × (q.queue_size ≡ q.queue_max_size + 1)
    × (get_or q.task_queue 1 (job 7) ≡ job 7)
add_after_close_example = add_after_close full (job 7) full-IsRing refl

six_is_a_pointer : ◌≢◌ {A = ℕ} 6 0
six_is_a_pointer e = omega arith

taken_args_freed_example :
    threadpool_add (drop_front full) (job 7)
    ≡ added (free 6 ∷ signal_not_empty ∷ unlock ∷ []) (put_task (drop_front full) (job 7))
unfolding front_task
taken_args_freed_example = taken_args_freed full (job 7) full-IsRing refl refl six_is_a_pointer

grow_replaces_vacant_example :
    Refilled kills spawns 0 new.threads (grow kills spawns new).0 (grow kills spawns new).1
    × ((grow kills spawns new).1 ≤ default_thread_num)
    × ((new.pthread_alive_num < new.pthread_max_num) ⊎ (grow kills spawns new ≡ (new.threads, 0)))
grow_replaces_vacant_example = grow_replaces_vacant kills spawns new

abbrev two_slots : List Task
two_slots = job 1 ∷ job 2 ∷ []

abbrev given : Resources
given = record {
  pool_memory = true;
  threads_memory = some (1 ∷ 2 ∷ 3 ∷ []);
  queue_memory = some two_slots;
  locks_ready = true;
}
