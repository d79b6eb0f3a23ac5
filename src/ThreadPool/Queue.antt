-- ===== src/ThreadPool/Queue.antt =====
-- 013threadPoll/threadpool.c: the ring of tasks, read as a queue.
use native.Mathlib.Nat.{mod-add-mod}
use native.Mathlib.Numerals.{add-one}
use linux_c_program_exercris.Prelude.{
  ap, sym, ◌∙◌, if◌then◌else◌, ◌==◌, ℕ, zero, suc, ◌+◌, ◌-◌, ◌%◌, ◌≤◌, ◌<◌, ◌≡◌, ◌↔◌, false, List,
  [], ◌∷◌, ◌++◌, arith, length, length-set,
}
use linux_c_program_exercris.Ring.{window, window_of_pos, window-set, step-mod}
use linux_c_program_exercris.ThreadPool.Defs.{
  Pool, Task, no_task, unlock, free, signal_not_empty, added, blocked, put_task, front_task,
  drop_front, threadpool_add, stale_args,
}

-- The ring of the pool, whatever its thread counts are.
pub record IsRing (p : Pool) : Type 0 where
  pub room : 0 < p.queue_max_size
  pub slots : p.queue_max_size ≤ length p.task_queue
  pub front_in : p.queue_front < p.queue_max_size
  pub size_in : p.queue_size ≤ p.queue_max_size
  pub rear_at : p.queue_rear ≡ (p.queue_front + p.queue_size) % p.queue_max_size

abbrev pub contents : Pool → List Task
contents p = window no_task p.queue_max_size p.task_queue p.queue_front p.queue_size

pub put_task-IsRing :
    {p : Pool} (t : Task) → IsRing p → p.queue_size < p.queue_max_size → IsRing (put_task p t)
unfolding put_task
put_task-IsRing {p} t v h = record {
  room = v.room;
  slots = omega (arith, length-set p.task_queue p.queue_rear t);
  front_in = v.front_in;
  size_in = omega arith;
  rear_at = rw (v.rear_at, mod-add-mod) (ap (λ k. k % p.queue_max_size) (omega arith));
}

pub contents-put_task :
    {p : Pool} (t : Task)
    → IsRing p
    → p.queue_size < p.queue_max_size
    → contents (put_task p t) ≡ contents p ++ (t ∷ [])
unfolding put_task
contents-put_task {p} t v h = rw (add-one p.queue_size) (
    window-set no_task p.queue_max_size p.task_queue t p.queue_front p.queue_size p.queue_rear
      v.slots v.front_in h v.rear_at)

shift-pred : (cap h n : ℕ) → 0 < n → (h + n) % cap ≡ ((h + 1) % cap + (n - 1)) % cap
shift-pred cap h zero p = elim p [ ]
shift-pred cap h (suc n) p =
    sym (ap (λ k. ((h + 1) % cap + k) % cap) (omega arith) ∙ step-mod cap h n)

pub drop_front-IsRing : {p : Pool} → IsRing p → 0 < p.queue_size → IsRing (drop_front p)
unfolding drop_front
drop_front-IsRing {p} v h = record {
  room = v.room;
  slots = v.slots;
  front_in = omega arith;
  size_in = omega arith;
  rear_at = v.rear_at ∙ shift-pred p.queue_max_size p.queue_front p.queue_size h;
}

pub contents-drop_front :
    (p : Pool) → 0 < p.queue_size → contents p ≡ front_task p ∷ contents (drop_front p)
unfolding front_task drop_front
contents-drop_front p h =
    window_of_pos no_task p.queue_max_size p.task_queue p.queue_front p.queue_size h

-- `threadpool_add` sleeps exactly while the pool is open and its queue is full.
pub threadpool_add_blocks :
    (p : Pool) (t : Task)
    → (threadpool_add p t ≡ blocked) ↔ ((p.shutdown ≡ false) × (p.queue_size ≡ p.queue_max_size))
unfolding threadpool_add
threadpool_add_blocks p t = (λ h. ground arith, λ h. ground arith)

-- An open pool with room takes a task to the back of its queue, stays valid, releases the pointer
-- that stayed behind in the slot if there is one, signals a worker, and unlocks once.
pub threadpool_add_appends :
    {p : Pool} (t : Task)
    → IsRing p
    → p.shutdown ≡ false
    → p.queue_size < p.queue_max_size
    → (q : Pool) × (threadpool_add p t
        ≡ added
            ((if stale_args p == 0 then [] else free (stale_args p) ∷ [])
              ++ (signal_not_empty ∷ unlock ∷ []))
            q)
      × IsRing q
      × (contents q ≡ contents p ++ (t ∷ []))
unfolding threadpool_add
threadpool_add_appends {p} t v o h =
    (put_task p t, ground arith, put_task-IsRing t v h, contents-put_task t v h)
