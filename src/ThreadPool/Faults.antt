-- ===== src/ThreadPool/Faults.antt =====
-- 013threadPoll/threadpool.c: where the pool departs from what its comments promise.
use linux_c_program_exercris.Prelude.{
  ℕ, ◌+◌, ◌%◌, ◌<◌, ◌≡◌, refl, ◌∙◌, ◌≢◌, false, List, [], ◌∷◌, ◌++◌, arith, ◌==◌, if◌then◌else◌,
  get_or, get_or-set_self,
}
use native.Mathlib.Nat.{mod-eq_of_lt, add-mod_right}
use linux_c_program_exercris.ThreadPool.Defs.{
  Pool, Task, Call, unlock, free, signal_not_empty, added, threadpool_add, front_task, drop_front,
  put_task, stale_args,
}
use linux_c_program_exercris.ThreadPool.Adjust.{close_pool}
use linux_c_program_exercris.ThreadPool.Queue.{IsRing}

around : (h size : ℕ) → h < size → (h + size) % size ≡ h
around h size lt = add-mod_right h size ∙ mod-eq_of_lt lt

full_rear : (p : Pool) → IsRing p → p.queue_size ≡ p.queue_max_size → p.queue_rear ≡ p.queue_front
full_rear p v full = v.rear_at ∙ rw full (around p.queue_front p.queue_max_size v.front_in)

-- After the flag of `threadpool_destroy` an add to a full queue neither sleeps nor returns: it
-- unlocks, writes without the lock over the oldest task, exceeds the capacity, and unlocks again.
pub add_after_close :
    (p : Pool) (t : Task)
    → IsRing p
    → p.queue_size ≡ p.queue_max_size
    → (q : Pool) × (cs : List Call) × (threadpool_add (close_pool p) t
        ≡ added (unlock ∷ cs ++ (signal_not_empty ∷ unlock ∷ [])) q)
      × (q.queue_size ≡ q.queue_max_size + 1)
      × (get_or q.task_queue p.queue_front t ≡ t)
unfolding threadpool_add close_pool
add_after_close p t v full = (
  put_task (close_pool p) t,
  (if stale_args p == 0 then [] else free (stale_args p) ∷ []),
  refl,
  omega (arith, full),
  rw (full_rear p v full)
      (get_or-set_self p.task_queue p.queue_front t t (omega (arith, v.front_in, v.slots))),
)

-- When a worker has taken the front task of a full queue, the next add goes to the same slot, and
-- frees the argument that the worker holds.
pub taken_args_freed :
    (p : Pool) (t : Task)
    → IsRing p
    → p.shutdown ≡ false
    → p.queue_size ≡ p.queue_max_size
    → (front_task p).args ≢ 0
    → threadpool_add (drop_front p) t
      ≡ added
          (free (front_task p).args ∷ signal_not_empty ∷ unlock ∷ [])
          (put_task (drop_front p) t)
unfolding threadpool_add front_task drop_front
taken_args_freed p t v o full h = ground (arith, full_rear p v full, v.front_in)
