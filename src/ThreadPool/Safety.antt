-- ===== src/ThreadPool/Safety.antt =====
-- 013threadPoll/threadpool.c: what a client of the pool may rely on, after every schedule.
use linux_c_program_exercris.Prelude.{
  ℕ, ◌+◌, ◌≤◌, ◌<◌, ◌≡◌, refl, sym, false, List, ◌++◌, arith, length,
}
use native.Mathlib.Nat.{mod-eq_of_lt}
use linux_c_program_exercris.Ring.{length-window}
use linux_c_program_exercris.ThreadPool.Defs.{Pool, no_task}
use linux_c_program_exercris.ThreadPool.System.{System, Event, launch, run}
use linux_c_program_exercris.ThreadPool.Queue.{contents}
use linux_c_program_exercris.ThreadPool.Invariant.{
  Inv, run-Inv, replicate-starting, AllPresent, count_holding,
}

-- A pool as `threadpool_create` leaves it.
pub record IsNew (p : Pool) : Type 0 where
  pub room : 0 < p.queue_max_size
  pub slots : p.queue_max_size ≤ length p.task_queue
  pub front : p.queue_front ≡ 0
  pub rear : p.queue_rear ≡ 0
  pub size : p.queue_size ≡ 0
  pub alive : p.pthread_alive_num ≡ p.pthread_min_num
  pub busy : p.pthread_busy_num ≡ 0

pub launch-Inv : (p : Pool) → IsNew p → Inv (launch p)
unfolding launch
launch-Inv p n = record {
  steady = n.alive;
  busy = n.busy;
  served = omega (arith, (replicate-starting p.pthread_min_num).0);
  ring = λ o. record {
    room = n.room;
    slots = n.slots;
    front_in = omega (arith, n.front, n.room);
    size_in = omega (arith, n.size);
    rear_at = rw (n.rear, n.front, n.size) (sym (mod-eq_of_lt n.room));
  };
  fifo = λ o. rw n.size refl;
  staffed = λ o. (replicate-starting p.pthread_min_num).1;
}

module _ (kill : ℕ → ℕ) (spawn : ℕ → ℕ) (p : Pool) (n : IsNew p) (es : List Event) where
  abbrev pub final : System
  final = run kill spawn (launch p) es

  final-Inv : Inv final
  final-Inv = run-Inv kill spawn (launch p) es (launch-Inv p n)

  -- First in, first out, after every schedule: while the pool is open, the tasks that clients put
  -- in are those that workers took, in that order, followed by those that the queue holds; the
  -- queue holds at most `queue_max_size`.
  pub tasks_in_order :
      final.pool.shutdown ≡ false
      → (final.accepted ≡ final.taken ++ contents final.pool)
        × (length (contents final.pool) ≤ final.pool.queue_max_size)
  tasks_in_order o = (
    final-Inv.fifo o,
    omega (
      arith,
      (final-Inv.ring o).size_in,
      length-window no_task final.pool.queue_max_size final.pool.task_queue final.pool.queue_front
          final.pool.queue_size,
    ),
  )

  -- After every schedule `pthread_alive_num` is the minimum of the pool, however many threads the
  -- adjuster has created.
  pub alive_never_changes : final.pool.pthread_alive_num ≡ final.pool.pthread_min_num
  alive_never_changes = final-Inv.steady

  -- After every schedule that leaves the pool open no worker has left, those included that the
  -- adjuster has created and would let go.
  pub nobody_leaves : final.pool.shutdown ≡ false → AllPresent final.workers
  nobody_leaves o = final-Inv.staffed o

  -- After every schedule `pthread_busy_num` counts the tasks ever begun, finished ones included:
  -- together with the workers that hold a task it makes up the tasks taken.
  pub busy_counts_begun :
      (final.pool.pthread_busy_num ≡ final.begun)
      × (final.begun + count_holding final.workers ≡ length final.taken)
  busy_counts_begun = (final-Inv.busy, sym final-Inv.served)
