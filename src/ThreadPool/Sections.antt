-- ===== src/ThreadPool/Sections.antt =====
-- 013threadPoll/threadpool.c: what every section of a worker keeps.
use linux_c_program_exercris.Prelude.{◌+◌, ◌≡◌, ◌≢◌, false, ◌++◌, arith, refl}
use linux_c_program_exercris.ThreadPool.Defs.{
  Pool, WorkerPc, starting, exited, worker_enter, holding, worker_step, worker_wake, working,
  waiting,
}
use linux_c_program_exercris.ThreadPool.System.{fetched, begins}
use linux_c_program_exercris.ThreadPool.Queue.{
  IsRing, contents, drop_front-IsRing, contents-drop_front,
}

-- What a section of a worker does to a pool whose alive count is its minimum.
pub record Kept (pc : WorkerPc) (p : Pool) (r : WorkerPc × Pool) : Type 0 where
  pub shut : r.1.shutdown ≡ p.shutdown
  pub steady : r.1.pthread_alive_num ≡ r.1.pthread_min_num
  pub busy : r.1.pthread_busy_num ≡ p.pthread_busy_num + begins pc
  pub ring : p.shutdown ≡ false → IsRing p → IsRing r.1
  pub fifo : p.shutdown ≡ false → contents p ≡ fetched pc r.0 ++ contents r.1
  pub stays : p.shutdown ≡ false → pc ≢ exited → r.0 ≢ exited

enter-Kept : (p : Pool) → p.pthread_alive_num ≡ p.pthread_min_num → Kept starting p (worker_enter p)
unfolding worker_enter
enter-Kept p e = record {
  shut = ground arith;
  steady = ground arith;
  busy = ground arith;
  ring = λ o v. ground (arith, drop_front-IsRing v);
  fifo = λ o. ground (arith, contents-drop_front p);
  stays = λ o h. ground arith;
}

wake-Kept : (p : Pool) → p.pthread_alive_num ≡ p.pthread_min_num → Kept waiting p (worker_wake p)
unfolding worker_wake
wake-Kept p e = record {
  shut = ground arith;
  steady = ground arith;
  busy = ground arith;
  ring = λ o v. ground (arith, drop_front-IsRing v);
  fifo = λ o. ground (arith, contents-drop_front p);
  stays = λ o h. ground arith;
}

pub worker_step-Kept :
    (pc : WorkerPc) (p : Pool)
    → p.pthread_alive_num ≡ p.pthread_min_num
    → Kept pc p (worker_step pc p)
unfolding worker_step
worker_step-Kept starting p e = enter-Kept p e
worker_step-Kept waiting p e = wake-Kept p e
worker_step-Kept (holding t) p e = record {
  shut = refl;
  steady = e;
  busy = refl;
  ring = λ o v. omega arith;
  fifo = λ o. refl;
  stays = λ o h. ground arith;
}
worker_step-Kept (working t) p e = record {
  shut = refl;
  steady = e;
  busy = omega arith;
  ring = λ o v. v;
  fifo = λ o. refl;
  stays = λ o h. ground arith;
}
worker_step-Kept exited p e = record {
  shut = refl;
  steady = e;
  busy = omega arith;
  ring = λ o v. v;
  fifo = λ o. refl;
  stays = λ o h. h;
}

-- A worker has taken a task and not begun it.
