-- ===== src/ThreadPool/Invariant.antt =====
-- 013threadPoll/threadpool.c: the invariant of the pool, from a section of one worker up to a run.
use linux_c_program_exercris.Prelude.{
  ◌+◌, ◌≡◌, ◌≢◌, false, ◌++◌, arith, ℕ, zero, suc, refl, sym, ap, ◌∙◌, Option, none, some, List, [],
  ◌∷◌, append_assoc, length, get_elem?, set, replicate, length-append, ◌<◌, ◌⊎◌, inl, inr,
  Bool-cases,
}
use linux_c_program_exercris.ThreadPool.Defs.{
  Pool, WorkerPc, starting, exited, holding, worker_step, working, waiting, threadpool_add, Task,
  add_waits, put_task, Call, blocked, added, add_calls,
}
use linux_c_program_exercris.ThreadPool.Adjust.{
  AdjustPc, checking, reading, sized, resized, measured, sleeping, finished, adjust_step,
}
use linux_c_program_exercris.ThreadPool.System.{
  submit, work, adjust, close, fetched, begins, work_at, System, submit_task, adjust_system, run,
  step, Event, submit, work,
}
use linux_c_program_exercris.ThreadPool.Queue.{IsRing, contents, put_task-IsRing, contents-put_task}
use linux_c_program_exercris.ThreadPool.Sections.{Kept, worker_step-Kept}

abbrev pub holds : WorkerPc → ℕ
holds (holding t) = 1
holds _ = 0

abbrev pub count_holding : List WorkerPc → ℕ
count_holding [] = 0
count_holding (pc ∷ pcs) = holds pc + count_holding pcs

abbrev pub AllPresent : List WorkerPc → Type 0
AllPresent [] = Unit
AllPresent (pc ∷ pcs) = (pc ≢ exited) × AllPresent pcs

worker_step-holds :
    (pc : WorkerPc) (p : Pool)
    → holds pc + length (fetched pc (worker_step pc p).0) ≡ begins pc + holds (worker_step pc p).0
unfolding worker_step
worker_step-holds starting p = ground arith
worker_step-holds waiting p = ground arith
worker_step-holds (holding t) p = ground arith
worker_step-holds (working t) p = ground arith
worker_step-holds exited p = ground arith

count_holding-set :
    (pcs : List WorkerPc) (i : ℕ) (pc pc' : WorkerPc)
    → get_elem? pcs i ≡ some pc
    → count_holding (set pcs i pc') + holds pc ≡ count_holding pcs + holds pc'
count_holding-set [] i pc pc' e = cc
count_holding-set (x ∷ pcs) zero pc pc' e = ground arith
count_holding-set (x ∷ pcs) (suc i) pc pc' e = omega (arith, count_holding-set pcs i pc pc' e)

AllPresent-set :
    (pcs : List WorkerPc) (i : ℕ) (pc : WorkerPc)
    → AllPresent pcs
    → pc ≢ exited
    → AllPresent (set pcs i pc)
AllPresent-set [] i pc a h = tt
AllPresent-set (x ∷ pcs) zero pc a h = (h, a.1)
AllPresent-set (x ∷ pcs) (suc i) pc a h = (a.0, AllPresent-set pcs i pc a.1 h)

pub AllPresent-get :
    (pcs : List WorkerPc) (i : ℕ) (pc : WorkerPc)
    → get_elem? pcs i ≡ some pc
    → AllPresent pcs
    → pc ≢ exited
AllPresent-get [] i pc e a = cc
AllPresent-get (x ∷ pcs) zero pc e a = λ h. a.0 (ground arith)
AllPresent-get (x ∷ pcs) (suc i) pc e a = AllPresent-get pcs i pc e a.1

pub replicate-starting :
    (n : ℕ) → (count_holding (replicate n starting) ≡ 0) × AllPresent (replicate n starting)
replicate-starting zero = (refl, tt)
replicate-starting (suc n) = let (c, a) = replicate-starting n in (omega (arith, c), ((λ h. cc), a))

append-starting :
    (pcs : List WorkerPc) (n : ℕ)
    → (count_holding (pcs ++ replicate n starting) ≡ count_holding pcs)
      × (AllPresent pcs → AllPresent (pcs ++ replicate n starting))
append-starting [] n = let (c, a) = replicate-starting n in (c, λ _. a)
append-starting (pc ∷ pcs) n =
    let (c, a) = append-starting pcs n in (ap (λ k. holds pc + k) c, λ h. (h.0, a h.1))

-- What every schedule keeps.
pub record Inv (s : System) : Type 0 where
  pub steady : s.pool.pthread_alive_num ≡ s.pool.pthread_min_num
  pub busy : s.pool.pthread_busy_num ≡ s.begun
  pub served : length s.taken ≡ s.begun + count_holding s.workers
  pub ring : s.pool.shutdown ≡ false → IsRing s.pool
  pub fifo : s.pool.shutdown ≡ false → s.accepted ≡ s.taken ++ contents s.pool
  pub staffed : s.pool.shutdown ≡ false → AllPresent s.workers

work_at-Inv :
    (s : System) (i : ℕ) (o : Option WorkerPc)
    → get_elem? s.workers i ≡ o
    → Inv s
    → Inv (work_at s i o)
unfolding work_at
work_at-Inv s i none e v = v
work_at-Inv s i (some pc) e v = record {
  steady = k.steady;
  busy = omega (arith, k.busy, v.busy);
  served = omega (
    arith,
    length-append s.taken (fetched pc (worker_step pc s.pool).0),
    worker_step-holds pc s.pool,
    count_holding-set s.workers i pc (worker_step pc s.pool).0 e,
    v.served,
  );
  ring = λ o. k.ring (open' o) (v.ring (open' o));
  fifo =
      λ o. v.fifo (open' o) ∙ ap (◌++◌ s.taken) (k.fifo (open' o)) ∙ sym (append_assoc s.taken _ _);
  staffed = λ o.
      AllPresent-set s.workers i _ (v.staffed (open' o))
        (k.stays (open' o) (AllPresent-get s.workers i pc e (v.staffed (open' o))));
}
  where
    k : Kept pc s.pool (worker_step pc s.pool)
    k = worker_step-Kept pc s.pool v.steady

    open' : (worker_step pc s.pool).1.shutdown ≡ false → s.pool.shutdown ≡ false
    open' o = sym k.shut ∙ o

pub threadpool_add_cases :
    (p : Pool) (t : Task)
    → (threadpool_add p t ≡ blocked)
      ⊎ ((cs : List Call) × (threadpool_add p t ≡ added cs (put_task p t))
          × (p.shutdown ≡ false → p.queue_size ≢ p.queue_max_size))
unfolding threadpool_add add_waits
threadpool_add_cases p t = elim (Bool-cases (add_waits p)) [
  | inl e ↦ inl (rw (e, threadpool_add))
  | inr e ↦ inr (add_calls p, rw (e, threadpool_add) refl, λ o. ground arith)
]

put-Inv :
    (s : System) (t : Task) (cs : List Call)
    → (s.pool.shutdown ≡ false → s.pool.queue_size ≢ s.pool.queue_max_size)
    → Inv s
    → Inv (submit_task s t (added cs (put_task s.pool t)))
unfolding submit_task put_task
put-Inv s t cs room v = record {
  steady = v.steady;
  busy = v.busy;
  served = v.served;
  ring = λ o. put_task-IsRing t (v.ring o) (below o);
  fifo = λ o.
      ap (λ l. l ++ (t ∷ [])) (v.fifo o)
      ∙ append_assoc s.taken _ _
      ∙ ap (◌++◌ s.taken) (sym (contents-put_task t (v.ring o) (below o)));
  staffed = v.staffed;
}
  where
    below : s.pool.shutdown ≡ false → s.pool.queue_size < s.pool.queue_max_size
    below o = omega (arith, room o, (v.ring o).size_in)

submit_task-Inv : (s : System) (t : Task) → Inv s → Inv (submit_task s t (threadpool_add s.pool t))
submit_task-Inv s t v = elim (threadpool_add_cases s.pool t) [
  | inl e ↦ rw e (unfold submit_task in v)
  | inr (cs, e, room) ↦ rw e (put-Inv s t cs room v)
]

with_slots :
    (p : Pool) (ts : List ℕ) (n : ℕ)
    → IsRing p
    → IsRing (record p { threads = ts; pthread_wait_exit_num = n })
with_slots p ts n v = omega arith

module _ (kill : ℕ → ℕ) (spawn : ℕ → ℕ) where
  -- The adjuster changes the slots and the number of waiters that may leave, nothing else.
  pub adjust_step_same :
      (a : AdjustPc) (p : Pool)
      → let q = (adjust_step kill spawn a p).1 in
        (q ≡ record p { threads = q.threads; pthread_wait_exit_num = q.pthread_wait_exit_num })
  unfolding adjust_step
  adjust_step_same checking p = refl
  adjust_step_same reading p = refl
  adjust_step_same (sized qs alive) p = ground arith
  adjust_step_same (resized alive) p = refl
  adjust_step_same (measured busy alive) p = ground arith
  adjust_step_same sleeping p = refl
  adjust_step_same finished p = refl

  adjust_system-Inv : (s : System) → Inv s → Inv (adjust_system kill spawn s)
  unfolding adjust_system
  adjust_system-Inv s v = record {
    steady = rw same v.steady;
    busy = rw same v.busy;
    served = omega (arith, grown.0, v.served);
    ring = λ o. rw same (with_slots s.pool _ _ (v.ring (rw same at o)));
    fifo = λ o. rw same (v.fifo (rw same at o));
    staffed = λ o. grown.1 (v.staffed (rw same at o));
  }
    where
      same :
          let q = (adjust_step kill spawn s.adjuster s.pool).1 in
          (q ≡ record s.pool {
            threads = q.threads;
            pthread_wait_exit_num = q.pthread_wait_exit_num;
          })
      same = adjust_step_same s.adjuster s.pool

      grown :
          let w = s.workers ++ replicate (adjust_step kill spawn s.adjuster s.pool).2 starting in
          (count_holding w ≡ count_holding s.workers) × (AllPresent s.workers → AllPresent w)
      grown = append-starting s.workers (adjust_step kill spawn s.adjuster s.pool).2

  -- Every event of a schedule keeps the invariant.
  pub step-Inv : (s : System) (e : Event) → Inv s → Inv (step kill spawn s e)
  unfolding step
  step-Inv s (submit t) v = submit_task-Inv s t v
  step-Inv s (work i) v = work_at-Inv s i _ refl v
  step-Inv s adjust v = adjust_system-Inv s v
  step-Inv s close v = record {
    steady = v.steady;
    busy = v.busy;
    served = v.served;
    ring = λ o. cc;
    fifo = λ o. cc;
    staffed = λ o. cc;
  }

  pub run-Inv : (s : System) (es : List Event) → Inv s → Inv (run kill spawn s es)
  unfolding run
  run-Inv s [] v = v
  run-Inv s (e ∷ es) v = run-Inv (step kill spawn s e) es (step-Inv s e v)
