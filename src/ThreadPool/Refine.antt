-- ===== src/ThreadPool/Refine.antt =====
-- 013threadPoll/threadpool.c: the pool against an abstract one, a bounded queue and a list of
-- workers that are idle, hold a task or run it. Indices, counters and waiting are forgotten.
use linux_c_program_exercris.Prelude.{
  ℕ, ◌≡◌, refl, sym, ap, ap₂, subst, ◌∙◌, inl, inr, false, Option, none, some, List, [], ◌∷◌, ◌++◌,
  map, arith, get_elem?, replicate, map-replicate,
}
use mathlib.Core.List.{map-append}
use linux_c_program_exercris.ThreadPool.Adjust.{adjust_step}
use linux_c_program_exercris.ThreadPool.Safety.{IsNew, launch-Inv}
use linux_c_program_exercris.ThreadPool.Defs.{
  Pool, Task, WorkerPc, starting, waiting, holding, working, exited, worker_step, threadpool_add,
  put_task,
}
use linux_c_program_exercris.ThreadPool.System.{
  adjust, close, submit, work, run, System, work_at, submit_task, adjust_system, launch, step,
  Event,
}
use linux_c_program_exercris.ThreadPool.Queue.{contents}
use linux_c_program_exercris.ThreadPool.Sections.{worker_step-Kept}
use linux_c_program_exercris.ThreadPool.Invariant.{
  Inv, threadpool_add_cases, adjust_step_same, step-Inv,
}
use linux_c_program_exercris.ThreadPool.Simulate.{
  Abstract, Step, Steps, phase, pair, view, work_at-Step, submit-Step, idle, hire, here, more,
}

-- What no section changes: the capacity, and a flag that is up.
pub record Fixed (s t : System) : Type 0 where
  pub same_room : t.pool.queue_max_size ≡ s.pool.queue_max_size
  pub was_open : t.pool.shutdown ≡ false → s.pool.shutdown ≡ false

worker_step-room :
    (pc : WorkerPc) (p : Pool) → (worker_step pc p).1.queue_max_size ≡ p.queue_max_size
unfolding worker_step
worker_step-room starting p = ground arith
worker_step-room waiting p = ground arith
worker_step-room (holding t) p = refl
worker_step-room (working t) p = refl
worker_step-room exited p = refl

work_at-Fixed : (s : System) (i : ℕ) (w : Option WorkerPc) → Inv s → Fixed s (work_at s i w)
unfolding work_at
work_at-Fixed s i none v = record { same_room = refl; was_open = λ o. o }
work_at-Fixed s i (some pc) v = record {
  same_room = worker_step-room pc s.pool;
  was_open = λ o. sym (worker_step-Kept pc s.pool v.steady).shut ∙ o;
}

submit-Fixed : (s : System) (t : Task) → Fixed s (submit_task s t (threadpool_add s.pool t))
unfolding submit_task
submit-Fixed s t = elim (threadpool_add_cases s.pool t) [
  | inl e ↦ rw e (record { same_room = refl; was_open = λ o. o })
  | inr (cs, e, room) ↦
      rw e (record { same_room = unfold put_task in refl; was_open = λ o. unfold put_task in o })
]

module _ (kill : ℕ → ℕ) (spawn : ℕ → ℕ) where
  adjust-Fixed : (s : System) → Fixed s (adjust_system kill spawn s)
  unfolding adjust_system
  adjust-Fixed s =
      let same = adjust_step_same kill spawn s.adjuster s.pool in
      record {
        same_room = ap (λ (p : Pool). p.queue_max_size) same;
        was_open = λ o. sym (ap (λ (p : Pool). p.shutdown) same) ∙ o;
      }

  pub step-Fixed : (s : System) (e : Event) → Inv s → Fixed s (step kill spawn s e)
  unfolding step
  step-Fixed s (submit t) v = submit-Fixed s t
  step-Fixed s (work i) v = work_at-Fixed s i _ v
  step-Fixed s adjust v = adjust-Fixed s
  step-Fixed s close v = record { same_room = refl; was_open = λ o. cc }

  adjust-Step :
      (s : System) → Step s.pool.queue_max_size (view s) (view (adjust_system kill spawn s))
  unfolding adjust_system
  adjust-Step s =
      let n = (adjust_step kill spawn s.adjuster s.pool).2 in
      hire n (
        ap₂ pair (ap contents (adjust_step_same kill spawn s.adjuster s.pool)) (
          map-append phase s.workers (replicate n starting)
          ∙ ap (λ l. map phase s.workers ++ l) (map-replicate phase n starting)))

  step-Step :
      (s : System) (e : Event)
      → Inv s
      → (step kill spawn s e).pool.shutdown ≡ false
      → Step s.pool.queue_max_size (view s) (view (step kill spawn s e))
  unfolding step
  step-Step s (submit t) v o = submit-Step s t v ((submit-Fixed s t).was_open o)
  step-Step s (work i) v o =
      work_at-Step s i (get_elem? s.workers i) refl v ((work_at-Fixed s i _ v).was_open o)
  step-Step s adjust v o = adjust-Step s
  step-Step s close v o = cc

  pub run-open :
      (s : System) (es : List Event)
      → Inv s
      → (run kill spawn s es).pool.shutdown ≡ false
      → s.pool.shutdown ≡ false
  unfolding run
  run-open s [] v o = o
  run-open s (e ∷ es) v o =
      (step-Fixed s e v).was_open (run-open (step kill spawn s e) es (step-Inv kill spawn s e v) o)

  run-Steps :
      (a : Abstract) (s : System) (es : List Event)
      → Inv s
      → (run kill spawn s es).pool.shutdown ≡ false
      → Steps s.pool.queue_max_size a (view s)
      → Steps s.pool.queue_max_size a (view (run kill spawn s es))
  unfolding run
  run-Steps a s [] v o st = st
  run-Steps a s (e ∷ es) v o st =
      let w = step-Inv kill spawn s e v in
      let now = run-open (step kill spawn s e) es w o in
      let same = (step-Fixed s e v).same_room in
      subst (λ k. Steps k a (view (run kill spawn (step kill spawn s e) es))) same
        (run-Steps a (step kill spawn s e) es w o (
          subst (λ k. Steps k a (view (step kill spawn s e))) (sym same)
            (more st (step-Step s e v now))))

  -- The pool implements a bounded queue with workers: while it is open, every schedule of its
  -- sections is, seen without indices, counters and waiting, a sequence of steps of the abstract
  -- pool, which puts a task behind fewer than `queue_max_size` others, gives the first one to an
  -- idle worker, starts and finishes it, or takes on idle workers.
  pub run-refines :
      (p : Pool) (n : IsNew p) (es : List Event)
      → (run kill spawn (launch p) es).pool.shutdown ≡ false
      → Steps p.queue_max_size
          (pair [] (replicate p.pthread_min_num idle))
          (view (run kill spawn (launch p) es))
  unfolding launch
  run-refines p n es o = run-Steps _ (launch p) es (launch-Inv p n) o (
      subst (λ a. Steps p.queue_max_size a (view (launch p)))
        (ap₂ pair (rw n.size refl) (map-replicate phase p.pthread_min_num starting)) here)
