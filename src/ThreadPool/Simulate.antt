-- ===== src/ThreadPool/Simulate.antt =====
-- 013threadPoll/threadpool.c: an abstract pool, and the sections of a worker and of `threadpool_add`
-- as its steps.
use linux_c_program_exercris.Prelude.{
  ℕ, ◌<◌, ◌≡◌, refl, sym, ap, ap₂, subst, ◌∙◌, ◌⊎◌, inl, inr, false, Option, none, some, List, [],
  ◌∷◌, ◌++◌, map, arith, length, get_elem?, set, replicate, map-set, get_elem?-map, set-get_elem?,
}
use linux_c_program_exercris.Ring.{length-window}
use linux_c_program_exercris.ThreadPool.Defs.{
  Pool, Task, no_task, WorkerPc, starting, waiting, holding, working, exited, worker_step,
  front_task, threadpool_add,
}
use linux_c_program_exercris.ThreadPool.System.{System, work_at, submit_task, fetched}
use linux_c_program_exercris.ThreadPool.Queue.{contents, contents-put_task}
use linux_c_program_exercris.ThreadPool.Sections.{worker_step-Kept}
use linux_c_program_exercris.ThreadPool.Invariant.{Inv, AllPresent-get, threadpool_add_cases}

pub data Phase : Type 0 where
  idle : Phase
  has : Task → Phase
  runs : Task → Phase
  gone : Phase

pub record Abstract : Type 0 where
  pub queue : List Task
  pub staff : List Phase

-- The steps of an abstract pool with room for `room` tasks.
pub data Step (room : ℕ) (a b : Abstract) : Type 0 where
  put :
      (t : Task)
      → length a.queue < room
      → b ≡ record { queue = a.queue ++ (t ∷ []); staff = a.staff }
      → Step room a b
  take_first :
      (i : ℕ) (t : Task) (rest : List Task)
      → get_elem? a.staff i ≡ some idle
      → a.queue ≡ t ∷ rest
      → b ≡ record { queue = rest; staff = set a.staff i (has t) }
      → Step room a b
  start_task :
      (i : ℕ) (t : Task)
      → get_elem? a.staff i ≡ some (has t)
      → b ≡ record { queue = a.queue; staff = set a.staff i (runs t) }
      → Step room a b
  finish_task :
      (i : ℕ) (t : Task)
      → get_elem? a.staff i ≡ some (runs t)
      → b ≡ record { queue = a.queue; staff = set a.staff i idle }
      → Step room a b
  hire :
      (n : ℕ) → b ≡ record { queue = a.queue; staff = a.staff ++ replicate n idle } → Step room a b
  stay : b ≡ a → Step room a b

pub data Steps (room : ℕ) (a : Abstract) : Abstract → Type 0 where
  here : Steps room a a
  more : {b c : Abstract} → Steps room a b → Step room b c → Steps room a c

abbrev pub phase : WorkerPc → Phase
phase starting = idle
phase waiting = idle
phase (holding t) = has t
phase (working t) = runs t
phase exited = gone

abbrev pub pair : List Task → List Phase → Abstract
pair queue staff = record { queue = queue; staff = staff }

abbrev pub view : System → Abstract
view s = pair (contents s.pool) (map phase s.workers)

-- What a worker at the queue of an open pool may do.
at_queue :
    (pc : WorkerPc) (p : Pool)
    → phase pc ≡ idle
    → p.shutdown ≡ false
    → p.pthread_alive_num ≡ p.pthread_min_num
    → ((worker_step pc p).0 ≡ waiting) ⊎ ((worker_step pc p).0 ≡ holding (front_task p))
unfolding worker_step front_task
at_queue starting p q o e = ground arith
at_queue waiting p q o e = ground arith
at_queue (holding t) p q o e = cc
at_queue (working t) p q o e = cc
at_queue exited p q o e = cc

fetched-idle :
    (pc : WorkerPc)
    → phase pc ≡ idle
    → (fetched pc waiting ≡ []) × ((t : Task) → fetched pc (holding t) ≡ t ∷ [])
fetched-idle starting q = (refl, λ t. refl)
fetched-idle waiting q = (refl, λ t. refl)
fetched-idle (holding t) q = cc
fetched-idle (working t) q = cc
fetched-idle exited q = cc

module _ (s : System) (i : ℕ) (pc : WorkerPc) (there : get_elem? s.workers i ≡ some pc) where
  -- The view of the workers, with one of them moved.
  staff-set :
      (next : WorkerPc)
      → map phase (set s.workers i next) ≡ set (map phase s.workers) i (phase next)
  staff-set next = map-set phase s.workers i next

  staff-get : get_elem? (map phase s.workers) i ≡ some (phase pc)
  staff-get = get_elem?-map phase s.workers i pc there

  moved :
      (next : WorkerPc) (q : List Task)
      → Step s.pool.queue_max_size (view s) (pair q (set (map phase s.workers) i (phase next)))
      → Step s.pool.queue_max_size (view s) (pair q (map phase (set s.workers i next)))
  moved next q st =
      subst (λ l. Step s.pool.queue_max_size (view s) (pair q l)) (sym (staff-set next)) st

  queue-Step :
      (next : WorkerPc) (t : Task) (q : List Task)
      → phase pc ≡ idle
      → (next ≡ waiting) ⊎ (next ≡ holding t)
      → contents s.pool ≡ fetched pc next ++ q
      → Step s.pool.queue_max_size (view s) (pair q (set (map phase s.workers) i (phase next)))
  queue-Step next t q idles (inl w) fifo = stay (
      ap₂ pair
        (sym (fifo ∙ ap (λ n. fetched pc n ++ q) w ∙ ap (λ l. l ++ q) (fetched-idle pc idles).0))
        (ap (λ n. set (map phase s.workers) i (phase n)) w
          ∙ set-get_elem? (map phase s.workers) i idle (staff-get ∙ ap some idles)))
  queue-Step next t q idles (inr h) fifo =
      take_first i t q (staff-get ∙ ap some idles)
        (fifo ∙ ap (λ n. fetched pc n ++ q) h ∙ ap (λ l. l ++ q) ((fetched-idle pc idles).1 t))
        (ap (λ n. pair q (set (map phase s.workers) i (phase n))) h)

  at_queue-Step :
      phase pc ≡ idle
      → Inv s
      → s.pool.shutdown ≡ false
      → Step s.pool.queue_max_size (view s) (view (work_at s i (some pc)))
  unfolding work_at
  at_queue-Step idles v o = moved (worker_step pc s.pool).0 (contents (worker_step pc s.pool).1) (
      queue-Step (worker_step pc s.pool).0 (front_task s.pool) (contents (worker_step pc s.pool).1)
        idles (at_queue pc s.pool idles o v.steady) ((worker_step-Kept pc s.pool v.steady).fifo o))

work-Step :
    (s : System) (i : ℕ) (pc : WorkerPc)
    → get_elem? s.workers i ≡ some pc
    → Inv s
    → s.pool.shutdown ≡ false
    → Step s.pool.queue_max_size (view s) (view (work_at s i (some pc)))
unfolding work_at worker_step
work-Step s i starting e v o = at_queue-Step s i starting e refl v o
work-Step s i waiting e v o = at_queue-Step s i waiting e refl v o
work-Step s i (holding t) e v o =
    moved s i (holding t) e (working t) (contents s.pool)
      (start_task i t (staff-get s i (holding t) e) refl)
work-Step s i (working t) e v o =
    moved s i (working t) e starting (contents s.pool)
      (finish_task i t (staff-get s i (working t) e) refl)
work-Step s i exited e v o = absurd (AllPresent-get s.workers i exited e (v.staffed o) refl)

pub work_at-Step :
    (s : System) (i : ℕ) (w : Option WorkerPc)
    → get_elem? s.workers i ≡ w
    → Inv s
    → s.pool.shutdown ≡ false
    → Step s.pool.queue_max_size (view s) (view (work_at s i w))
work_at-Step s i none e v o = stay (unfold work_at in refl)
work_at-Step s i (some pc) e v o = work-Step s i pc e v o

pub submit-Step :
    (s : System) (t : Task)
    → Inv s
    → s.pool.shutdown ≡ false
    → Step s.pool.queue_max_size (view s) (view (submit_task s t (threadpool_add s.pool t)))
submit-Step s t v o = elim (threadpool_add_cases s.pool t) [
  | inl e ↦ rw e (stay (unfold submit_task in refl))
  | inr (cs, e, room) ↦
      let below : s.pool.queue_size < s.pool.queue_max_size =
        omega (arith, room o, (v.ring o).size_in) in
      rw e (
        unfold submit_task in
        put t
          (omega (
            arith,
            length-window no_task s.pool.queue_max_size s.pool.task_queue s.pool.queue_front
                s.pool.queue_size,
          ))
          (ap (λ l. pair l (map phase s.workers)) (contents-put_task t (v.ring o) below)))
]
