-- ===== src/ThreadPool/Main.antt =====
-- 013threadPoll/threadpool.c: `main`, which adds ten tasks to a pool with room for ten.
use linux_c_program_exercris.Prelude.{
  ℕ, zero, suc, ◌+◌, ◌*◌, ◌≤◌, ◌<◌, ◌≡◌, refl, sym, ap, ◌∙◌, true, false, Option, none, some, List,
  [], ◌∷◌, ◌++◌, append-nil, append_assoc, arith, ◌==◌, length, get_elem?,
}
use linux_c_program_exercris.ThreadPool.Defs.{
  Pool, Task, WorkerPc, threadpool_add, add_waits, put_task,
}
use linux_c_program_exercris.ThreadPool.System.{
  System, Event, submit, work, adjust, close, step, work_at, run, adjust_system, launch,
  submit_task,
}
use linux_c_program_exercris.ThreadPool.Invariant.{Inv, step-Inv, run-Inv}
use linux_c_program_exercris.ThreadPool.Safety.{IsNew, launch-Inv}
use linux_c_program_exercris.ThreadPool.Turns.{Quiet, turns, worker_step-le}
use linux_c_program_exercris.ThreadPool.Progress.{queue_drains, adjust_step-size, step-accepted}
use linux_c_program_exercris.ThreadPool.Refine.{step-Fixed, run-open}

-- `threadpool_create(3,10,10)` and the array of ten.
abbrev pub main_room : ℕ
main_room = 10

abbrev pub size_of_int : ℕ
size_of_int = 4

-- `for(i=0; i<10; i++) threadpool_add(pool,process,&num[i])`, from `i` on for `n` rounds.
unfoldable pub add_tasks : ℕ → ℕ → ℕ → ℕ → List Task
add_tasks process num i zero = []
add_tasks process num i (suc n) =
    record { function = process; args = num + size_of_int * i } ∷ add_tasks process num (i + 1) n

unfoldable pub main_tasks : ℕ → ℕ → List Task
unfolding add_tasks
main_tasks process num = add_tasks process num 0 main_room

-- What is submitted in a schedule.
abbrev pub submitted : List Event → List Task
submitted [] = []
submitted (submit t ∷ es) = t ∷ submitted es
submitted (work i ∷ es) = submitted es
submitted (adjust ∷ es) = submitted es
submitted (close ∷ es) = submitted es

-- A task for an open pool that is not full.
add_to_open :
    (s : System) (t : Task)
    → s.pool.shutdown ≡ false
    → s.pool.queue_size < s.pool.queue_max_size
    → submit_task s t (threadpool_add s.pool t)
      ≡ record s { pool = put_task s.pool t; accepted = s.accepted ++ (t ∷ []) }
unfolding threadpool_add submit_task add_waits
add_to_open s t o h =
    let full : (s.pool.queue_size == s.pool.queue_max_size) ≡ false = ground arith in simp (o, full)

work_at-size :
    (s : System) (i : ℕ) (w : Option WorkerPc)
    → s.pool.shutdown ≡ false
    → (work_at s i w).pool.queue_size ≤ s.pool.queue_size
unfolding work_at
work_at-size s i none o = omega arith
work_at-size s i (some pc) o = (worker_step-le pc s.pool o).0

module _ (kill : ℕ → ℕ) (spawn : ℕ → ℕ) where
  -- An event that is no `submit` makes the queue no longer.
  Quiet-size :
      (s : System) (e : Event)
      → Quiet (e ∷ [])
      → s.pool.shutdown ≡ false
      → (step kill spawn s e).pool.queue_size ≤ s.pool.queue_size
  unfolding step adjust_system
  Quiet-size s (submit t) q o = elim q [ ]
  Quiet-size s (work i) q o = work_at-size s i _ o
  Quiet-size s adjust q o = omega (arith, (adjust_step-size kill spawn s).0)
  Quiet-size s close q o = elim q [ ]

  Quiet-fits :
      (s : System) (e : Event) (n : ℕ)
      → Inv s
      → Quiet (e ∷ [])
      → s.pool.shutdown ≡ false
      → s.pool.queue_size + n ≤ s.pool.queue_max_size
      → (step kill spawn s e).pool.queue_size + n ≤ (step kill spawn s e).pool.queue_max_size
  Quiet-fits s e n v q o h =
      omega (arith, Quiet-size s e q o, (step-Fixed kill spawn s e v).same_room)

  step-submit :
      (s : System) (t : Task)
      → s.pool.shutdown ≡ false
      → s.pool.queue_size < s.pool.queue_max_size
      → step kill spawn s (submit t)
        ≡ record s { pool = put_task s.pool t; accepted = s.accepted ++ (t ∷ []) }
  unfolding step
  step-submit s t o h = add_to_open s t o h

  submit-fits :
      (s : System) (t : Task) (n : ℕ)
      → s.pool.shutdown ≡ false
      → s.pool.queue_size + suc n ≤ s.pool.queue_max_size
      → ((step kill spawn s (submit t)).pool.queue_size + n
          ≤ (step kill spawn s (submit t)).pool.queue_max_size)
        × ((step kill spawn s (submit t)).accepted ≡ s.accepted ++ (t ∷ []))
  unfolding put_task
  submit-fits s t n o h = rw (step-submit s t o (omega arith)) (omega arith, refl)

  -- A queue with room for all that is submitted takes it all.
  run-accepts :
      (s : System) (es : List Event)
      → Inv s
      → (run kill spawn s es).pool.shutdown ≡ false
      → s.pool.queue_size + length (submitted es) ≤ s.pool.queue_max_size
      → (run kill spawn s es).accepted ≡ s.accepted ++ submitted es
  unfolding run
  run-accepts s [] v o h = sym (append-nil _)
  run-accepts s (submit t ∷ es) v o h =
      let w = step-Inv kill spawn s (submit t) v in
      let now = (step-Fixed kill spawn s (submit t) v).was_open (run-open kill spawn _ es w o) in
      let (fits, puts) = submit-fits s t (length (submitted es)) now h in
      run-accepts (step kill spawn s (submit t)) es w o fits
      ∙ ap (λ l. l ++ submitted es) puts
      ∙ append_assoc s.accepted (t ∷ []) (submitted es)
  run-accepts s (work i ∷ es) v o h =
      let w = step-Inv kill spawn s (work i) v in
      let now = (step-Fixed kill spawn s (work i) v).was_open (run-open kill spawn _ es w o) in
      run-accepts (step kill spawn s (work i)) es w o (Quiet-fits s (work i) _ v tt now h)
      ∙ ap (λ l. l ++ submitted es) (step-accepted kill spawn s (work i) tt)
  run-accepts s (adjust ∷ es) v o h =
      let w = step-Inv kill spawn s adjust v in
      let now = (step-Fixed kill spawn s adjust v).was_open (run-open kill spawn _ es w o) in
      run-accepts (step kill spawn s adjust) es w o (Quiet-fits s adjust _ v tt now h)
      ∙ ap (λ l. l ++ submitted es) (step-accepted kill spawn s adjust tt)
  run-accepts s (close ∷ es) v o h =
      let w = step-Inv kill spawn s close v in
      let shut : true ≡ false = run-open kill spawn (step kill spawn s close) es w o in cc

  run-room :
      (s : System) (es : List Event)
      → Inv s
      → (run kill spawn s es).pool.queue_max_size ≡ s.pool.queue_max_size
  unfolding run
  run-room s [] v = refl
  run-room s (e ∷ es) v =
      run-room (step kill spawn s e) es (step-Inv kill spawn s e v)
      ∙ (step-Fixed kill spawn s e v).same_room

  length-main_tasks : (process num : ℕ) → length (main_tasks process num) ≡ main_room
  unfolding main_tasks
  length-main_tasks process num = refl

  -- The demo, on a new pool with room for ten, up to its `threadpool_destroy`: whatever the threads
  -- do between the ten calls, none of them has to wait and the tasks are queued in their order; and
  -- when some worker then has 32 turns, whatever else happens, all ten have been taken, in order.
  pub main_runs_all :
      (process num : ℕ) (p : Pool) (n : IsNew p) (before after : List Event) (i : ℕ) (pc : WorkerPc)
      → p.queue_max_size ≡ main_room
      → submitted before ≡ main_tasks process num
      → (run kill spawn (launch p) before).pool.shutdown ≡ false
      → get_elem? (run kill spawn (launch p) before).workers i ≡ some pc
      → Quiet after
      → 3 * main_room + 2 ≤ turns i after
      → ((run kill spawn (launch p) before).accepted ≡ main_tasks process num)
        × ((run kill spawn (run kill spawn (launch p) before) after).taken ≡ main_tasks process num)
  unfolding launch
  main_runs_all process num p n before after i pc room e o there q h =
      let v = launch-Inv p n in
      let ten : length (submitted before) ≡ main_room =
        ap length e ∙ length-main_tasks process num in
      let all : (run kill spawn (launch p) before).accepted ≡ main_tasks process num =
        run-accepts (launch p) before v o (omega (arith, n.size, ten)) ∙ e in
      let s = run kill spawn (launch p) before in
      let small : s.pool.queue_size ≤ main_room = omega (
        arith,
        ((run-Inv kill spawn (launch p) before v).ring o).size_in,
        room,
        run-room (launch p) before v,
      ) in
      (
        all,
        (queue_drains kill spawn p n before after i pc o there q (omega (arith, small, h))).1 ∙ all,
      )
