-- ===== src/Tests/Schedules.antt =====
-- Whole runs: the pool of Pool, the select server of Select, and the two producers of Sync.
use linux_c_program_exercris.Prelude.{◌≡◌, refl, ◌≢◌, ◌⊎◌, List, [], ◌∷◌, arith, replicate}
use linux_c_program_exercris.ThreadPool.System.{Event, submit, work, adjust, run, launch}
use linux_c_program_exercris.ThreadPool.Progress.{queue_drains}
use linux_c_program_exercris.ThreadPool.Refine.{run-refines}
use linux_c_program_exercris.ThreadPool.Simulate.{Steps, pair, idle, view}
use linux_c_program_exercris.Select.Defs
use linux_c_program_exercris.Sync.Condition
use linux_c_program_exercris.Sync.Semaphore
use linux_c_program_exercris.Sync.Semaphore.Slots.{slots_apart, never_stuck}
use linux_c_program_exercris.Tests.Pool.{new, new-IsNew, kills, spawns, events, job}
use linux_c_program_exercris.ThreadPool.Defs.{Pool, Task, no_task}
use linux_c_program_exercris.ThreadPool.Safety.{IsNew}
use linux_c_program_exercris.ThreadPool.Main.{main_tasks, main_runs_all}

run-refines_example :
    Steps 2 (pair [] (idle ∷ idle ∷ [])) (view (run kills spawns (launch new) events))
unfolding run launch
run-refines_example = run-refines kills spawns new new-IsNew events refl

-- Two tasks wait, and then the second worker alone has its turns.
abbrev two_waiting : List Event
two_waiting = submit (job 5) ∷ submit (job 6) ∷ []

abbrev later : List Event
later = work 1 ∷ work 1 ∷ adjust ∷ work 1 ∷ work 1 ∷ work 0 ∷ work 1 ∷ work 1 ∷ work 1 ∷ work 1 ∷ []

queue_drains_example :
    ((run kills spawns (run kills spawns (launch new) two_waiting) later).pool.queue_size ≡ 0)
    × ((run kills spawns (run kills spawns (launch new) two_waiting) later).taken
        ≡ (run kills spawns (launch new) two_waiting).accepted)
unfolding run launch
queue_drains_example =
    queue_drains kills spawns new new-IsNew two_waiting later 1 _ refl refl tt (omega arith)

-- The consumer sleeps, and the producer has just linked a message.
abbrev asleep : List Condition.Turn
asleep = Condition.Turn.consuming ∷ Condition.Turn.producing 5 ∷ Condition.Turn.producing 0 ∷ []

no_lost_wakeup_example : (Condition.run Condition.start asleep).producer ≡ Condition.linked
unfolding Condition.run Condition.start
no_lost_wakeup_example = Condition.no_lost_wakeup asleep refl (λ e. cc)

-- The second product is about to be written while the first is taken.
abbrev overlapping : List Semaphore.Turn
overlapping =
    Semaphore.Turn.producing 7
    ∷ Semaphore.Turn.producing 7
    ∷ Semaphore.Turn.producing 7
    ∷ Semaphore.Turn.producing 8
    ∷ Semaphore.Turn.consuming
    ∷ []

slots_apart_example :
    (Semaphore.run Semaphore.start overlapping).p ≢ (Semaphore.run Semaphore.start overlapping).c
unfolding Semaphore.run Semaphore.start
slots_apart_example = slots_apart overlapping refl tt

never_stuck_example :
    let s = Semaphore.run Semaphore.start overlapping in
    ((Semaphore.step s (Semaphore.Turn.producing 9)).producer ≢ s.producer)
    ⊎ ((Semaphore.step s Semaphore.Turn.consuming).consumer ≢ s.consumer)
never_stuck_example = never_stuck overlapping 9

-- The array is at 100, the function at 1, and the first worker has a turn after each task.
abbrev roomy : Pool
roomy = record new { task_queue = replicate 10 no_task; queue_max_size = 10 }

roomy-IsNew : IsNew roomy
roomy-IsNew = record {
  room = omega arith;
  slots = omega arith;
  front = refl;
  rear = refl;
  size = refl;
  alive = refl;
  busy = refl;
}

abbrev with_turns : List Task → List Event
with_turns [] = []
with_turns (t ∷ ts) = submit t ∷ work 0 ∷ with_turns ts

main_runs_all_example :
    ((run kills spawns (launch roomy) (with_turns (main_tasks 1 100))).accepted ≡ main_tasks 1 100)
    × ((run kills spawns
          (run kills spawns (launch roomy) (with_turns (main_tasks 1 100)))
          (replicate 32 (work 1))).taken
        ≡ main_tasks 1 100)
unfolding run launch main_tasks
main_runs_all_example =
    main_runs_all kills spawns 1 100 roomy roomy-IsNew (with_turns (main_tasks 1 100))
      (replicate 32 (work 1)) 1 _ refl refl refl refl tt (omega arith)
