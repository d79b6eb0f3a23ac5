-- ===== src/Tests/Sync.antt =====
-- 010_thread_sync: schedules of the threads, run on concrete inputs.
use linux_c_program_exercris.Prelude.{
  ℕ, ◌≤◌, ◌<◌, ◌≡◌, refl, Bool, true, false, List, [], ◌∷◌, ◌++◌, length,
}
use linux_c_program_exercris.Sync.Semaphore
use linux_c_program_exercris.Sync.Semaphore.Order.{front, products_in_order}
use linux_c_program_exercris.Sync.Locked
use linux_c_program_exercris.Sync.Condition
use linux_c_program_exercris.Ring.{window}
use mathlib.Core.List.{Perm}

abbrev sem_turns : List Semaphore.Turn
sem_turns =
    Semaphore.Turn.producing 7
    ∷ Semaphore.Turn.producing 7
    ∷ Semaphore.Turn.producing 7
    ∷ Semaphore.Turn.consuming
    ∷ Semaphore.Turn.consuming
    ∷ []

products_in_order_example :
    let s = Semaphore.run Semaphore.start sem_turns in
    (n : ℕ) × (s.produced
      ≡ s.consumed ++ window 0 Semaphore.def_num s.queue (front s.c s.consumer) n)
    × (n ≤ Semaphore.def_num)
    × (s.p < length s.queue)
    × (s.c < length s.queue)
products_in_order_example = products_in_order sem_turns

-- Each adds once, one after the other.
abbrev turns : List Bool
turns = true ∷ true ∷ false ∷ true ∷ true ∷ false ∷ false ∷ false ∷ false ∷ []

no_addition_lost_example : (Locked.run 2 3 (Locked.start 1 1) turns).shared.num ≡ 5
unfolding Locked.run Locked.start
no_addition_lost_example = Locked.no_addition_lost 2 3 1 1 turns refl refl

abbrev cond_turns : List Condition.Turn
cond_turns =
    Condition.Turn.consuming
    ∷ Condition.Turn.producing 5
    ∷ Condition.Turn.producing 0
    ∷ Condition.Turn.consuming
    ∷ []

messages_balance_example : Perm (Condition.run Condition.start cond_turns).produced (
    (Condition.run Condition.start cond_turns).freed
    ++ (Condition.in_hand (Condition.run Condition.start cond_turns).consumer
        ++ (Condition.run Condition.start cond_turns).head))
messages_balance_example = Condition.messages_balance cond_turns
