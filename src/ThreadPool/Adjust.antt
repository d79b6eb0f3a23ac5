-- ===== src/ThreadPool/Adjust.antt =====
-- 013threadPoll/threadpool.c: `adjust_thread`, `pthread_is_alive`, the creation of the pool and
-- the calls of its destruction. `pthread_kill` and `pthread_create` are parameters: the error
-- number for a thread, and the thread that is stored in a slot.
use linux_c_program_exercris.Prelude.{
  ℕ, zero, suc, ◌+◌, ◌*◌, Bool, true, false, not, ◌&&◌, ◌||◌, List, [], ◌∷◌, ◌++◌, ltb, ◌==◌,
  if◌then◌else◌, take, map, Option, none, some,
}
use linux_c_program_exercris.ThreadPool.Defs.{
  Pool, Task, Call, join, broadcast_not_empty, default_thread_num,
}

abbrev pub esrch : ℕ
esrch = 3

-- The sections of `adjust_thread`, with the locals that are live between them.
pub data AdjustPc : Type 0 where
  checking : AdjustPc  -- the test of the `while`
  reading : AdjustPc  -- before the first section
  sized : ℕ → ℕ → AdjustPc  -- queue_size and pthread_alive_num are read
  resized : ℕ → AdjustPc  -- the local pthread_alive_num
  measured : ℕ → ℕ → AdjustPc  -- pthread_busy_num and pthread_alive_num
  sleeping : AdjustPc
  finished : AdjustPc

module _ (kill : ℕ → ℕ) (spawn : ℕ → ℕ) where
  unfoldable pub pthread_is_alive : ℕ → Bool
  pthread_is_alive tid = if kill tid == esrch then false else true

  -- A slot that may be given a new thread.
  unfoldable pub is_vacant : ℕ → Bool
  unfolding pthread_is_alive
  is_vacant tid = tid == 0 || not (pthread_is_alive tid)

  -- The `for` over the slots from `i` on, with `added` threads created so far. `more` is the test
  -- on the pool's own count, which the loop does not change.
  unfoldable pub grow_from : Bool → List ℕ → ℕ → ℕ → List ℕ × ℕ
  unfolding is_vacant
  grow_from more [] i added = ([], added)
  grow_from more (t ∷ ts) i added =
      let (rest, total) = grow_from more ts (i + 1) (if is_vacant t then added + 1 else added) in
      if ltb added default_thread_num && more
      then ((if is_vacant t then spawn i else t) ∷ rest, total)
      else (t ∷ ts, added)

  unfoldable pub grow : Pool → List ℕ × ℕ
  unfolding grow_from
  grow p = grow_from (ltb p.pthread_alive_num p.pthread_max_num) p.threads 0 0

  -- One section. The number beside the pool is that of the threads created.
  unfoldable pub adjust_step : AdjustPc → Pool → AdjustPc × Pool × ℕ
  unfolding grow
  adjust_step checking p = (if p.shutdown then finished else reading, p, 0)
  adjust_step reading p = (sized p.queue_size p.pthread_alive_num, p, 0)
  adjust_step (sized queue_size alive) p =
      if ltb (3 + alive) queue_size && ltb (alive + 1) p.pthread_max_num
      then (resized (alive + (grow p).1), record p { threads = (grow p).0 }, (grow p).1)
      else (resized alive, p, 0)
  adjust_step (resized alive) p = (measured p.pthread_busy_num alive, p, 0)
  adjust_step (measured busy alive) p =
      if ltb (busy * 2) alive && ltb p.pthread_min_num alive
      then (sleeping, record p { pthread_wait_exit_num = default_thread_num }, 0)
      else (sleeping, p, 0)
  adjust_step sleeping p = (checking, p, 0)
  adjust_step finished p = (finished, p, 0)

-- A pointer of the pool while it is built: malloc leaves the structure unset.
pub data Pointer : Type 0 where
  unset null block : Pointer

pub data Release : Type 0 where
  reads_unset : Release
  free_queue free_threads free_pool : Release
  destroys : Release

abbrev pub free_queue_calls : Pointer → List Release
free_queue_calls unset = reads_unset ∷ []
free_queue_calls null = []
free_queue_calls block = free_queue ∷ []

abbrev pub free_threads_calls : Pointer → List Release
free_threads_calls unset = reads_unset ∷ []
free_threads_calls null = []
free_threads_calls block = free_threads ∷ destroys ∷ []

-- `threadpool_free`, on the two pointers of the pool; `none` is the NULL pool.
unfoldable pub threadpool_free : Option (Pointer × Pointer) → List Release
threadpool_free none = []
threadpool_free (some (task_queue, threads)) =
    free_queue_calls task_queue ++ (free_threads_calls threads ++ (free_pool ∷ []))

-- What the allocator and the initialisers answer, with the contents of the fresh memory.
pub record Resources : Type 0 where
  pub pool_memory : Bool
  pub threads_memory : Option (List ℕ)
  pub queue_memory : Option (List Task)
  pub locks_ready : Bool

pub data Created : Type 0 where
  failed : List Release → Created
  created : Pool → Created

-- The `for` that starts the first `n` threads, in the slots from `i` on.
unfoldable pub start_from : (ℕ → ℕ) → ℕ → ℕ → List ℕ → List ℕ
start_from spawn zero i ts = ts
start_from spawn (suc n) i [] = []
start_from spawn (suc n) i (t ∷ ts) = spawn i ∷ start_from spawn n (i + 1) ts

-- `memset(pool->threads,0,sizeof(pool->threads))` clears the size of a pointer: one slot.
abbrev pub clear_first : List ℕ → List ℕ
clear_first [] = []
clear_first (t ∷ ts) = 0 ∷ ts

module _ (spawn : ℕ → ℕ) (adjuster : ℕ) where
  unfoldable pub new_pool : ℕ → ℕ → ℕ → List ℕ → List Task → Pool
  unfolding start_from
  new_pool thread_min_num thread_max_num queue_max_size threads queue = record {
    threads = start_from spawn thread_min_num 0 (clear_first threads);
    adjust_tid = adjuster;
    task_queue = queue;
    pthread_min_num = thread_min_num;
    pthread_max_num = thread_max_num;
    pthread_alive_num = thread_min_num;
    pthread_busy_num = 0;
    pthread_wait_exit_num = 0;
    queue_front = 0;
    queue_rear = 0;
    queue_size = 0;
    queue_max_size = queue_max_size;
    shutdown = false;
  }

  unfoldable pub after_threads : ℕ → ℕ → ℕ → Resources → List ℕ → Option (List Task) → Created
  unfolding threadpool_free new_pool
  after_threads mn mx qmax r ts none = failed (threadpool_free (some (null, block)))
  after_threads mn mx qmax r ts (some q) =
      if r.locks_ready
      then created (new_pool mn mx qmax ts q)
      else failed (threadpool_free (some (block, block)))

  unfoldable pub after_pool : ℕ → ℕ → ℕ → Resources → Option (List ℕ) → Created
  unfolding threadpool_free after_threads
  after_pool mn mx qmax r none = failed (threadpool_free (some (unset, null)))
  after_pool mn mx qmax r (some ts) = after_threads mn mx qmax r ts r.queue_memory

  unfoldable pub threadpool_create : ℕ → ℕ → ℕ → Resources → Created
  unfolding threadpool_free after_pool
  threadpool_create mn mx qmax r =
      if r.pool_memory
      then after_pool mn mx qmax r r.threads_memory
      else failed (threadpool_free none)

-- `threadpool_destroy` raises the flag, joins, and frees.
unfoldable pub close_pool : Pool → Pool
close_pool p = record p { shutdown = true }

unfoldable pub threadpool_destroy : Option Pool → List Call × List Release
unfolding close_pool threadpool_free
threadpool_destroy none = ([], [])
threadpool_destroy (some p) = (
  join (close_pool p).adjust_tid
      ∷ broadcast_not_empty
      ∷ map join (take p.pthread_min_num p.threads),
  threadpool_free (some (block, block)),
)

-- The getters; `none` is the -1 for a NULL pool.
unfoldable pub threadpool_get_all_pthread_num : Option Pool → Option ℕ
threadpool_get_all_pthread_num none = none
threadpool_get_all_pthread_num (some p) = some p.pthread_alive_num

unfoldable pub threadpool_get_busy_pthread_num : Option Pool → Option ℕ
threadpool_get_busy_pthread_num none = none
threadpool_get_busy_pthread_num (some p) = some p.pthread_busy_num
