-- ===== src/Threads/Stack.antt =====
-- 009_thread/07pthread_attr_getstackaddr.c: `main`. The attributes' answers are parameters.
use linux_c_program_exercris.Prelude.{ℕ, zero, suc, List, [], ◌∷◌, ◌++◌, ◌==◌, if◌then◌else◌}

pub data Detach : Type 0 where
  detached joinable unknown : Detach

pub data Shown : Type 0 where
  stack : ℕ → ℕ → Shown
  state : Detach → Shown
  number : ℕ → Shown

-- PTHREAD_CREATE_JOINABLE and PTHREAD_CREATE_DETACHED.
unfoldable pub detach_state : ℕ → Detach
detach_state s = if s == 1 then detached else if s == 0 then joinable else unknown

-- `return num++;` returns the number before the increment.
unfoldable pub add : ℕ → ℕ
add num = num

-- The thread: `while(n--) printf(add(n))`.
unfoldable pub thread_func : ℕ → List Shown
unfolding add
thread_func zero = []
thread_func (suc n) = number (add n) ∷ thread_func n

-- What `pthread_attr_getstack` and `pthread_attr_getdetachstate` answer.
pub record Attributes : Type 0 where
  pub stackaddr : ℕ
  pub stacksize : ℕ
  pub detachstate : ℕ

unfoldable pub show_attributes : Attributes → List Shown
unfolding detach_state
show_attributes a = stack a.stackaddr a.stacksize ∷ state (detach_state a.detachstate) ∷ []

-- The output of `main` and of its thread, and the blocks taken and freed.
pub record StackMain : Type 0 where
  pub main_shows : List Shown
  pub thread_shows : List Shown
  pub allocated : List ℕ
  pub freed : List ℕ

-- `pthread_attr_getstack` writes its answer over the address of the block.
unfoldable pub stack_main : ℕ → Attributes → Attributes → StackMain
unfolding show_attributes thread_func
stack_main block before after = record {
  main_shows = show_attributes before ++ show_attributes after;
  thread_shows = thread_func 3;
  allocated = block ∷ [];
  freed = after.stackaddr ∷ [];
}
