-- ===== src/Files/Pipe.antt =====
-- 005_process_IPC/01pipe_nonblock.c: the child that reads a pipe which does not block.
use linux_c_program_exercris.Prelude.{
  ℕ, zero, suc, ◌≡◌, Bool, true, false, Option, none, some, List, [], ◌∷◌, ◌++◌, ◌==◌,
  if◌then◌else◌, ℤ, pos, negsuc, replicate, refl,
}
use linux_c_program_exercris.Echo.{Read, received, read_error}

abbrev pub eagain : ℕ
eagain = 11

pub data Output : Type 0 where
  try_again : Output  -- write(STDOUT_FILENO,"try again!\n",…)
  closes_pipe : Output
  child_read : List ℕ → Output  -- the formatted data

-- The output and the exit status; `none` while the last read has not answered.
unfoldable pub read_pipe : List Read → List Output × Option ℤ
read_pipe [] = ([], none)
read_pipe (received bs ∷ rs) = (closes_pipe ∷ child_read bs ∷ [], some (pos 0))
read_pipe (read_error e ∷ rs) =
    let (out, status) = read_pipe rs in
    if e == eagain then (try_again ∷ out, status) else ([], some (negsuc 1))

-- The three ends of the process: no pipe, no child, the parent's, the child's.
pub data Forked : Type 0 where
  fork_failed in_child in_parent : Forked

unfoldable pub pipe_main : Bool → Forked → List Read → List Output × Option ℤ
unfolding read_pipe
pipe_main false f rs = ([], some (negsuc 0))
pipe_main true fork_failed rs = ([], some (negsuc 1))
pipe_main true in_parent rs = ([], some (pos 0))
pipe_main true in_child rs = read_pipe rs

-- As often as the pipe has nothing, the child says so and reads again; the first data ends the
-- loop, after which the pipe is closed, the data shown once, and the child exits with 0.
pub read_pipe_shows :
    (k : ℕ) (bs : List ℕ) (rs : List Read)
    → read_pipe (replicate k (read_error eagain) ++ (received bs ∷ rs))
      ≡ (replicate k try_again ++ (closes_pipe ∷ child_read bs ∷ []), some (pos 0))
unfolding read_pipe
read_pipe_shows zero bs rs = refl
read_pipe_shows (suc k) bs rs = rw (read_pipe_shows k bs rs)
