-- ===== src/Process/Kernel.antt =====
-- The descriptors of a process, as POSIX documents them: an interface that the programs take. What
-- a descriptor stands for, an open file or the end of a pipe, is a number. There is no limit on the
-- number of descriptors.
use linux_c_program_exercris.Prelude.{ℕ, ◌<◌, ◌≡◌, ◌≢◌, Option, none, some, ◌==◌, if◌then◌else◌}

pub record Kernel : Type 1 where
  pub Table : Type 0
  -- The open file behind a descriptor.
  pub file_at : Table → ℕ → Option ℕ
  -- `open`, `dup`, `dup2`, `close`, and `pipe`, with its end to read and its end to write.
  pub open_file : Table → ℕ → ℕ × Table
  pub dup : Table → ℕ → ℕ × Table
  pub dup2 : Table → ℕ → ℕ → Table
  pub close : Table → ℕ → Table
  pub pipe : Table → ℕ → ℕ → ℕ × ℕ × Table
  -- A descriptor is opened at the lowest free number, a copy at some free number.
  pub open_free : (t : Table) (x : ℕ) → file_at t (open_file t x).0 ≡ none
  pub open_lowest : (t : Table) (x g : ℕ) → g < (open_file t x).0 → file_at t g ≢ none
  pub dup_free : (t : Table) (f : ℕ) → file_at t (dup t f).0 ≡ none
  pub pipe_free :
      (t : Table) (r w : ℕ)
      → (file_at t (pipe t r w).0 ≡ none)
        × (file_at t (pipe t r w).1 ≡ none)
        × ((pipe t r w).0 ≢ (pipe t r w).1)
  -- What each call changes.
  pub file_at-open :
      (t : Table) (x g : ℕ)
      → file_at (open_file t x).1 g ≡ (if g == (open_file t x).0 then some x else file_at t g)
  pub file_at-dup :
      (t : Table) (f x g : ℕ)
      → file_at t f ≡ some x
      → file_at (dup t f).1 g ≡ (if g == (dup t f).0 then some x else file_at t g)
  pub file_at-dup2 :
      (t : Table) (f h x g : ℕ)
      → file_at t f ≡ some x
      → file_at (dup2 t f h) g ≡ (if g == h then some x else file_at t g)
  pub file_at-close :
      (t : Table) (f g : ℕ) → file_at (close t f) g ≡ (if g == f then none else file_at t g)
  pub file_at-pipe :
      (t : Table) (r w g : ℕ)
      → file_at (pipe t r w).2 g ≡ (
          if g == (pipe t r w).0
          then some r
          else if g == (pipe t r w).1
          then some w
          else file_at t g)

-- `fork` answers -1, 0 in the child, or the child's number.
pub data Forked : Type 0 where
  fork_failed in_child : Forked
  in_parent : ℕ → Forked
