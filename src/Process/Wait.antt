-- ===== src/Process/Wait.antt =====
-- 004_process/07wait.c and 07wait_1.c: a child that exits, and a parent that does not wait for it,
-- or that waits in an endless loop, by turns.
use linux_c_program_exercris.Prelude.{
  ℕ, zero, suc, Bool, true, false, List, [], ◌∷◌, ◌++◌, ℤ, pos, negsuc, ◌≡◌, Option, none, some,
}
use linux_c_program_exercris.Process.Orphan.{Turn, of_parent, of_child}

-- Before its line, asleep, exited and not waited for, and gone.
pub data Child : Type 0 where
  starts sleeps zombie reaped : Child

pub data Line : Type 0 where
  child_line parent_line : Line
  waited : ℤ → Line

-- The parent of 07wait_1.c is at its line, or in `wait`.
pub data Parent : Type 0 where
  shows waits : Parent

pub record Family : Type 0 where
  pub parent : Parent
  pub child : Child
  pub out : List Line

pub data Started : Type 0 where
  family : Family → Started
  exits : ℤ → Started

-- Both programs after `fork`, or `exit(-1)`.
unfoldable pub begin : Family
begin = record { parent = shows; child = starts; out = [] }

unfoldable pub wait_main : Bool → Started
unfolding begin
wait_main true = family begin
wait_main false = exits (negsuc 0)

unfoldable pub child_turn : Family → Child → Family
child_turn f starts = record f { child = sleeps; out = f.out ++ (child_line ∷ []) }
child_turn f sleeps = record f { child = zombie }
child_turn f zombie = f
child_turn f reaped = f

-- A round of the parent of 07wait.c.
unfoldable pub show_turn : Family → Family
show_turn f = record f { out = f.out ++ (parent_line ∷ []) }

-- `wait` blocks while the child lives, takes it once when it has exited, and is -1 after that.
pub record IsWait (pid : ℕ) (wait : Child → Option (ℤ × Child)) : Type 0 where
  pub awake : wait starts ≡ none
  pub asleep : wait sleeps ≡ none
  pub takes : wait zombie ≡ some (pos pid, reaped)
  pub nobody : wait reaped ≡ some (negsuc 0, reaped)

module _ (wait : Child → Option (ℤ × Child)) where
  -- What `wait` does, `none` if it blocks; the answer is printed.
  unfoldable pub wait_for : Family → Option (ℤ × Child) → Family
  wait_for f none = f
  wait_for f (some (answer, child)) = record {
    parent = shows;
    child = child;
    out = f.out ++ (waited answer ∷ []);
  }

  unfoldable pub wait_turn : Family → Parent → Family
  unfolding wait_for
  wait_turn f shows = record f { parent = waits; out = f.out ++ (parent_line ∷ []) }
  wait_turn f waits = wait_for f (wait f.child)

  unfoldable pub wait_run : Family → List Turn → Family
  unfolding wait_turn child_turn
  wait_run f [] = f
  wait_run f (of_parent ∷ es) = wait_run (wait_turn f f.parent) es
  wait_run f (of_child ∷ es) = wait_run (child_turn f f.child) es

unfoldable pub show_run : Family → List Turn → Family
unfolding show_turn child_turn
show_run f [] = f
show_run f (of_parent ∷ es) = show_run (show_turn f) es
show_run f (of_child ∷ es) = show_run (child_turn f f.child) es

-- What `wait` has answered so far.
abbrev pub answers : List Line → List ℤ
answers [] = []
answers (child_line ∷ ls) = answers ls
answers (parent_line ∷ ls) = answers ls
answers (waited n ∷ ls) = n ∷ answers ls

-- Where a child is that nobody waits for, after `n` turns.
abbrev pub life : ℕ → Child
life zero = starts
life (suc n) = after_first n
  where
    after_first : ℕ → Child
    after_first zero = sleeps
    after_first (suc n) = zombie
