-- ===== src/Process/Orphan.antt =====
-- 004_process/07child.c and 07child_2.c: a parent that exits at once, and its child, by turns.
-- What `getppid` answers, by what the parent has done, is a parameter.
use linux_c_program_exercris.Prelude.{
  ℕ, zero, suc, Bool, true, false, Option, none, some, List, [], ◌∷◌, ◌++◌, ltb, if◌then◌else◌, ℤ,
  pos, negsuc, ◌≡◌,
}

-- A line of the child with its number and its parent's, and the line of the parent.
pub data Line : Type 0 where
  child_line : ℕ → ℕ → Line
  parent_line : ℕ → Line

-- The parent has to print, or to return, or has exited.
pub data Parent : Type 0 where
  prints returns gone : Parent

-- `left` counts the rounds of `while(nIndex--)` that are left, `none` in `while(1)`.
pub record Family : Type 0 where
  pub parent : Parent
  pub left : Option ℕ
  pub child_status : Option ℤ
  pub out : List Line

pub data Turn : Type 0 where
  of_parent of_child : Turn

-- The two processes after `fork`, or `exit(-1)`.
pub data Started : Type 0 where
  family : Family → Started
  exits : ℤ → Started

unfoldable pub begin : Option ℕ → Family
begin rounds = record { parent = prints; left = rounds; child_status = none; out = [] }

-- `fork_ok` is whether `fork` gives a child: 07child.c and 07child_2.c.
unfoldable pub child_main : Bool → Started
unfolding begin
child_main true = family (begin none)
child_main false = exits (negsuc 0)

unfoldable pub child_2_main : Bool → Started
unfolding begin
child_2_main true = family (begin (some 10))
child_2_main false = exits (negsuc 0)

-- The parent's number as long as it is there, and then that of the process that adopts orphans.
pub record IsGetppid (pid init : ℕ) (getppid : Parent → ℕ) : Type 0 where
  pub printing : getppid prints ≡ pid
  pub returning : getppid returns ≡ pid
  pub orphaned : getppid gone ≡ init

module _ (getppid : Parent → ℕ) (pid child : ℕ) where
  unfoldable pub parent_turn : Family → Parent → Family
  parent_turn f prints = record f { parent = returns; out = f.out ++ (parent_line pid ∷ []) }
  parent_turn f returns = record f { parent = gone }
  parent_turn f gone = f

  unfoldable pub child_turn : Family → Option ℤ → Option ℕ → Family
  child_turn f (some s) rounds = f
  child_turn f none none = record f { out = f.out ++ (child_line child (getppid f.parent) ∷ []) }
  child_turn f none (some zero) = record f { child_status = some (pos 0) }
  child_turn f none (some (suc n)) = record f {
    left = some n;
    out = f.out ++ (child_line child (getppid f.parent) ∷ []);
  }

  unfoldable pub step : Family → Turn → Family
  unfolding parent_turn child_turn
  step f of_parent = parent_turn f f.parent
  step f of_child = child_turn f f.child_status f.left

  unfoldable pub run : Family → List Turn → Family
  unfolding step
  run f [] = f
  run f (e ∷ es) = run (step f e) es

abbrev pub child_lines : List Line → List Line
child_lines [] = []
child_lines (child_line c p ∷ ls) = child_line c p ∷ child_lines ls
child_lines (parent_line p ∷ ls) = child_lines ls

-- The turns of the child, and the rounds and the status that `n` turns of it give.
abbrev pub child_turns : List Turn → ℕ
child_turns [] = 0
child_turns (of_parent ∷ es) = child_turns es
child_turns (of_child ∷ es) = suc (child_turns es)

abbrev pub rounds_in : Option ℕ → ℕ → ℕ
rounds_in none n = n
rounds_in (some m) n = if ltb n m then n else m

abbrev pub status_after : Option ℕ → ℕ → Option ℤ
status_after none n = none
status_after (some m) n = if ltb m n then some (pos 0) else none
