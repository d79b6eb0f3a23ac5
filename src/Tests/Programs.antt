-- ===== src/Tests/Programs.antt =====
-- 002_file/05myCopyFileProgram.c and 009_thread/04pthread_testcancel.c, on concrete inputs.
use linux_c_program_exercris.Threads.Cancel.{Turn, of_thread, cancels}
use linux_c_program_exercris.Prelude.{ℕ, min, List, [], ◌∷◌}

-- A kernel that answers a read with at most two bytes.
abbrev pairs : ℕ → ℕ
pairs n = min 2 n

abbrev all_of : List ℕ → ℕ → ℕ
all_of dest n = n

abbrev five : List ℕ
five = 1 ∷ 2 ∷ 3 ∷ 4 ∷ 5 ∷ []

-- Asked twice, with turns before, between and after.
abbrev cancel_turns : List Turn
cancel_turns = of_thread ∷ of_thread ∷ cancels ∷ of_thread ∷ cancels ∷ of_thread ∷ []
