-- ===== src/Threads/Cancel.antt =====
-- 009_thread/04pthread_testcancel.c: a thread that only counts, and `pthread_cancel`, by turns.
-- What `pthread_testcancel` does, by whether the thread was asked to end, is a parameter.
use linux_c_program_exercris.Prelude.{
  ℕ, zero, suc, ◌+◌, ◌≡◌, refl, Bool, true, false, List, [], ◌∷◌, if◌then◌else◌, ℤ, pos,
}

-- The rounds of the thread's loop.
pub record Thread : Type 0 where
  pub i : ℕ
  pub asked : Bool
  pub ended : Bool

pub data Turn : Type 0 where
  of_thread cancels : Turn

pub data Started : Type 0 where
  created : Thread → Started
  exits : ℤ → Started

-- The answer of `pthread_create`.
unfoldable pub testcancel_main : ℕ → Started
testcancel_main zero = created (record { i = 0; asked = false; ended = false })
testcancel_main (suc e) = exits (pos 1)

module _ (testcancel : Bool → Bool) where
  unfoldable pub step : Thread → Turn → Thread
  step t of_thread = if t.ended then t else record t { i = t.i + 1; ended = testcancel t.asked }
  step t cancels = record t { asked = true }

  unfoldable pub run : Thread → List Turn → Thread
  unfolding step
  run t [] = t
  run t (e ∷ es) = run (step t e) es

-- The turns of the thread before it is asked to end, and after.
abbrev pub turns : List Turn → ℕ
turns [] = 0
turns (of_thread ∷ es) = suc (turns es)
turns (cancels ∷ es) = turns es

abbrev pub before : List Turn → ℕ
before [] = 0
before (of_thread ∷ es) = suc (before es)
before (cancels ∷ es) = 0

abbrev pub after : List Turn → ℕ
after [] = 0
after (of_thread ∷ es) = after es
after (cancels ∷ es) = turns es

module _ (testcancel : Bool → Bool) (tests : (b : Bool) → testcancel b ≡ b) where
  over :
      (n : ℕ) (es : List Turn)
      → let t = run testcancel (record { i = n; asked = true; ended = true }) es in
        (t.i ≡ n) × (t.ended ≡ true)
  unfolding run step
  over n [] = (refl, refl)
  over n (of_thread ∷ es) = over n es
  over n (cancels ∷ es) = over n es
