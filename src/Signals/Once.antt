-- ===== src/Signals/Once.antt =====
-- 007singnal/04SIGINT_sigaction.c and 04SIGUSR1_2_sigaction.c: the calls of the handler, whatever
-- signals arrive.
use linux_c_program_exercris.Prelude.{
  ℕ, zero, suc, ◌+◌, ◌≤◌, ◌≡◌, Bool, true, false, List, [], ◌∷◌, ◌++◌,
}
use linux_c_program_exercris.Signals.Pending.{Said, countdown, my_sa_handler}
use linux_c_program_exercris.Signals.Kernel.{SignalKernel}
use linux_c_program_exercris.Signals.Handler.{sigquit, sigtstp, Frame, Process}

-- `n` whole calls of the handler.
abbrev pub runs : ℕ → ℕ → List Said
runs sig zero = []
runs sig (suc n) = runs sig n ++ my_sa_handler sig

abbrev pub bit : Bool → ℕ
bit true = 1
bit false = 0

module _ (k : SignalKernel) (sig : ℕ) where
  open k use {
    Signals, pending, blocked, raise, deliver, sigreturn, raise-only, blocked-raise,
    pending-deliver, blocked-deliver, pending-sigreturn, blocked-sigreturn,
  }

  -- The three signals that wait while the handler runs.
  abbrev pub HeldBack : Signals → Type 0
  HeldBack s = (blocked s sig ≡ true) × (blocked s sigtstp ≡ true) × (blocked s sigquit ≡ true)

  -- Where the handler stands: not called, or in one call with `index` numbers to print.
  abbrev pub Shape : List Said → ℕ → Signals → List Frame → Type 0
  Shape out entered s [] = out ≡ runs sig entered
  Shape out entered s (f ∷ []) = (out ++ countdown f.index ≡ runs sig entered) × HeldBack s
  Shape out entered s (f ∷ g ∷ fs) = ⊥

  record Inv (p : Process k sig) : Type 0 where
    shape : Shape p.out p.entered p.signals p.stack
    counted : p.entered + bit (pending p.signals sig) ≤ p.arrived
