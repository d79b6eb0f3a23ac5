-- ===== src/Signals/Handler.antt =====
-- 007singnal/04SIGINT_sigaction.c and 04SIGUSR1_2_sigaction.c: a handler that is caught, and when
-- it runs. The two programs differ in the signal.
use linux_c_program_exercris.Prelude.{
  ℕ, zero, suc, ◌+◌, Bool, true, false, not, ◌&&◌, List, [], ◌∷◌, ◌++◌, ◌==◌, if◌then◌else◌, ℤ,
  negsuc,
}
use linux_c_program_exercris.Signals.Pending.{Said, handler, count, update}
use linux_c_program_exercris.Signals.Kernel.{SignalKernel}

abbrev pub sigint : ℕ
sigint = 2

abbrev pub sigquit : ℕ
sigquit = 3

abbrev pub sigusr1 : ℕ
sigusr1 = 10

abbrev pub sigtstp : ℕ
sigtstp = 20

-- `sigAction.sa_mask` of both.
unfoldable pub sa_mask : ℕ → Bool
sa_mask = update (update (λ _. false) sigtstp true) sigquit true

-- `main` waits for ever with a signal caught and a mask for its handler, or exits.
pub data Started : Type 0 where
  catches : ℕ → (ℕ → Bool) → Started
  exits : ℤ → Started

-- The answer of `sigaction`.
unfoldable pub sigint_main : Bool → Started
unfolding sa_mask
sigint_main true = catches sigint sa_mask
sigint_main false = exits (negsuc 0)

unfoldable pub sigusr1_main : Bool → Started
unfolding sa_mask
sigusr1_main true = catches sigusr1 sa_mask
sigusr1_main false = exits (negsuc 0)

-- A call of the handler that has not returned: `nIndex`, and the mask to return to.
pub record Frame : Type 0 where
  pub index : ℕ
  pub saved : ℕ → Bool

-- What may happen: a signal arrives, the kernel takes a signal that is pending, the program goes on.
pub data Event : Type 0 where
  arrives takes : ℕ → Event
  goes_on : Event

module _ (k : SignalKernel) (sig : ℕ) where
  open k use {
    Signals, pending, blocked, raise, deliver, sigreturn, pending-deliver, blocked-deliver,
    pending-sigreturn, blocked-sigreturn,
  }

  -- The process: `entered` and `arrived` count the calls of the handler and the signals for it.
  pub record Process : Type 0 where
    pub signals : Signals
    pub stack : List Frame
    pub out : List Said
    pub ended : Bool
    pub entered : ℕ
    pub arrived : ℕ

  -- The handler begins and prints its number; a signal that is not caught ends the process.
  unfoldable pub take_signal : Process → ℕ → Process
  unfolding sa_mask
  take_signal p g =
      if g == sig
      then record p {
        signals = deliver p.signals sig sa_mask;
        stack = record { index = 3; saved = blocked p.signals } ∷ p.stack;
        out = p.out ++ (handler sig ∷ []);
        entered = p.entered + 1;
      }
      else record p { ended = true }

  -- A round of `while(nIndex)`, or the return; `main` only sleeps.
  unfoldable pub go_on : Process → List Frame → Process
  go_on p [] = p
  go_on p (f ∷ fs) = elim f.index [
    | zero ↦ record p { signals = sigreturn p.signals f.saved; stack = fs }
    | suc n ↦ record p { stack = record f { index = n } ∷ fs; out = p.out ++ (count (suc n) ∷ []) }
  ]

  -- The kernel takes a pending signal that is not blocked; nothing happens after the end.
  unfoldable pub step : Process → Event → Process
  unfolding take_signal go_on
  step p (arrives g) = if p.ended then p else record p {
    signals = raise p.signals g;
    arrived = if g == sig then p.arrived + 1 else p.arrived;
  }
  step p (takes g) =
      if not p.ended && (pending p.signals g && not (blocked p.signals g))
      then take_signal p g
      else p
  step p goes_on = if p.ended then p else go_on p p.stack

  unfoldable pub run : Process → List Event → Process
  unfolding step
  run p [] = p
  run p (e ∷ es) = run (step p e) es

  unfoldable pub begin : Signals → Process
  begin s = record { signals = s; stack = []; out = []; ended = false; entered = 0; arrived = 0 }
