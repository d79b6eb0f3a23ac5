-- ===== src/Signals/Kernel.antt =====
-- The signals of a process, as POSIX documents them: an interface that the programs take. A signal
-- is pending or not, so a second one of the same number leaves no trace.
use linux_c_program_exercris.Prelude.{ℕ, ◌≡◌, Bool, true, false, ◌&&◌, ◌||◌, ◌==◌, if◌then◌else◌}

abbrev pub sigkill : ℕ
sigkill = 9

abbrev pub sigstop : ℕ
sigstop = 19

abbrev pub sigcont : ℕ
sigcont = 18

-- SIGSTOP, SIGTSTP, SIGTTIN and SIGTTOU.
abbrev pub is_stop : ℕ → Bool
is_stop f = f == sigstop || (f == 20 || (f == 21 || f == 22))

-- SIGCHLD, SIGURG and SIGWINCH, and SIGCONT for a process that runs: without a handler nothing
-- happens, and the kernel may drop them when they arrive.
abbrev pub is_ignored : ℕ → Bool
is_ignored f = f == 17 || (f == sigcont || (f == 23 || f == 28))

-- SIGCONT discards stop signals that are pending, and a stop signal a pending SIGCONT.
abbrev pub discards : ℕ → ℕ → Bool
discards g f = (g == sigcont && is_stop f) || (is_stop g && f == sigcont)

pub record SignalKernel : Type 1 where
  pub Signals : Type 0
  pub pending : Signals → ℕ → Bool
  pub blocked : Signals → ℕ → Bool
  -- A signal arrives; its handler begins, with the mask of its action; the handler returns to the
  -- mask that was in effect before.
  pub raise : Signals → ℕ → Signals
  pub deliver : Signals → ℕ → (ℕ → Bool) → Signals
  pub sigreturn : Signals → (ℕ → Bool) → Signals
  -- The default action of a signal that is not caught is taken.
  pub act : Signals → ℕ → Signals
  -- `sigprocmask(SIG_BLOCK, …)`; SIGKILL and SIGSTOP are never blocked by it.
  pub block : Signals → (ℕ → Bool) → Signals
  -- Nothing but the signal that arrives becomes pending.
  pub raise-only :
      (s : Signals) (g f : ℕ) → pending (raise s g) f ≡ true → ((f == g) || pending s f) ≡ true
  -- A blocked signal becomes and stays pending, if it is not ignored or discarded.
  pub pending-raise :
      (s : Signals) (g f : ℕ)
      → blocked s f ≡ true
      → is_ignored f ≡ false
      → discards g f ≡ false
      → pending (raise s g) f ≡ ((f == g) || pending s f)
  pub blocked-raise : (s : Signals) (g f : ℕ) → blocked (raise s g) f ≡ blocked s f
  -- The signal of the handler is blocked besides its mask.
  pub pending-act :
      (s : Signals) (g f : ℕ) → pending (act s g) f ≡ (if f == g then false else pending s f)
  pub blocked-act : (s : Signals) (g f : ℕ) → blocked (act s g) f ≡ blocked s f
  pub pending-deliver :
      (s : Signals) (g : ℕ) (mask : ℕ → Bool) (f : ℕ)
      → pending (deliver s g mask) f ≡ (if f == g then false else pending s f)
  pub blocked-deliver :
      (s : Signals) (g : ℕ) (mask : ℕ → Bool) (f : ℕ)
      → blocked (deliver s g mask) f ≡ ((f == g) || (mask f || blocked s f))
  pub pending-sigreturn :
      (s : Signals) (mask : ℕ → Bool) (f : ℕ) → pending (sigreturn s mask) f ≡ pending s f
  pub blocked-sigreturn :
      (s : Signals) (mask : ℕ → Bool) (f : ℕ) → blocked (sigreturn s mask) f ≡ mask f
  pub pending-block :
      (s : Signals) (mask : ℕ → Bool) (f : ℕ) → pending (block s mask) f ≡ pending s f
  pub blocked-block :
      (s : Signals) (mask : ℕ → Bool) (f : ℕ)
      → blocked (block s mask) f
        ≡ (if f == sigkill || f == sigstop then blocked s f else mask f || blocked s f)
