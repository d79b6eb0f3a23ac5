-- ===== src/Signals/Sleep.antt =====
-- 007singnal/08sigsuspend.c: `mysleep`. The state is the process's: what handles SIGALRM, which
-- signals are blocked, and the alarm that is set.
use linux_c_program_exercris.Prelude.{ℕ, Bool, true, false, ◌≡◌, refl, arith, not, ◌&&◌, ◌==◌}
use linux_c_program_exercris.Signals.Pending.{update}

abbrev pub sigalrm : ℕ
sigalrm = 14

-- The actions that matter: `do_sig` of this file, or that of the caller.
pub data Action : Type 0 where
  do_sig : Action
  other : ℕ → Action

pub record Process : Type 0 where
  pub alarm_action : Action
  pub blocked : ℕ → Bool
  pub alarm_left : ℕ

-- What happens in `sigsuspend`: it returns with a signal, `left` seconds before the alarm. The
-- mask under which it waits is in effect only there.
pub record Slept : Type 0 where
  pub process : Process
  pub unslept : ℕ
  pub armed : ℕ → Bool  -- the mask when the alarm is set
  pub suspended : ℕ → Bool  -- the mask of the wait

unfoldable pub mysleep : Process → ℕ → ℕ → Slept
mysleep p secs left =
    let caught = record p { alarm_action = do_sig } in
    let masked = record caught { blocked = update caught.blocked sigalrm true } in
    let timed = record masked { alarm_left = secs } in
    let suspendmask = update p.blocked sigalrm false in
    let woken = record timed { alarm_left = left } in
    let unsleepsec = woken.alarm_left in
    let stopped = record woken { alarm_left = 0 } in
    let handled = record stopped { alarm_action = p.alarm_action } in
    let unmasked = record handled { blocked = p.blocked } in
    record {
      process = unmasked;
      unslept = unsleepsec;
      armed = masked.blocked;
      suspended = suspendmask;
    }

-- A sleep leaves no trace: the handler of SIGALRM and the mask are the caller's again, and no
-- alarm is left; it returns the seconds not slept. From before the alarm is set SIGALRM is
-- blocked, and it is let in only by the wait, which blocks the caller's other signals and no more.
pub mysleep_restores :
    (p : Process) (secs left : ℕ)
    → let s = mysleep p secs left in
      (s.process ≡ record p { alarm_left = 0 })
      × (s.unslept ≡ left)
      × (s.armed sigalrm ≡ true)
      × (s.suspended sigalrm ≡ false)
      × ((f : ℕ) → s.suspended f ≡ (p.blocked f && not (f == sigalrm)))
unfolding mysleep
mysleep_restores p secs left = (refl, refl, refl, refl, λ f. ground arith)
