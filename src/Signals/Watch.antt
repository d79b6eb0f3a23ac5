-- ===== src/Signals/Watch.antt =====
-- 007singnal/03sigprocmask.c: `main`, which blocks five signals and then shows the pending ones.
use linux_c_program_exercris.Prelude.{
  ℕ, ◌≡◌, refl, sym, ap, ◌∙◌, inl, inr, Bool, true, false, not, ◌&&◌, ◌||◌, List, [], ◌∷◌, ◌++◌,
  arith, ◌==◌, if◌then◌else◌, Bool-cases,
}
use linux_c_program_exercris.Signals.Pending.{
  Printed, print_pend_signal_set, printed_set, proc_mask, digits, members,
}
use linux_c_program_exercris.Signals.Kernel.{
  SignalKernel, sigkill, sigstop, sigcont, is_stop, is_ignored, discards,
}

-- A signal arrives, the kernel takes one, `main` prints the set.
pub data Event : Type 0 where
  arrives takes : ℕ → Event
  prints : Event

module _ (k : SignalKernel) where
  open k use {
    Signals, pending, blocked, raise, block, act, raise-only, pending-raise, blocked-raise,
    pending-block, blocked-block, pending-act, blocked-act,
  }

  pub record Process : Type 0 where
    pub signals : Signals
    pub out : List (List Printed)
    pub stopped : Bool
    pub ended : Bool

  unfoldable pub main : Signals → Process
  unfolding proc_mask
  main s = record { signals = block s proc_mask; out = []; stopped = false; ended = false }

  -- No handler is installed: a signal that is taken is ignored, stops the process, or ends it.
  unfoldable pub take_default : Process → ℕ → Process
  take_default p g =
      if is_ignored g
      then record p { signals = act p.signals g }
      else if is_stop g
      then record p { signals = act p.signals g; stopped = true }
      else record p { ended = true }

  -- SIGCONT continues a process when it arrives; one that is stopped takes nothing but SIGKILL.
  unfoldable pub step : Process → Event → Process
  unfolding print_pend_signal_set
  step p (arrives g) =
      if p.ended
      then p
      else record p { signals = raise p.signals g; stopped = p.stopped && not (g == sigcont) }
  step p (takes g) =
      if not p.ended
        && ((not p.stopped || g == sigkill) && (pending p.signals g && not (blocked p.signals g)))
      then take_default p g
      else p
  step p prints =
      if p.ended || p.stopped
      then p
      else record p { out = p.out ++ (print_pend_signal_set (pending p.signals) ∷ []) }

  unfoldable pub run : Process → List Event → Process
  unfolding step
  run p [] = p
  run p (e ∷ es) = run (step p e) es

  -- Whether a signal is among the arrivals.
  abbrev pub arrived : ℕ → List Event → Bool
  arrived g [] = false
  arrived g (arrives h ∷ es) = g == h || arrived g es
  arrived g (takes h ∷ es) = arrived g es
  arrived g (prints ∷ es) = arrived g es

  abbrev now : ℕ → Event → Bool
  now g (arrives h) = g == h
  now g (takes h) = false
  now g prints = false

  -- SIGINT, SIGQUIT and SIGTERM.
  abbrev pub waits : ℕ → Bool
  waits f = f == 2 || (f == 3 || f == 15)

  take_default-waits :
      (p : Process) (g f : ℕ)
      → (f == g) ≡ false
      → (pending (take_default p g).signals f ≡ pending p.signals f)
        × (blocked (take_default p g).signals f ≡ blocked p.signals f)
  unfolding take_default
  take_default-waits p g f other = elim (Bool-cases (is_ignored g)) [
    | inl heeded ↦
        simp heeded (ground (arith, pending-act p.signals g f), blocked-act p.signals g f)
    | inr some_effect ↦ elim (Bool-cases (is_stop g)) [
      | inl stops ↦
          simp (some_effect, stops)
            (ground (arith, pending-act p.signals g f), blocked-act p.signals g f)
      | inr ends ↦ simp (some_effect, ends) (refl, refl)
    ]
  ]

  step-waits :
      (p : Process) (e : Event) (f : ℕ)
      → waits f ≡ true
      → blocked p.signals f ≡ true
      → (step p e).ended ≡ false
      → (pending (step p e).signals f ≡ (now f e || pending p.signals f))
        × (blocked (step p e).signals f ≡ true)
        × (p.ended ≡ false)
  unfolding step
  step-waits p (arrives h) f w b o = elim (Bool-cases p.ended) [
    | inl over ↦ let bad : true ≡ false = simp over at o in absurd (ground arith)
    | inr live ↦
        let kept : discards h f ≡ false = ground arith in
        let heard : is_ignored f ≡ false = ground arith in
        simp live (pending-raise p.signals h f b heard kept, blocked-raise p.signals h f ∙ b, refl)
  ]
  step-waits p (takes h) f w b o =
      elim (Bool-cases (
        not p.ended
        && ((not p.stopped || h == sigkill)
            && (pending p.signals h && not (blocked p.signals h))))) [
              | inr kept ↦ let live : p.ended ≡ false = simp kept at o in simp kept (refl, b, live)
              | inl taken ↦
                  let live : p.ended ≡ false = ground arith in
                  let open_one : blocked p.signals h ≡ false = ground arith in
                  let t = take_default-waits p h f (apart f h b open_one) in
                  simp taken (t.0, t.1 ∙ b, live)
            ]
    where
      apart :
          (f h : ℕ) → blocked p.signals f ≡ true → blocked p.signals h ≡ false → (f == h) ≡ false
      apart f h b c = elim (Bool-cases (f == h)) [
        | inr other ↦ other
        | inl e ↦
            let same : f ≡ h = ground arith in
            let bad : true ≡ false = sym b ∙ ap (blocked p.signals) same ∙ c in
            absurd (ground arith)
      ]
  step-waits p prints f w b o = elim (Bool-cases p.ended) [
    | inl over ↦ let bad : true ≡ false = simp over at o in absurd (ground arith)
    | inr live ↦ elim (Bool-cases p.stopped) [
      | inl still ↦ simp (live, still) (refl, b, refl)
      | inr goes ↦ simp (live, goes) (refl, b, refl)
    ]
  ]

  -- A process that has ended stays so.
  step-ended : (p : Process) (e : Event) → p.ended ≡ true → (step p e).ended ≡ true
  unfolding step
  step-ended p (arrives h) o = simp o refl
  step-ended p (takes h) o = simp o refl
  step-ended p prints o = simp o refl

  run-live : (p : Process) (es : List Event) → (run p es).ended ≡ false → p.ended ≡ false
  unfolding run
  run-live p [] o = o
  run-live p (e ∷ es) o = elim (Bool-cases p.ended) [
    | inr live ↦ live
    | inl over ↦
        let bad : true ≡ false = sym (step-ended p e over) ∙ run-live (step p e) es o in
        absurd (ground arith)
  ]

  run-waits :
      (p : Process) (es : List Event) (f : ℕ)
      → waits f ≡ true
      → blocked p.signals f ≡ true
      → (run p es).ended ≡ false
      → (pending (run p es).signals f ≡ (arrived f es || pending p.signals f))
        × (blocked (run p es).signals f ≡ true)
  unfolding run
  run-waits p [] f w b o = (refl, b)
  run-waits p (e ∷ es) f w b o =
      let (now_so, still, live) = step-waits p e f w b (run-live (step p e) es o) in
      let (later, held) = run-waits (step p e) es f w still o in
      (later ∙ ap (λ x. arrived f es || x) now_so ∙ joined f e es (pending p.signals f), held)
    where
      joined :
          (f : ℕ) (e : Event) (es : List Event) (b : Bool)
          → (arrived f es || (now f e || b)) ≡ (arrived f (e ∷ es) || b)
      joined f (arrives h) es b = ground arith
      joined f (takes h) es b = refl
      joined f prints es b = refl

  -- As long as the process lives: the next line, unless it is stopped, shows of the signals 1 to 32,
  -- in order, those that are pending; and SIGINT, SIGQUIT and SIGTERM are blocked, and each of them
  -- is pending exactly if it was at the start or has arrived since, however often. SIGTSTP is blocked
  -- by `main` as well, and SIGSTOP is blocked or not as before, although it is in the mask.
  pub masked_stay_pending :
      (s : Signals) (es : List Event) (f : ℕ)
      → waits f ≡ true
      → (run (main s) es).ended ≡ false
      → let p = run (main s) es in
        ((step p prints).out ≡ (
          if p.stopped then p.out else p.out ++ (print_pend_signal_set (pending p.signals) ∷ [])))
        × (digits (print_pend_signal_set (pending p.signals)) ≡ members (pending p.signals) 32 1)
        × (blocked p.signals f ≡ true)
        × (pending p.signals f ≡ (arrived f es || pending s f))
        × (blocked (main s).signals 20 ≡ true)
        × (blocked (main s).signals sigstop ≡ blocked s sigstop)
  unfolding main step proc_mask
  masked_stay_pending s es f w o =
      let p = run (main s) es in
      let start : blocked (main s).signals f ≡ true = ground (arith, blocked-block s proc_mask f) in
      let (waiting, held) = run-waits (main s) es f w start o in
      (
        shown p o,
        (printed_set (pending p.signals)).0,
        held,
        waiting ∙ ap (λ b. arrived f es || b) (pending-block s proc_mask f),
        ground (arith, blocked-block s proc_mask 20),
        ground (arith, blocked-block s proc_mask sigstop),
      )
    where
      shown :
          (p : Process)
          → p.ended ≡ false
          → (step p prints).out ≡ (
              if p.stopped
              then p.out
              else p.out ++ (print_pend_signal_set (pending p.signals) ∷ []))
      shown p live = elim (Bool-cases p.stopped) [
        | inl still ↦ simp (live, still) refl
        | inr goes ↦ simp (live, goes) refl
      ]
