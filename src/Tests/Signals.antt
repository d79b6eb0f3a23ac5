-- ===== src/Tests/Signals.antt =====
-- Signals of a process kept as two sets, and a handler that is called while others wait.
use linux_c_program_exercris.Prelude.{
  ℕ, ◌+◌, ◌%◌, ◌≡◌, refl, ◌≢◌, Bool, false, ◌||◌, List, [], ◌∷◌, ◌++◌, arith, ◌==◌, if◌then◌else◌,
  take, drop, replicate, true,
}
use linux_c_program_exercris.Signals.Pending.{digits, members, print_pend_signal_set, proc_mask}
use linux_c_program_exercris.Signals.Watch
use linux_c_program_exercris.Signals.Kernel.{SignalKernel, sigkill, sigstop}
use linux_c_program_exercris.Signals.Handler.{Event, arrives, takes, goes_on, run, sigint, sigquit}
use linux_c_program_exercris.Files.Mapped.{Student, write_student}
use linux_c_program_exercris.Files.Shared.{
  stores, writer_stores, show_student, name_bytes, student_whole_or_torn, round_stores,
}
use linux_c_program_exercris.Sockets.Client.{text_of}

record Sets : Type 0 where
  pend : ℕ → Bool
  mask : ℕ → Bool

abbrev kernel : SignalKernel
kernel = record {
  Signals = Sets;
  pending = λ s. s.pend;
  blocked = λ s. s.mask;
  raise = λ s g. record s { pend = λ f. f == g || s.pend f };
  deliver = λ s g m. record {
    pend = λ f. if f == g then false else s.pend f;
    mask = λ f. f == g || (m f || s.mask f);
  };
  sigreturn = λ s m. record s { mask = m };
  block = λ s m. record s {
    mask = λ f. if f == sigkill || f == sigstop then s.mask f else m f || s.mask f;
  };
  act = λ s g. record s { pend = λ f. if f == g then false else s.pend f };
  raise-only = λ s g f e. e;
  pending-raise = λ s g f b i d. refl;
  pending-act = λ s g f. refl;
  blocked-act = λ s g f. refl;
  blocked-raise = λ s g f. refl;
  pending-deliver = λ s g m f. refl;
  blocked-deliver = λ s g m f. refl;
  pending-sigreturn = λ s m f. refl;
  blocked-sigreturn = λ s m f. refl;
  pending-block = λ s m f. refl;
  blocked-block = λ s m f. refl;
}

abbrev quiet : Sets
quiet = record { pend = λ f. false; mask = λ f. false }

-- Two more arrive during the call, and SIGQUIT.
abbrev events : List Event
events =
    arrives sigint
    ∷ takes sigint
    ∷ goes_on
    ∷ arrives sigint
    ∷ arrives sigint
    ∷ arrives sigquit
    ∷ takes sigint
    ∷ takes sigquit
    ∷ goes_on
    ∷ []

-- A number as its last digit.
abbrev digit : ℕ → List ℕ
digit n = (48 + n % 10) ∷ []

abbrev zeros : Student
zeros = record { id = 0; name = replicate 20 0; sex = 0 }

student_whole_or_torn_example :
    let whole = stores (writer_stores digit 4) zeros in
    let torn = stores (take 8 (round_stores digit 4)) whole in
    (show_student whole ≡ write_student digit 3)
    × (torn.id ≡ 4)
    × (torn.name ≡ take 7 (name_bytes digit 4) ++ drop 7 whole.name)
    × (torn.sex ≡ (write_student digit 3).sex)
    × (torn.sex ≢ (write_student digit 4).sex)
unfolding text_of write_student
student_whole_or_torn_example =
    student_whole_or_torn digit zeros 3 7 refl refl (omega arith) (omega arith) (omega arith)

-- Two times SIGINT, a print after each; then a child ends, which is ignored, and SIGTSTP and SIGCONT
-- arrive.
abbrev watched : List Watch.Event
watched =
    Watch.arrives sigint
    ∷ Watch.prints
    ∷ Watch.arrives sigint
    ∷ Watch.takes sigint
    ∷ Watch.prints
    ∷ Watch.arrives 17
    ∷ Watch.takes 17
    ∷ Watch.arrives 20
    ∷ Watch.arrives 18
    ∷ Watch.takes 18
    ∷ Watch.prints
    ∷ []

masked_stay_pending_example :
    let p = Watch.run kernel (Watch.main kernel quiet) watched in
    ((Watch.step kernel p Watch.prints).out
      ≡ (if p.stopped then p.out else p.out ++ (print_pend_signal_set p.signals.pend ∷ [])))
    × (digits (print_pend_signal_set p.signals.pend) ≡ members p.signals.pend 32 1)
    × (p.signals.mask 2 ≡ true)
    × (p.signals.pend 2 ≡ (Watch.arrived kernel 2 watched || false))
    × ((Watch.main kernel quiet).signals.mask 20 ≡ true)
    × ((Watch.main kernel quiet).signals.mask 19 ≡ false)
unfolding Watch.run Watch.step Watch.take_default Watch.main proc_mask
masked_stay_pending_example = Watch.masked_stay_pending kernel quiet watched 2 refl refl
