-- ===== src/Signals/Pending.antt =====
-- 007singnal/03sigprocmask.c: `printPendSignalSet`, and the handler of 04SIGINT_sigaction.c and
-- 04SIGUSR1_2_sigaction.c. A set of signals is its membership test, `sigismember` of the library.
use linux_c_program_exercris.Prelude.{
  ℕ, zero, suc, ◌+◌, ◌/◌, ◌%◌, ◌≡◌, refl, sym, ap, ◌∙◌, ◌≢◌, inl, inr, Bool, true, false, List, [],
  ◌∷◌, arith, ◌==◌, if◌then◌else◌, Bool-cases, ==_iff, set,
}

-- What `printf` gets: a digit, a gap of two spaces, the end of the line.
pub data Printed : Type 0 where
  digit : Bool → Printed
  gap line : Printed

-- The `for`, with `left` rounds to go, at signal `index`, with `block` digits printed so far.
unfoldable pub print_from : (ℕ → Bool) → ℕ → ℕ → ℕ → List Printed
print_from set zero index block = line ∷ []
print_from set (suc left) index block =
    let rest = print_from set left (index + 1) (block + 1) in
    if (block + 1) % 8 == 0 then digit (set index) ∷ gap ∷ rest else digit (set index) ∷ rest

unfoldable pub print_pend_signal_set : (ℕ → Bool) → List Printed
unfolding print_from
print_pend_signal_set set = print_from set 32 1 0

-- `sigaddset` and `sigdelset`.
abbrev pub update : (ℕ → Bool) → ℕ → Bool → ℕ → Bool
update s f b g = if g == f then b else s g

-- The mask that `main` builds: SIGINT, SIGTSTP, SIGTERM, SIGSTOP, SIGQUIT.
unfoldable pub proc_mask : ℕ → Bool
proc_mask =
    update (update (update (update (update (λ _. false) 2 true) 20 true) 15 true) 19 true) 3 true

-- The handler: its number, then the countdown, with a second's sleep after each.
pub data Said : Type 0 where
  handler : ℕ → Said
  count : ℕ → Said

unfoldable pub countdown : ℕ → List Said
countdown zero = []
countdown (suc n) = count (suc n) ∷ countdown n

unfoldable pub my_sa_handler : ℕ → List Said
unfolding countdown
my_sa_handler num = handler num ∷ countdown 3

abbrev pub digits : List Printed → List Bool
digits [] = []
digits (digit b ∷ ps) = b ∷ digits ps
digits (gap ∷ ps) = digits ps
digits (line ∷ ps) = digits ps

abbrev pub gaps : List Printed → ℕ
gaps [] = 0
gaps (gap ∷ ps) = suc (gaps ps)
gaps (digit b ∷ ps) = gaps ps
gaps (line ∷ ps) = gaps ps

-- The membership of the signals from `index` on.
abbrev pub members : (ℕ → Bool) → ℕ → ℕ → List Bool
members set zero index = []
members set (suc left) index = set index ∷ members set left (index + 1)

print_from-digits :
    (set : ℕ → Bool) (left index block : ℕ)
    → digits (print_from set left index block) ≡ members set left index
unfolding print_from
print_from-digits set zero index block = refl
print_from-digits set (suc left) index block = elim (Bool-cases ((block + 1) % 8 == 0)) [
  | inl e ↦ rw e (ap (◌∷◌ (set index)) (print_from-digits set left (index + 1) (block + 1)))
  | inr e ↦ rw e (ap (◌∷◌ (set index)) (print_from-digits set left (index + 1) (block + 1)))
]

print_from-gaps :
    (set : ℕ → Bool) (left index block : ℕ)
    → gaps (print_from set left index block) + block / 8 ≡ (block + left) / 8
unfolding print_from
print_from-gaps set zero index block = omega arith
print_from-gaps set (suc left) index block = elim (Bool-cases ((block + 1) % 8 == 0)) [
  | inl e ↦
      let m : (block + 1) % 8 ≡ 0 = (==_iff _ 0).0 e in
      rw e (omega (arith, print_from-gaps set left (index + 1) (block + 1)))
  | inr e ↦
      let m : (block + 1) % 8 ≢ 0 = λ z. cc (sym e ∙ (==_iff _ 0).1 z) in
      rw e (omega (arith, print_from-gaps set left (index + 1) (block + 1)))
]

-- What is printed shows the set: the digits are the membership of signals 1 to 32 in order, and a
-- gap follows each eighth, four in all; so two sets print alike only if they agree on each signal.
pub printed_set :
    (set : ℕ → Bool)
    → (digits (print_pend_signal_set set) ≡ members set 32 1)
      × (gaps (print_pend_signal_set set) ≡ 4)
unfolding print_pend_signal_set
printed_set set = (print_from-digits set 32 1 0, omega (arith, print_from-gaps set 32 1 0))
