-- ===== src/Sync/Unlocked.antt =====
-- 010_thread_sync/01thread_no_sync.c: the same loop with no lock.
use linux_c_program_exercris.Prelude.{
  ℕ, zero, suc, ◌+◌, ◌-◌, ◌≡◌, ap, ◌∙◌, Bool, true, false, Option, none, some, List, [], ◌∷◌, arith,
  ◌==◌, if◌then◌else◌,
}

pub record Thread : Type 0 where
  pub val : Option ℕ  -- what was read and is not written back yet
  pub left : ℕ

pub record System : Type 0 where
  pub g_ncount : ℕ
  pub first : Thread
  pub second : Thread

-- One access of a thread: `val = g_ncount`, or `g_ncount = val + 1`.
unfoldable pub access : Thread → Option ℕ → ℕ → Thread × ℕ
access t none n = (if t.left == 0 then t else record t { val = some n }, n)
access t (some v) n = (record { val = none; left = t.left - 1 }, v + 1)

unfoldable pub step : System → Bool → System
unfolding access
step s true =
    let (t, n) = access s.first s.first.val s.g_ncount in record s { first = t; g_ncount = n }
step s false =
    let (t, n) = access s.second s.second.val s.g_ncount in record s { second = t; g_ncount = n }

unfoldable pub run : System → List Bool → System
unfolding step
run s [] = s
run s (b ∷ bs) = run (step s b) bs

abbrev pub ready : ℕ → ℕ → ℕ → System
ready n a b = record {
  g_ncount = n;
  first = record { val = none; left = a };
  second = record { val = none; left = b };
}

-- Both read, then both write.
abbrev pub in_step : ℕ → List Bool
in_step zero = []
in_step (suc n) = true ∷ false ∷ true ∷ false ∷ in_step n

one_lost :
    (k n : ℕ) (bs : List Bool)
    → run (ready n (suc k) (suc k)) (true ∷ false ∷ true ∷ false ∷ bs) ≡ run (ready (n + 1) k k) bs
unfolding run
one_lost k n bs =
    let e : (suc k == 0) ≡ false = ground arith in
    let f : suc k - 1 ≡ k = omega arith in simp (e, f)

-- Without a lock half of the additions can be lost: for every number of rounds there is a schedule
-- after which both threads have finished, and the counter has gone up by the rounds of one.
pub half_lost :
    (rounds n : ℕ) → run (ready n rounds rounds) (in_step rounds) ≡ ready (n + rounds) 0 0
unfolding run
half_lost zero n = ap (λ k. ready k 0 0) (omega arith)
half_lost (suc k) n =
    one_lost k n (in_step k) ∙ half_lost k (n + 1) ∙ ap (λ m. ready m 0 0) (omega arith)
