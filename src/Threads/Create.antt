-- ===== src/Threads/Create.antt =====
-- 009_thread/05maxThreadNum.c and 07pthread_attr_setstackaddr.c: loops that create threads until
-- something fails. The answers of `malloc` and `pthread_create` come as lists; an error number of 0
-- is success.
use linux_c_program_exercris.Prelude.{
  ℕ, zero, suc, ◌+◌, ◌≡◌, refl, ◌≢◌, inl, inr, false, Option, none, some, List, [], ◌∷◌, ◌++◌,
  arith, ◌==◌, if◌then◌else◌, Bool-cases, replicate,
}

-- What is printed, and the exit status; `none` while the answers last.
pub record Counted : Type 0 where
  pub printed : List ℕ
  pub status : Option ℕ

-- `main` of 05maxThreadNum.c, with `i` at the head of the loop.
unfoldable pub create_loop : ℕ → List ℕ → Counted
create_loop i [] = record { printed = []; status = none }
create_loop i (err ∷ errs) =
    let rest = create_loop (i + 1) errs in
    if err == 0
    then record rest { printed = i ∷ rest.printed }
    else record { printed = []; status = some 1 }

abbrev pub def_stack_size : ℕ
def_stack_size = 8388608

-- The loop of 07pthread_attr_setstackaddr.c: each stack is a block from `malloc`, by its address.
pub record Stacks : Type 0 where
  pub printed : List ℕ
  pub errors : List ℕ
  pub allocated : List ℕ
  pub freed : List ℕ
  pub status : Option ℕ

unfoldable pub create_once : ℕ → ℕ → Stacks → Stacks → Stacks
create_once ncount err next same =
    if err == 0
    then record next { printed = (ncount + 1) ∷ next.printed }
    else record same { errors = err ∷ same.errors }

-- With `ncount` threads created so far.
unfoldable pub stack_loop : ℕ → List (Option ℕ × ℕ) → Stacks
unfolding create_once
stack_loop ncount [] = record {
  printed = [];
  errors = [];
  allocated = [];
  freed = [];
  status = none;
}
stack_loop ncount ((none, err) ∷ rounds) = record {
  printed = [];
  errors = [];
  allocated = [];
  freed = [];
  status = some 1;
}
stack_loop ncount ((some stackaddr, err) ∷ rounds) =
    let next = stack_loop (ncount + 1) rounds in
    let same = stack_loop ncount rounds in
    let out = create_once ncount err next same in
    record out { allocated = stackaddr ∷ out.allocated }

-- `n` numbers from `i` on.
abbrev pub numbers : ℕ → ℕ → List ℕ
numbers i zero = []
numbers i (suc n) = i ∷ numbers (i + 1) n

-- The rounds in which `malloc` succeeds, by the address and the answer of `pthread_create`.
abbrev pub allocates : List (ℕ × ℕ) → List (Option ℕ × ℕ)
allocates [] = []
allocates ((a, err) ∷ rs) = (some a, err) ∷ allocates rs

abbrev pub successes : List (ℕ × ℕ) → ℕ
successes [] = 0
successes ((a, err) ∷ rs) = if err == 0 then suc (successes rs) else successes rs

abbrev pub failures : List (ℕ × ℕ) → List ℕ
failures [] = []
failures ((a, err) ∷ rs) = if err == 0 then failures rs else err ∷ failures rs

abbrev pub addresses : List (ℕ × ℕ) → List ℕ
addresses [] = []
addresses ((a, err) ∷ rs) = a ∷ addresses rs

-- The program numbers the threads from 1 on without a gap, ends with 1 at the first that cannot be
-- created, and does not go on after it.
pub create_loop-numbers :
    (i k err : ℕ) (errs : List ℕ)
    → err ≢ 0
    → create_loop i (replicate k 0 ++ (err ∷ errs))
      ≡ record { printed = numbers i k; status = some 1 }
unfolding create_loop
create_loop-numbers i zero err errs h = let e : (err == 0) ≡ false = ground arith in simp e
create_loop-numbers i (suc k) err errs h = rw (create_loop-numbers (i + 1) k err errs h)

-- The program takes a new stack in each round, also in those in which no thread is created, and
-- gives none back: when memory runs out it has every stack it ever took, has numbered the threads
-- created from one more than at the start, and exits with 1.
pub stack_loop-leaks :
    (ncount err : ℕ) (good : List (ℕ × ℕ)) (rest : List (Option ℕ × ℕ))
    → stack_loop ncount (allocates good ++ ((none, err) ∷ rest)) ≡ record {
      printed = numbers (ncount + 1) (successes good);
      errors = failures good;
      allocated = addresses good;
      freed = [];
      status = some 1;
    }
unfolding stack_loop
stack_loop-leaks ncount err [] rest = refl
stack_loop-leaks ncount err ((a, e) ∷ good) rest = elim (Bool-cases (e == 0)) [
  | inl done ↦ simp (done, stack_loop-leaks (ncount + 1) err good rest)
  | inr fails ↦ simp (fails, stack_loop-leaks ncount err good rest)
]
