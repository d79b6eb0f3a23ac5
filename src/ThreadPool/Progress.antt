-- ===== src/ThreadPool/Progress.antt =====
-- 013threadPoll/threadpool.c: a worker that gets its turns empties the queue.
use linux_c_program_exercris.Prelude.{
  ℕ, ◌+◌, ◌*◌, ◌≤◌, ◌≡◌, refl, false, some, List, [], ◌∷◌, arith, get_elem?, suc, sym, ap, subst,
  ◌∙◌, inl, inr, Option, none, ◌++◌, append-nil, ℕ_discrete, get_elem?-append,
}
use linux_c_program_exercris.ThreadPool.Adjust.{adjust_step}
use linux_c_program_exercris.ThreadPool.Defs.{Pool, WorkerPc}
use linux_c_program_exercris.ThreadPool.System.{
  System, Event, submit, work, adjust, close, step, work_at, run, adjust_system, launch,
}
use linux_c_program_exercris.ThreadPool.Safety.{IsNew, launch-Inv}
use linux_c_program_exercris.ThreadPool.Invariant.{
  Inv, step-Inv, run-Inv, AllPresent-get, adjust_step_same,
}
use linux_c_program_exercris.ThreadPool.Turns.{
  Quiet, turn_of, turns, Near, own_turn, other_turn, away-le, drained, no_contents,
}

Quiet-split : (e : Event) (es : List Event) → Quiet (e ∷ es) → Quiet (e ∷ []) × Quiet es
Quiet-split (submit t) es q = elim q [ ]
Quiet-split (work i) es q = (tt, q)
Quiet-split adjust es q = (tt, q)
Quiet-split close es q = elim q [ ]

module _ (kill : ℕ → ℕ) (spawn : ℕ → ℕ) where
  pub adjust_step-size :
      (s : System)
      → ((adjust_step kill spawn s.adjuster s.pool).1.queue_size ≡ s.pool.queue_size)
        × ((adjust_step kill spawn s.adjuster s.pool).1.shutdown ≡ s.pool.shutdown)
  adjust_step-size s =
      let same = adjust_step_same kill spawn s.adjuster s.pool in
      (ap (λ (p : Pool). p.queue_size) same, ap (λ (p : Pool). p.shutdown) same)

  adjusted :
      (s : System) (i k : ℕ)
      → Near i k s
      → Inv (adjust_system kill spawn s)
      → Near i k (adjust_system kill spawn s)
  unfolding adjust_system
  adjusted s i k n v =
      let (size, shut) = adjust_step-size s in
      record {
        inv = v;
        open_still = shut ∙ n.open_still;
        pc = n.pc;
        there = get_elem?-append s.workers _ i n.pc n.there;
        stays = n.stays;
        enough = elim n.enough [
          | inl none_left ↦ inl (size ∙ none_left)
          | inr some_left ↦ inr (omega arith)
        ];
      }

  step-Near :
      (s : System) (i k : ℕ) (e : Event)
      → Quiet (e ∷ [])
      → Near i (turn_of i e + k) s
      → Near i k (step kill spawn s e)
  unfolding step
  step-Near s i k (submit t) q n = elim q [ ]
  step-Near s i k (work j) q n = elim (ℕ_discrete i j) [
    | yes same ↦
        let n' : Near i (suc k) s = subst (λ m. Near i m s) (ground arith) n in
        subst (λ h. Near i k (work_at s h (get_elem? s.workers h))) same
          (rw n'.there
            (own_turn s i k n' n'.there (rw n'.there at (step-Inv kill spawn s (work i) n.inv))))
    | no differs ↦
        let n' : Near i k s = subst (λ m. Near i m s) (ground arith) n in
        other_turn s i j k (get_elem? s.workers j) (λ e. differs (sym e)) n'
          (step-Inv kill spawn s (work j) n.inv)
  ]
  step-Near s i k adjust q n =
      let n' : Near i k s = subst (λ m. Near i m s) (omega arith) n in
      adjusted s i k n' (step-Inv kill spawn s adjust n.inv)
  step-Near s i k close q n = elim q [ ]

  run-Near :
      (s : System) (i : ℕ) (es : List Event)
      → Quiet es
      → Near i (turns i es) s
      → Near i 0 (run kill spawn s es)
  unfolding run
  run-Near s i [] q n = n
  run-Near s i (e ∷ es) q n =
      let (first, others) = Quiet-split e es q in
      run-Near (step kill spawn s e) i es others (step-Near s i (turns i es) e first n)

  work_at-accepted :
      (s : System) (j : ℕ) (o : Option WorkerPc) → (work_at s j o).accepted ≡ s.accepted
  unfolding work_at
  work_at-accepted s j none = refl
  work_at-accepted s j (some pc) = refl

  pub step-accepted :
      (s : System) (e : Event) → Quiet (e ∷ []) → (step kill spawn s e).accepted ≡ s.accepted
  unfolding step adjust_system
  step-accepted s (submit t) q = elim q [ ]
  step-accepted s (work j) q = work_at-accepted s j _
  step-accepted s adjust q = refl
  step-accepted s close q = elim q [ ]

  run-accepted :
      (s : System) (es : List Event) → Quiet es → (run kill spawn s es).accepted ≡ s.accepted
  unfolding run
  run-accepted s [] q = refl
  run-accepted s (e ∷ es) q =
      let (first, others) = Quiet-split e es q in
      run-accepted (step kill spawn s e) es others ∙ step-accepted s e first

  near :
      (s : System) (i : ℕ) (pc : WorkerPc) (k : ℕ)
      → Inv s
      → s.pool.shutdown ≡ false
      → get_elem? s.workers i ≡ some pc
      → 3 * s.pool.queue_size + 2 ≤ k
      → Near i k s
  near s i pc k v o there h = record {
    inv = v;
    open_still = o;
    pc = pc;
    there = there;
    stays = AllPresent-get s.workers i pc there (v.staffed o);
    enough = inr (omega (arith, away-le pc));
  }

  -- Every task is taken: from any state that a schedule reaches with the pool open, any further
  -- schedule in which nobody submits or closes, and some one worker has three turns for each
  -- waiting task and two more, leaves the queue empty; the tasks that the workers took are then
  -- all those that were ever put in, in that order.
  pub queue_drains :
      (p : Pool) (n : IsNew p) (before after : List Event) (i : ℕ) (pc : WorkerPc)
      → (run kill spawn (launch p) before).pool.shutdown ≡ false
      → get_elem? (run kill spawn (launch p) before).workers i ≡ some pc
      → Quiet after
      → 3 * (run kill spawn (launch p) before).pool.queue_size + 2 ≤ turns i after
      → ((run kill spawn (run kill spawn (launch p) before) after).pool.queue_size ≡ 0)
        × ((run kill spawn (run kill spawn (launch p) before) after).taken
            ≡ (run kill spawn (launch p) before).accepted)
  queue_drains p n before after i pc o there q h =
      let s = run kill spawn (launch p) before in
      let e = run-Near s i after q (
        near s i pc (turns i after) (run-Inv kill spawn (launch p) before (launch-Inv p n)) o there
          h) in
      let empty : (run kill spawn s after).pool.queue_size ≡ 0 = drained i _ e in
      (
        empty,
        sym (append-nil _)
            ∙ ap (λ l. (run kill spawn s after).taken ++ l)
                (sym (no_contents (run kill spawn s after) empty))
            ∙ sym (e.inv.fifo e.open_still)
            ∙ run-accepted s after q,
      )
