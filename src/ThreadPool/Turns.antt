-- ===== src/ThreadPool/Turns.antt =====
-- 013threadPoll/threadpool.c: what one turn of a worker brings.
use linux_c_program_exercris.Prelude.{
  ℕ, ◌+◌, ◌*◌, ◌≤◌, ◌≡◌, refl, ◌≢◌, ◌⊎◌, false, some, List, [], ◌∷◌, arith, ◌==◌, if◌then◌else◌,
  get_elem?, suc, ◌∙◌, inl, inr, Option, none, get_elem?-set_self, get_elem?-set_ne,
}
use linux_c_program_exercris.ThreadPool.Defs.{
  Pool, WorkerPc, starting, waiting, holding, working, exited, worker_step,
}
use linux_c_program_exercris.ThreadPool.System.{System, Event, submit, work, adjust, close, work_at}
use linux_c_program_exercris.ThreadPool.Queue.{contents}
use linux_c_program_exercris.ThreadPool.Invariant.{Inv}

-- Nobody submits a task or closes the pool.
abbrev pub Quiet : List Event → Type 0
Quiet [] = Unit
Quiet (submit t ∷ es) = ⊥
Quiet (work i ∷ es) = Quiet es
Quiet (adjust ∷ es) = Quiet es
Quiet (close ∷ es) = ⊥

abbrev pub turn_of : ℕ → Event → ℕ
turn_of i (work j) = if i == j then 1 else 0
turn_of i (submit t) = 0
turn_of i adjust = 0
turn_of i close = 0

-- How often worker `i` has its turn.
abbrev pub turns : ℕ → List Event → ℕ
turns i [] = 0
turns i (e ∷ es) = turn_of i e + turns i es

-- The turns that a worker needs to come back to the queue.
abbrev pub away : WorkerPc → ℕ
away starting = 0
away waiting = 0
away (holding t) = 2
away (working t) = 1
away exited = 0

-- At worker `i`, with `k` turns to come: it is there, and they suffice.
pub record Near (i k : ℕ) (s : System) : Type 0 where
  pub inv : Inv s
  pub open_still : s.pool.shutdown ≡ false
  pub pc : WorkerPc
  pub there : get_elem? s.workers i ≡ some pc
  pub stays : pc ≢ exited
  pub enough : (s.pool.queue_size ≡ 0) ⊎ (3 * s.pool.queue_size + away pc ≤ k)

-- A section of any worker of an open pool leaves it open, and the queue no longer than it was.
pub worker_step-le :
    (pc : WorkerPc) (p : Pool)
    → p.shutdown ≡ false
    → ((worker_step pc p).1.queue_size ≤ p.queue_size) × ((worker_step pc p).1.shutdown ≡ false)
unfolding worker_step
worker_step-le starting p o = ground arith
worker_step-le waiting p o = ground arith
worker_step-le (holding t) p o = ground arith
worker_step-le (working t) p o = ground arith
worker_step-le exited p o = ground arith

-- With tasks in the queue, a section brings the worker one turn nearer to an empty one.
worker_step-nearer :
    (pc : WorkerPc) (p : Pool)
    → p.shutdown ≡ false
    → p.pthread_alive_num ≡ p.pthread_min_num
    → pc ≢ exited
    → ((worker_step pc p).0 ≢ exited)
      × ((p.queue_size ≡ 0)
          ⊎ (3 * (worker_step pc p).1.queue_size + away (worker_step pc p).0 + 1
              ≤ 3 * p.queue_size + away pc))
unfolding worker_step
worker_step-nearer starting p o e x = ground arith
worker_step-nearer waiting p o e x = ground arith
worker_step-nearer (holding t) p o e x = ground arith
worker_step-nearer (working t) p o e x = ground arith
worker_step-nearer exited p o e x = absurd (x refl)

pub own_turn :
    (s : System) (i k : ℕ) (n : Near i (suc k) s)
    → get_elem? s.workers i ≡ some n.pc
    → Inv (work_at s i (some n.pc))
    → Near i k (work_at s i (some n.pc))
unfolding work_at
own_turn s i k n e v =
    let (le, o) = worker_step-le n.pc s.pool n.open_still in
    let (x, near) = worker_step-nearer n.pc s.pool n.open_still n.inv.steady n.stays in
    record {
      inv = v;
      open_still = o;
      pc = (worker_step n.pc s.pool).0;
      there = get_elem?-set_self s.workers i n.pc _ n.there;
      stays = x;
      enough = elim n.enough [
        | inl none_left ↦ inl (omega arith)
        | inr some_left ↦ elim near [
          | inl none_left ↦ inl (omega arith)
          | inr nearer ↦ inr (omega arith)
        ]
      ];
    }

pub other_turn :
    (s : System) (i j k : ℕ) (o : Option WorkerPc)
    → j ≢ i
    → Near i k s
    → Inv (work_at s j o)
    → Near i k (work_at s j o)
unfolding work_at
other_turn s i j k none h n v = n
other_turn s i j k (some pc) h n v =
    let (le, o) = worker_step-le pc s.pool n.open_still in
    record {
      inv = v;
      open_still = o;
      pc = n.pc;
      there = get_elem?-set_ne s.workers j i _ h ∙ n.there;
      stays = n.stays;
      enough = elim n.enough [
        | inl none_left ↦ inl (omega arith)
        | inr some_left ↦ inr (omega arith)
      ];
    }

pub away-le : (pc : WorkerPc) → away pc ≤ 2
away-le starting = omega arith
away-le waiting = omega arith
away-le (holding t) = omega arith
away-le (working t) = omega arith
away-le exited = omega arith

pub drained : (i : ℕ) (s : System) → Near i 0 s → s.pool.queue_size ≡ 0
drained i s n = elim n.enough [ inl e ↦ e | inr h ↦ omega arith ]

pub no_contents : (s : System) → s.pool.queue_size ≡ 0 → contents s.pool ≡ []
no_contents s e = rw e refl
