-- ===== src/Sync/Locked.antt =====
-- 010_thread_sync/02thread_sync_lock_mutex.c and 06thread_process_mutexattr_init.c: two threads,
-- or processes, that add to a shared number under a mutex, an access at a time.
use linux_c_program_exercris.Prelude.{
  ℕ, ◌+◌, ◌-◌, ◌*◌, ◌≤◌, ◌≡◌, refl, ap₂, ◌∙◌, Bool, true, false, ◌||◌, List, [], ◌∷◌, arith, ◌==◌,
  if◌then◌else◌,
}

-- Where one of them stands in its loop.
pub data Pc : Type 0 where
  outside inside : Pc
  loaded : ℕ → Pc
  stored : Pc

-- `left` rounds are to go, `added` have been stored.
pub record Thread : Type 0 where
  pub pc : Pc
  pub left : ℕ
  pub added : ℕ

pub record Shared : Type 0 where
  pub num : ℕ
  pub locked : Bool

-- One access: lock, read, write back with the increment, unlock. A taken lock blocks.
unfoldable pub access : ℕ → Thread → Pc → Shared → Thread × Shared
access inc t outside s =
    if t.left == 0 || s.locked
    then (t, s)
    else (record t { pc = inside }, record s { locked = true })
access inc t inside s = (record t { pc = loaded s.num }, s)
access inc t (loaded val) s =
    (record t { pc = stored; added = t.added + 1 }, record s { num = val + inc })
access inc t stored s = (record t { pc = outside; left = t.left - 1 }, record s { locked = false })

pub record System : Type 0 where
  pub shared : Shared
  pub first : Thread
  pub second : Thread

module _ (inc_first inc_second : ℕ) where
  -- `true` runs the first thread, `false` the second.
  unfoldable pub step : System → Bool → System
  unfolding access
  step s true =
      let (t, sh) = access inc_first s.first s.first.pc s.shared in
      record s { shared = sh; first = t }
  step s false =
      let (t, sh) = access inc_second s.second s.second.pc s.shared in
      record s { shared = sh; second = t }

  unfoldable pub run : System → List Bool → System
  unfolding step
  run s [] = s
  run s (b ∷ bs) = run (step s b) bs

unfoldable pub start : ℕ → ℕ → System
start rounds_first rounds_second = record {
  shared = record { num = 0; locked = false };
  first = record { pc = outside; left = rounds_first; added = 0 };
  second = record { pc = outside; left = rounds_second; added = 0 };
}

-- `DEF_COUNT`, and the rounds of 06thread_process_mutexattr_init.c.
abbrev pub def_count : ℕ
def_count = 5000

abbrev pub process_rounds : ℕ
process_rounds = 10

abbrev pub holds : Pc → ℕ
holds outside = 0
holds _ = 1

-- The thread has stored but not yet unlocked.
abbrev pub half : Pc → ℕ
half stored = 1
half _ = 0

abbrev pub IsFresh : Pc → ℕ → Type 0
IsFresh (loaded val) num = val ≡ num
IsFresh _ num = Unit

-- Every round that is not to come has been added, and a thread inside has a round to go.
pub record Counts (rounds : ℕ) (t : Thread) : Type 0 where
  pub all : t.left + t.added ≡ rounds + half t.pc
  pub going : holds t.pc ≤ t.left

pub record Inv (ia ib na nb : ℕ) (s : System) : Type 0 where
  pub mutex : holds s.first.pc + holds s.second.pc ≡ (if s.shared.locked then 1 else 0)
  pub fresh_first : IsFresh s.first.pc s.shared.num
  pub fresh_second : IsFresh s.second.pc s.shared.num
  pub sum : s.shared.num ≡ ia * s.first.added + ib * s.second.added
  pub counts_first : Counts na s.first
  pub counts_second : Counts nb s.second

-- One access of a thread, while the other adds up to `rest` and holds the lock `other` times.
record Kept (inc rest other rounds : ℕ) (p : Pc) (r : Thread × Shared) (num : ℕ) : Type 0 where
  mutex : holds r.0.pc + other ≡ (if r.1.locked then 1 else 0)
  fresh : IsFresh r.0.pc r.1.num
  sum : r.1.num ≡ inc * r.0.added + rest
  counts : Counts rounds r.0
  same : other ≡ 1 → r.1.num ≡ num

access-Kept :
    (inc rest other rounds : ℕ) (t : Thread) (p : Pc) (s : Shared)
    → t.pc ≡ p
    → holds p + other ≡ (if s.locked then 1 else 0)
    → IsFresh p s.num
    → s.num ≡ inc * t.added + rest
    → Counts rounds t
    → Kept inc rest other rounds p (access inc t p s) s.num
unfolding access
access-Kept inc rest other rounds t outside s e m f sm c = ground arith
access-Kept inc rest other rounds t inside s e m f sm c = ground arith
access-Kept inc rest other rounds t (loaded v) s e m f sm c = ground arith
access-Kept inc rest other rounds t stored s e m f sm c = ground arith

-- A number that did not change is still fresh; it changes only while the other is outside.
IsFresh-other :
    (p : Pc) (num num' : ℕ) → (holds p ≡ 1 → num' ≡ num) → IsFresh p num → IsFresh p num'
IsFresh-other outside num num' same f = tt
IsFresh-other inside num num' same f = tt
IsFresh-other (loaded v) num num' same f = omega (arith, same refl)
IsFresh-other stored num num' same f = tt

half-le-holds : (p : Pc) → half p ≤ holds p
half-le-holds outside = omega arith
half-le-holds inside = omega arith
half-le-holds (loaded v) = omega arith
half-le-holds stored = omega arith

all_added : {n : ℕ} {t : Thread} → t.left ≡ 0 → Counts n t → t.added ≡ n
all_added {n} {t} h c = omega (arith, half-le-holds t.pc, c.all, c.going)

step-Inv :
    (ia ib na nb : ℕ) (s : System) (b : Bool) → Inv ia ib na nb s → Inv ia ib na nb (step ia ib s b)
unfolding step
step-Inv ia ib na nb s true v = record {
  mutex = k.mutex;
  fresh_first = k.fresh;
  fresh_second = IsFresh-other s.second.pc _ _ k.same v.fresh_second;
  sum = k.sum;
  counts_first = k.counts;
  counts_second = v.counts_second;
}
  where
    k :
        Kept ia
          (ib * s.second.added)
          (holds s.second.pc)
          na
          s.first.pc
          (access ia s.first s.first.pc s.shared)
          s.shared.num
    k =
        access-Kept ia (ib * s.second.added) (holds s.second.pc) na s.first s.first.pc s.shared refl
          v.mutex v.fresh_first v.sum v.counts_first
step-Inv ia ib na nb s false v = record {
  mutex = omega (arith, k.mutex);
  fresh_first = IsFresh-other s.first.pc _ _ k.same v.fresh_first;
  fresh_second = k.fresh;
  sum = omega (arith, k.sum);
  counts_first = v.counts_first;
  counts_second = k.counts;
}
  where
    k :
        Kept ib
          (ia * s.first.added)
          (holds s.first.pc)
          nb
          s.second.pc
          (access ib s.second s.second.pc s.shared)
          s.shared.num
    k =
        access-Kept ib (ia * s.first.added) (holds s.first.pc) nb s.second s.second.pc s.shared refl
          (omega (arith, v.mutex)) v.fresh_second (omega (arith, v.sum)) v.counts_second

run-Inv :
    (ia ib na nb : ℕ) (s : System) (bs : List Bool)
    → Inv ia ib na nb s
    → Inv ia ib na nb (run ia ib s bs)
unfolding run
run-Inv ia ib na nb s [] v = v
run-Inv ia ib na nb s (b ∷ bs) v =
    run-Inv ia ib na nb (step ia ib s b) bs (step-Inv ia ib na nb s b v)

start-Inv : (ia ib na nb : ℕ) → Inv ia ib na nb (start na nb)
unfolding start
start-Inv ia ib na nb = omega arith

module _ (ia ib na nb : ℕ) (bs : List Bool) where
  abbrev pub final : System
  final = run ia ib (start na nb) bs

  final-Inv : Inv ia ib na nb final
  final-Inv = run-Inv ia ib na nb (start na nb) bs (start-Inv ia ib na nb)

  -- In every schedule the two are never both between lock and unlock.
  pub mutual_exclusion : holds final.first.pc + holds final.second.pc ≤ 1
  mutual_exclusion = ground (arith, final-Inv.mutex)

  -- No addition is lost: whenever, in any schedule, both have finished, the number is the sum of
  -- what they were to add.
  pub no_addition_lost :
      final.first.left ≡ 0 → final.second.left ≡ 0 → final.shared.num ≡ ia * na + ib * nb
  no_addition_lost ha hb =
      final-Inv.sum
      ∙ ap₂ (λ (x y : ℕ). ia * x + ib * y) (all_added ha final-Inv.counts_first)
          (all_added hb final-Inv.counts_second)
