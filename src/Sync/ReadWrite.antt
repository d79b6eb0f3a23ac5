-- ===== src/Sync/ReadWrite.antt =====
-- 010_thread_sync/03thread_sync_lock_rwlock.c: three writers and seven readers of one number. Both
-- kinds of thread call `pthread_rwlock_wrlock`, so the lock is a flag.
use linux_c_program_exercris.Prelude.{
  ℕ, zero, suc, ◌+◌, ◌≤◌, ◌≡◌, refl, Bool, true, false, Option, none, some, List, [], ◌∷◌, ◌++◌,
  arith, if◌then◌else◌, get_elem?, set, replicate,
}

pub data Kind : Type 0 where
  writer reader : Kind

pub data Pc : Type 0 where
  outside : Pc
  inside : Pc  -- the lock is taken
  loaded : ℕ → Pc  -- a writer that has read and sleeps
  done : Pc  -- the number is printed, the lock still held

pub record Thread : Type 0 where
  pub kind : Kind
  pub pc : Pc

-- `printed` holds what the readers saw, newest first, and `writes` counts the increments.
pub record System : Type 0 where
  pub g_ncount : ℕ
  pub locked : Bool
  pub threads : List Thread
  pub printed : List ℕ
  pub writes : ℕ

unfoldable pub start : System
start = record {
  g_ncount = 0;
  locked = false;
  threads =
      replicate 3 (record { kind = writer; pc = outside })
      ++ replicate 7 (record { kind = reader; pc = outside });
  printed = [];
  writes = 0;
}

abbrev pub moved : System → ℕ → Kind → Pc → List Thread
moved s i k p = set s.threads i (record { kind = k; pc = p })

-- One access of thread `i`, of the kind and at the place given.
unfoldable pub access : System → ℕ → Kind → Pc → System
access s i k outside =
    if s.locked then s else record s { locked = true; threads = moved s i k inside }
access s i writer inside = record s { threads = moved s i writer (loaded s.g_ncount) }
access s i reader inside = record s {
  printed = s.g_ncount ∷ s.printed;
  threads = moved s i reader done;
}
access s i k (loaded t) = record s {
  g_ncount = s.g_ncount + 1;
  writes = s.writes + 1;
  threads = moved s i k done;
}
access s i k done = record s { locked = false; threads = moved s i k outside }

unfoldable pub access_at : System → ℕ → Option Thread → System
access_at s i none = s
access_at s i (some t) = access s i t.kind t.pc

unfoldable pub run : System → List ℕ → System
run s [] = s
run s (i ∷ is) = run (access_at s i (get_elem? s.threads i)) is

abbrev pub holds : Pc → ℕ
holds outside = 0
holds _ = 1

abbrev pub holders : List Thread → ℕ
holders [] = 0
holders (t ∷ ts) = holds t.pc + holders ts

holders-set :
    (ts : List Thread) (i : ℕ) (t u : Thread)
    → get_elem? ts i ≡ some t
    → holders (set ts i u) + holds t.pc ≡ holders ts + holds u.pc
holders-set [] i t u e = cc
holders-set (x ∷ ts) zero t u e = ground arith
holders-set (x ∷ ts) (suc i) t u e = omega (arith, holders-set ts i t u e)

record Inv (s : System) : Type 0 where
  one : holders s.threads ≡ (if s.locked then 1 else 0)
  count : s.g_ncount ≡ s.writes

access-Inv :
    (s : System) (i : ℕ) (k : Kind) (p : Pc)
    → get_elem? s.threads i ≡ some (record { kind = k; pc = p })
    → Inv s
    → Inv (access s i k p)
unfolding access
access-Inv s i k outside e v =
    ground (arith, holders-set s.threads i _ (record { kind = k; pc = inside }) e)
access-Inv s i writer inside e v =
    ground (arith, holders-set s.threads i _ (record { kind = writer; pc = loaded s.g_ncount }) e)
access-Inv s i reader inside e v =
    ground (arith, holders-set s.threads i _ (record { kind = reader; pc = done }) e)
access-Inv s i k (loaded t) e v =
    ground (arith, holders-set s.threads i _ (record { kind = k; pc = done }) e)
access-Inv s i k done e v =
    ground (arith, holders-set s.threads i _ (record { kind = k; pc = outside }) e)

access_at-Inv :
    (s : System) (i : ℕ) (o : Option Thread)
    → get_elem? s.threads i ≡ o
    → Inv s
    → Inv (access_at s i o)
unfolding access_at
access_at-Inv s i none e v = v
access_at-Inv s i (some t) e v = access-Inv s i t.kind t.pc e v

run-Inv : (s : System) (is : List ℕ) → Inv s → Inv (run s is)
unfolding run
run-Inv s [] v = v
run-Inv s (i ∷ is) v =
    run-Inv (access_at s i (get_elem? s.threads i)) is (access_at-Inv s i _ refl v)

start-Inv : Inv start
unfolding start
start-Inv = omega arith

-- In every schedule at most one of the ten threads holds the lock, so two readers exclude each
-- other as well; and no increment is lost: the number counts the writes.
pub one_at_a_time :
    (is : List ℕ)
    → (holders (run start is).threads ≤ 1) × ((run start is).g_ncount ≡ (run start is).writes)
one_at_a_time is = let v = run-Inv start is start-Inv in (ground (arith, v.one), v.count)
