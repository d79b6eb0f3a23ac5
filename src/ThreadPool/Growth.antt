-- ===== src/ThreadPool/Growth.antt =====
-- 013threadPoll/threadpool.c: creation of the pool, and of more threads by `adjust_thread`.
use linux_c_program_exercris.Prelude.{
  ℕ, ◌+◌, ◌≤◌, ◌<◌, ◌≡◌, refl, ◌⊎◌, inl, inr, Bool, true, false, ◌&&◌, List, [], ◌∷◌, arith, ltb,
  if◌then◌else◌, Bool-cases, dec_lt, suc, subst,
}
use linux_c_program_exercris.ThreadPool.Defs.{Pool, default_thread_num}
use linux_c_program_exercris.ThreadPool.Adjust.{is_vacant, grow_from, grow}

module _ (kill : ℕ → ℕ) (spawn : ℕ → ℕ) where
  -- Slot by slot from index `i`, of which exactly `n` were vacant and have the new thread; all
  -- others keep theirs.
  pub data Refilled : ℕ → List ℕ → List ℕ → ℕ → Type 0 where
    none_left : (i : ℕ) → Refilled i [] [] 0
    kept :
        (i t : ℕ) (ts us : List ℕ) (n : ℕ)
        → Refilled (i + 1) ts us n
        → Refilled i (t ∷ ts) (t ∷ us) n
    replaced :
        (i t : ℕ) (ts us : List ℕ) (n : ℕ)
        → is_vacant kill spawn t ≡ true
        → Refilled (i + 1) ts us n
        → Refilled i (t ∷ ts) (spawn i ∷ us) (suc n)

  Refilled-self : (i : ℕ) (ts : List ℕ) → Refilled i ts ts 0
  Refilled-self i [] = none_left i
  Refilled-self i (t ∷ ts) = kept i t ts ts 0 (Refilled-self (i + 1) ts)

  -- The loop counts from `n` what it replaces.
  grow_from-Refilled :
      (more : Bool) (ts : List ℕ) (i n : ℕ)
      → (k : ℕ) × (n + k ≡ (grow_from kill spawn more ts i n).1)
        × Refilled i ts (grow_from kill spawn more ts i n).0 k
  unfolding grow_from
  grow_from-Refilled more [] i n = (0, omega arith, none_left i)
  grow_from-Refilled more (t ∷ ts) i n = elim (Bool-cases (ltb n default_thread_num && more)) [
    | inr e ↦ rw e (0, omega arith, Refilled-self i (t ∷ ts))
    | inl e ↦ elim (Bool-cases (is_vacant kill spawn t)) [
      | inl v ↦
          let (k, c, h) = grow_from-Refilled more ts (i + 1) (n + 1) in
          rw (e, v) (suc k, omega arith, replaced i t ts _ k v h)
      | inr v ↦
          let (k, c, h) = grow_from-Refilled more ts (i + 1) n in
          rw (e, v) (k, c, kept i t ts _ k h)
    ]
  ]

  grow_from-le :
      (more : Bool) (ts : List ℕ) (i n : ℕ)
      → n ≤ default_thread_num
      → (grow_from kill spawn more ts i n).1 ≤ default_thread_num
  unfolding grow_from
  grow_from-le more [] i n h = h
  grow_from-le more (t ∷ ts) i n h =
      ground (arith, grow_from-le more ts (i + 1) (if is_vacant kill spawn t then n + 1 else n))

  grow_from-stopped : (ts : List ℕ) (i n : ℕ) → grow_from kill spawn false ts i n ≡ (ts, n)
  unfolding grow_from
  grow_from-stopped [] i n = refl
  grow_from-stopped (t ∷ ts) i n = elim (Bool-cases (ltb n default_thread_num)) [
    | inl e ↦ rw e
    | inr e ↦ rw e
  ]

  stopped :
      (p : Pool) → p.pthread_max_num ≤ p.pthread_alive_num → grow kill spawn p ≡ (p.threads, 0)
  unfolding grow
  stopped p h =
      let full : ltb p.pthread_alive_num p.pthread_max_num ≡ false = ground arith in
      rw full (grow_from-stopped p.threads 0 0)

  -- One round of growth replaces as many slots as it counts, at most ten, and only vacant ones: each
  -- slot keeps its thread, or had none that is alive and has the new one. Nothing at all happens unless the
  -- count of the pool is below its maximum.
  pub grow_replaces_vacant :
      (p : Pool)
      → Refilled 0 p.threads (grow kill spawn p).0 (grow kill spawn p).1
        × ((grow kill spawn p).1 ≤ default_thread_num)
        × ((p.pthread_alive_num < p.pthread_max_num) ⊎ (grow kill spawn p ≡ (p.threads, 0)))
  unfolding grow
  grow_replaces_vacant p = (
    counted (grow_from-Refilled (ltb p.pthread_alive_num p.pthread_max_num) p.threads 0 0),
    grow_from-le _ p.threads 0 0 (omega arith),
    elim (dec_lt p.pthread_alive_num p.pthread_max_num) [
      | yes room ↦ inl room
      | no full ↦ inr (stopped p (omega arith))
    ],
  )
    where
      counted :
          (k : ℕ) × (0 + k ≡ (grow kill spawn p).1) × Refilled 0 p.threads (grow kill spawn p).0 k
          → Refilled 0 p.threads (grow kill spawn p).0 (grow kill spawn p).1
      counted (k, c, h) = subst (λ m. Refilled 0 p.threads (grow kill spawn p).0 m) (omega arith) h
