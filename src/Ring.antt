-- ===== src/Ring.antt =====
-- Circular buffers: the window of a list that starts at a front index and goes round at `cap`.
-- The thread pool's task queue and the semaphores' product queue are both read through it.
use native.Mathlib.Nat.{mod-add-mod, mod-eq_of_lt, mod-eq-sub-mod, add-zero}
use linux_c_program_exercris.Prelude.{
  ℕ, zero, suc, ◌+◌, ◌-◌, ◌%◌, ◌≤◌, ◌<◌, ◌≡◌, refl, sym, ap, ap₂, ◌∙◌, ◌≢◌, List, [], ◌∷◌, ◌++◌,
  arith, dec_lt, length, get_or, set, get_or-set_self, get_or-set_ne,
}

-- Going less than one round forward does not come back to the start.
pub add-mod-ne : {cap h k : ℕ} → h < cap → 0 < k → k < cap → (h + k) % cap ≢ h
add-mod-ne {cap} {h} {k} hh above hk = elim (dec_lt (h + k) cap) [
  | yes p ↦ omega (arith, mod-eq_of_lt p)
  | no p ↦ omega (
    arith,
    mod-eq-sub-mod {n = h + k} {m = cap} (omega arith),
    mod-eq_of_lt {n = h + k - cap} {m = cap} (omega arith),
  )
]

-- One step and `n` more are `n + 1` steps.
pub step-mod : (cap h n : ℕ) → ((h + 1) % cap + n) % cap ≡ (h + suc n) % cap
step-mod cap h n = rw mod-add-mod (ap (λ k. k % cap) (omega arith))

module _ {ℓ} {A : Type ℓ} (d : A) (cap : ℕ) where
  -- The `n` items from index `h` on.
  abbrev pub window : List A → ℕ → ℕ → List A
  window buf h zero = []
  window buf h (suc n) = get_or buf h d ∷ window buf ((h + 1) % cap) n

  pub length-window : (buf : List A) (h n : ℕ) → length (window buf h n) ≡ n
  length-window buf h zero = refl
  length-window buf h (suc n) = ap suc (length-window buf ((h + 1) % cap) n)

  -- The code tests for 0 and subtracts 1.
  pub window_of_pos :
      (buf : List A) (h n : ℕ)
      → 0 < n
      → window buf h n ≡ get_or buf h d ∷ window buf ((h + 1) % cap) (n - 1)
  window_of_pos buf h zero p = elim p [ ]
  window_of_pos buf h (suc n) p = ap (λ k. window buf h (suc k)) (omega arith)

  window-snoc :
      (buf : List A) (h n : ℕ)
      → h < cap
      → window buf h (suc n) ≡ window buf h n ++ (get_or buf ((h + n) % cap) d ∷ [])
  window-snoc buf h zero hh = rw (add-zero, mod-eq_of_lt hh)
  window-snoc buf h (suc n) hh =
      ap (◌∷◌ (get_or buf h d))
        (window-snoc buf ((h + 1) % cap) n (omega arith) ∙ rw (step-mod cap h n))

  pub window-set_beyond :
      (buf : List A) (x : A) (h n m i : ℕ)
      → h < cap
      → n ≤ m
      → m < cap
      → i ≡ (h + m) % cap
      → window (set buf i x) h n ≡ window buf h n
  window-set_beyond buf x h zero m i hh hm lt e = refl
  window-set_beyond buf x h (suc n) (suc m) i hh hm lt e =
      ap₂ ◌∷◌ (get_or-set_ne buf x d (rw e (add-mod-ne hh (omega arith) lt))) (
        window-set_beyond buf x ((h + 1) % cap) n m i (omega arith) (omega arith) (omega arith)
          (e ∙ sym (step-mod cap h m)))
  window-set_beyond buf x h (suc n) zero i hh hm lt e = absurd (omega arith)

  -- A write just past the window extends it.
  pub window-set :
      (buf : List A) (x : A) (h n i : ℕ)
      → cap ≤ length buf
      → h < cap
      → n < cap
      → i ≡ (h + n) % cap
      → window (set buf i x) h (suc n) ≡ window buf h n ++ (x ∷ [])
  window-set buf x h n i hs hh hn e =
      window-snoc (set buf i x) h n hh
      ∙ ap₂ (λ (a : List A) (y : A). a ++ (y ∷ []))
          (window-set_beyond buf x h n n i hh (omega arith) hn e)
          (rw (← e) (get_or-set_self buf i x d (omega arith)))
