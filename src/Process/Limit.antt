-- ===== src/Process/Limit.antt =====
-- 002_file/03openMaxFileNum.c: one file is opened again and again and never closed. What
-- `open` answers is a parameter.
use linux_c_program_exercris.Prelude.{
  ℕ, zero, suc, ◌+◌, ◌≤◌, ◌<◌, ◌≡◌, refl, ap, ◌∙◌, ◌≢◌, inl, inr, Bool, true, false, ◌&&◌, ◌||◌,
  Option, none, some, List, [], ◌∷◌, arith, dec_lt, ℕ_discrete, ltb, ◌==◌, if◌then◌else◌,
  Bool-cases, ltb→lt, ℤ, negsuc,
}
use linux_c_program_exercris.Process.Kernel.{Kernel}

-- The numbers printed, the status, `none` if the loop has not ended, and the descriptors.
pub record Opened (T : Type 0) : Type 0 where
  pub printed : List ℕ
  pub status : Option ℤ
  pub table : T

abbrev pub is_free : Option ℕ → Bool
is_free none = true
is_free (some x) = false

abbrev pub has_number : ℕ → List ℕ → Bool
has_number g [] = false
has_number g (x ∷ xs) = g == x || has_number g xs

-- Each number is more than the one before it.
abbrev pub Rising : ℕ → List ℕ → Type 0
Rising n [] = Unit
Rising n (x ∷ xs) = (n ≤ x) × Rising (suc x) xs

used-is_free : (x : Option ℕ) → x ≢ none → is_free x ≡ false
used-is_free none h = absurd (h refl)
used-is_free (some x) h = refl

module _ (k : Kernel) (limit file : ℕ) where
  open k use {Table, file_at, open_file, open_free, open_lowest, file_at-open}

  -- `open` fails when its number would not be below the limit of the process.
  abbrev pub IsLimited : (Table → Option (ℕ × Table)) → Type 0
  IsLimited try_open =
      (t : Table)
      → try_open t ≡ (if ltb (open_file t file).0 limit then some (open_file t file) else none)

  -- The loop, on fuel.
  unfoldable pub open_all : (Table → Option (ℕ × Table)) → ℕ → Table → Opened Table
  open_all try_open zero t = record { printed = []; status = none; table = t }
  open_all try_open (suc fuel) t = elim (try_open t) [
    | none ↦ record { printed = []; status = some (negsuc 0); table = t }
    | some (fd, u) ↦
        let rest = open_all try_open fuel u in record rest { printed = fd ∷ rest.printed }
  ]

  -- What a run from `t` that ends has done, if all numbers below `n` were taken.
  record Exhausts (n : ℕ) (t : Table) (r : Opened Table) : Type 0 where
    ends : r.status ≡ some (negsuc 0)
    all : (g : ℕ) → has_number g r.printed ≡ (ltb g limit && is_free (file_at t g))
    opened :
        (g : ℕ) → file_at r.table g ≡ (if has_number g r.printed then some file else file_at t g)
    rising : Rising n r.printed

  lower : (n m : ℕ) (xs : List ℕ) → n ≤ m → Rising m xs → Rising n xs
  lower n m [] h r = tt
  lower n m (x ∷ xs) h r = (omega arith, r.1)

  first_free :
      (n : ℕ) (t : Table) → ((g : ℕ) → g < n → file_at t g ≢ none) → n ≤ (open_file t file).0
  first_free n t used = elim (dec_lt (open_file t file).0 n) [
    | yes h ↦ absurd (used (open_file t file).0 h (open_free t file))
    | no h ↦ omega arith
  ]

  still_used :
      (t : Table) (g : ℕ) → g < suc (open_file t file).0 → file_at (open_file t file).1 g ≢ none
  still_used t g h = ground (arith, file_at-open t file g, open_lowest t file g)

  -- The flag is whether the rest of the run prints `g`.
  listed :
      (t : Table) (g : ℕ) (b : Bool)
      → b ≡ (ltb g limit && is_free (file_at (open_file t file).1 g))
      → (open_file t file).0 < limit
      → (g == (open_file t file).0 || b) ≡ (ltb g limit && is_free (file_at t g))
  listed t g b a h = elim (ℕ_discrete g (open_file t file).0) [
    | yes q ↦
        let free : is_free (file_at t g) ≡ true =
          ap (λ x. is_free (file_at t x)) q ∙ ap is_free (open_free t file) in
        ground arith
    | no q ↦
        let same : file_at (open_file t file).1 g ≡ file_at t g =
          ground (arith, file_at-open t file g) in
        let other : (g == (open_file t file).0) ≡ false = ground arith in
        simp other (a ∙ ap (λ x. ltb g limit && is_free x) same)
  ]

  kept :
      (t : Table) (g : ℕ) (b : Bool)
      → (if b then some file else file_at (open_file t file).1 g)
        ≡ (if g == (open_file t file).0 || b then some file else file_at t g)
  kept t g b = ground (arith, file_at-open t file g)

  none_left :
      (t : Table) (g : ℕ)
      → ltb (open_file t file).0 limit ≡ false
      → false ≡ (ltb g limit && is_free (file_at t g))
  none_left t g full = elim (dec_lt g (open_file t file).0) [
    | yes h ↦ let taken = used-is_free (file_at t g) (open_lowest t file g h) in ground arith
    | no h ↦ ground arith
  ]

  open_all-Exhausts :
      (try_open : Table → Option (ℕ × Table)) (fuel n : ℕ) (t : Table)
      → IsLimited try_open
      → ((g : ℕ) → g < n → file_at t g ≢ none)
      → n ≤ limit
      → limit < n + fuel
      → Exhausts n t (open_all try_open fuel t)
  unfolding open_all
  open_all-Exhausts try_open zero n t limited used h e = absurd (omega arith)
  open_all-Exhausts try_open (suc fuel) n t limited used h e =
      elim (Bool-cases (ltb (open_file t file).0 limit)) [
        | inl more ↦
            let low = first_free n t used in
            let v =
              open_all-Exhausts try_open fuel (suc (open_file t file).0) (open_file t file).1
                limited (still_used t) (ltb→lt _ _ more) (omega arith) in
            let done : try_open t ≡ some (open_file t file) = rw (limited t) (simp more refl) in
            rw (done, open_all)
              (record {
                ends = v.ends;
                all = λ g. listed t g _ (v.all g) (ltb→lt _ _ more);
                opened = λ g. v.opened g ∙ kept t g _;
                rising = (low, v.rising);
              })
        | inr full ↦
            let done : try_open t ≡ none = rw (limited t) (simp full refl) in
            rw (done, open_all)
              (record {
                ends = refl;
                all = λ g. none_left t g full;
                opened = λ g. refl;
                rising = tt;
              })
      ]

  -- If `open` fails exactly at the limit: with as many tries as the limit and one, the program ends with -1. It has printed, in ascending
  -- order, exactly the numbers below the limit that were free, and has the file open at each of
  -- them; no other descriptor has changed.
  pub open_all_takes_all :
      (try_open : Table → Option (ℕ × Table)) (fuel : ℕ) (t : Table)
      → IsLimited try_open
      → limit < fuel
      → let r = open_all try_open fuel t in
        (r.status ≡ some (negsuc 0))
        × ((g : ℕ) → has_number g r.printed ≡ (ltb g limit && is_free (file_at t g)))
        × ((g : ℕ)
            → file_at r.table g ≡ (if has_number g r.printed then some file else file_at t g))
        × Rising 0 r.printed
  open_all_takes_all try_open fuel t limited h =
      let v =
        open_all-Exhausts try_open fuel 0 t limited (λ g low. absurd (omega arith)) (omega arith)
          (omega arith) in
      (v.ends, v.all, v.opened, v.rising)
