-- ===== src/Select/Table.antt =====
-- 012_network_IO/01select/server.c: the table of clients as a set of descriptors, when a slot is
-- filled and when the round has closed the clients at their end.
use linux_c_program_exercris.Prelude.{
  ℕ, zero, suc, ◌+◌, ◌≤◌, ◌<◌, ◌≡◌, refl, ap, inl, inr, true, false, not, ◌&&◌, ◌||◌, some, List,
  [], ◌∷◌, map, arith, dec_lt, leb, ◌==◌, if◌then◌else◌, Bool-cases, ℤ, pos, negsuc, length, set,
  drop,
}
use native.Mathlib.Numerals.{add-one}
use linux_c_program_exercris.Select.Defs.{Round, find_free}
use linux_c_program_exercris.Select.Scan.{
  AllFree, has, slot_after, all_effects, count_ready, at_end,
}

-- No descriptor stands in two slots.
abbrev pub Distinct : List ℤ → Type 0
Distinct [] = Unit
Distinct (negsuc k ∷ cs) = Distinct cs
Distinct (pos fd ∷ cs) = (has cs fd ≡ false) × Distinct cs

abbrev pub FirstFree : List ℤ → ℕ → Type 0
FirstFree [] i = ⊥
FirstFree (negsuc k ∷ cs) zero = Unit
FirstFree (negsuc k ∷ cs) (suc i) = ⊥
FirstFree (pos fd ∷ cs) zero = ⊥
FirstFree (pos fd ∷ cs) (suc i) = FirstFree cs i

pub find_free-FirstFree : (cs : List ℤ) (i : ℕ) → find_free cs ≡ some i → FirstFree cs i
unfolding find_free
find_free-FirstFree [] i e = cc
find_free-FirstFree (negsuc k ∷ cs) zero e = tt
find_free-FirstFree (negsuc k ∷ cs) (suc i) e = cc
find_free-FirstFree (pos fd ∷ cs) zero e = ground arith
find_free-FirstFree (pos fd ∷ cs) (suc i) e = find_free-FirstFree cs i (ground arith)

pub FirstFree-lt : (cs : List ℤ) (i : ℕ) → FirstFree cs i → i < length cs
FirstFree-lt [] i h = elim h [ ]
FirstFree-lt (negsuc k ∷ cs) zero h = omega arith
FirstFree-lt (negsuc k ∷ cs) (suc i) h = elim h [ ]
FirstFree-lt (pos fd ∷ cs) zero h = elim h [ ]
FirstFree-lt (pos fd ∷ cs) (suc i) h = omega (arith, FirstFree-lt cs i h)

pub has-set :
    (cs : List ℤ) (i fd f : ℕ) → FirstFree cs i → has (set cs i (pos fd)) f ≡ (f == fd || has cs f)
has-set [] i fd f h = elim h [ ]
has-set (negsuc k ∷ cs) zero fd f h = refl
has-set (negsuc k ∷ cs) (suc i) fd f h = elim h [ ]
has-set (pos x ∷ cs) zero fd f h = elim h [ ]
has-set (pos x ∷ cs) (suc i) fd f h = ground (arith, has-set cs i fd f h)

pub Distinct-set :
    (cs : List ℤ) (i fd : ℕ)
    → FirstFree cs i
    → has cs fd ≡ false
    → Distinct cs
    → Distinct (set cs i (pos fd))
Distinct-set [] i fd h e d = elim h [ ]
Distinct-set (negsuc k ∷ cs) zero fd h e d = (e, d)
Distinct-set (negsuc k ∷ cs) (suc i) fd h e d = elim h [ ]
Distinct-set (pos x ∷ cs) zero fd h e d = elim h [ ]
Distinct-set (pos x ∷ cs) (suc i) fd h e d =
    (ground (arith, has-set cs i fd x h), Distinct-set cs i fd h (ground arith) d.1)

-- The free tail, with the new maximum of the code.
pub AllFree-set :
    (cs : List ℤ) (n i fd : ℕ)
    → FirstFree cs i
    → AllFree (drop n cs)
    → AllFree (drop (if leb n i then i + 1 else n) (set cs i (pos fd)))
AllFree-set cs n i fd h a = elim (dec_lt i n) [
  | yes below ↦ let e : leb n i ≡ false = ground arith in rw e (inside cs n i fd below a)
  | no above ↦
      let e : leb n i ≡ true = ground arith in rw (e, add-one i) (beyond cs n i fd (omega arith) a)
]
  where
    inside :
        (cs : List ℤ) (n i fd : ℕ)
        → i < n
        → AllFree (drop n cs)
        → AllFree (drop n (set cs i (pos fd)))
    inside [] n i fd h a = a
    inside (c ∷ cs) zero i fd h a = absurd (omega arith)
    inside (c ∷ cs) (suc n) zero fd h a = a
    inside (c ∷ cs) (suc n) (suc i) fd h a = inside cs n i fd (omega arith) a

    rest_free : (cs : List ℤ) (n : ℕ) → AllFree cs → AllFree (drop n cs)
    rest_free cs zero a = a
    rest_free [] (suc n) a = tt
    rest_free (c ∷ cs) (suc n) a = rest_free cs n a.1

    beyond :
        (cs : List ℤ) (n i fd : ℕ)
        → n ≤ i
        → AllFree (drop n cs)
        → AllFree (drop (suc i) (set cs i (pos fd)))
    beyond [] n i fd h a = tt
    beyond (c ∷ cs) zero zero fd h a = a.1
    beyond (c ∷ cs) zero (suc i) fd h a = beyond cs zero i fd (omega arith) a.1
    beyond (c ∷ cs) (suc n) zero fd h a = absurd (omega arith)
    beyond (c ∷ cs) (suc n) (suc i) fd h a = beyond cs n i fd (omega arith) a

module _ (toupper : ℕ → ℕ) (r : Round) where
  -- A new client that is not in the set of the round is owed nothing in it.
  pub owed-set :
      (cs : List ℤ) (i fd : ℕ)
      → FirstFree cs i
      → r.rset fd ≡ false
      → (count_ready toupper r (set cs i (pos fd)) ≡ count_ready toupper r cs)
        × (all_effects toupper r (set cs i (pos fd)) ≡ all_effects toupper r cs)
  owed-set [] i fd h e = elim h [ ]
  owed-set (negsuc k ∷ cs) zero fd h e = rw e (refl, refl)
  owed-set (negsuc k ∷ cs) (suc i) fd h e = elim h [ ]
  owed-set (pos x ∷ cs) zero fd h e = elim h [ ]
  owed-set (pos x ∷ cs) (suc i) fd h e =
      let (c, l) = owed-set cs i fd h e in (omega (arith, c), rw l)

  pub has-after :
      (cs : List ℤ) (f : ℕ)
      → has (map (slot_after toupper r) cs) f ≡ (has cs f && not (r.rset f && at_end (r.read f)))
  has-after [] f = refl
  has-after (negsuc k ∷ cs) f = has-after cs f
  has-after (pos fd ∷ cs) f = ground (arith, has-after cs f)

  pub Distinct-after : (cs : List ℤ) → Distinct cs → Distinct (map (slot_after toupper r) cs)
  Distinct-after [] d = tt
  Distinct-after (negsuc k ∷ cs) d = Distinct-after cs d
  Distinct-after (pos fd ∷ cs) d = elim (Bool-cases (r.rset fd && at_end (r.read fd))) [
    | inl e ↦ rw e (Distinct-after cs d.1)
    | inr e ↦ rw e (ground (arith, has-after cs fd), Distinct-after cs d.1)
  ]

  pub AllFree-after :
      (n : ℕ) (cs : List ℤ) → AllFree (drop n cs) → AllFree (drop n (map (slot_after toupper r) cs))
  AllFree-after zero [] a = tt
  AllFree-after zero (negsuc k ∷ cs) a = (refl, AllFree-after zero cs a.1)
  AllFree-after zero (pos fd ∷ cs) a = cc
  AllFree-after (suc n) [] a = tt
  AllFree-after (suc n) (c ∷ cs) a = AllFree-after n cs a

  pub length-after : (cs : List ℤ) → length (map (slot_after toupper r) cs) ≡ length cs
  length-after [] = refl
  length-after (c ∷ cs) = ap suc (length-after cs)
