-- ===== src/Poll/Table.antt =====
-- 012_network_IO/02poll/server.c: the descriptors of the entries, and what a round does to them.
use linux_c_program_exercris.Prelude.{
  ℕ, zero, suc, ◌+◌, ◌-◌, ◌≡◌, refl, sym, ap, ◌≢◌, ◌⊎◌, inl, inr, false, ◌||◌, Option, none, some,
  List, [], ◌∷◌, arith, ◌==◌, if◌then◌else◌, Bool-cases, ℤ, pos, negsuc, is_neg, length, get_elem?,
  set, drop,
}
use linux_c_program_exercris.Echo.{Read, received, read_error, Effect}
use linux_c_program_exercris.Select.Scan.{AllFree, has}
use linux_c_program_exercris.Select.Table.{Distinct, FirstFree}
use linux_c_program_exercris.Poll.Defs.{
  PollFd, Round, find_free, store, poll_fill, serve_fd, visit, scan, then_slots, skip_slot,
  econnreset,
}

abbrev pub fds : List PollFd → List ℤ
fds [] = []
fds (c ∷ cs) = c.fd ∷ fds cs

pub fds-store : (fd : ℤ) (i : ℕ) (cs : List PollFd) → fds (store fd i cs) ≡ set (fds cs) i fd
unfolding store
fds-store fd i [] = refl
fds-store fd zero (c ∷ cs) = refl
fds-store fd (suc i) (c ∷ cs) = ap (◌∷◌ c.fd) (fds-store fd i cs)

pub find_free-FirstFree : (cs : List PollFd) (i : ℕ) → find_free cs ≡ some i → FirstFree (fds cs) i
unfolding find_free
find_free-FirstFree [] i e = cc
find_free-FirstFree (c ∷ cs) i e = at_entry (find_free-FirstFree cs) c.fd refl i e
  where
    at_entry :
        ((i : ℕ) → find_free cs ≡ some i → FirstFree (fds cs) i)
        → (d : ℤ) → c.fd ≡ d
        → (i : ℕ)
        → (if is_neg c.fd
            then some 0
            else elim (find_free cs) [ none ↦ none | some j ↦ some (suc j) ])
          ≡ some i
        → FirstFree (d ∷ fds cs) i
    at_entry next (negsuc k) h zero e = tt
    at_entry next (negsuc k) h (suc i) e = cc (sym (rw h at e))
    at_entry next (pos fd) h zero e = absurd (ground arith)
    at_entry next (pos fd) h (suc i) e = next i (ground arith)

-- Each descriptor stays or makes room.
abbrev pub Thinned : List ℤ → List ℤ → Type 0
Thinned [] [] = Unit
Thinned [] (d ∷ ds) = ⊥
Thinned (c ∷ cs) [] = ⊥
Thinned (c ∷ cs) (d ∷ ds) = ((d ≡ c) ⊎ (d ≡ negsuc 0)) × Thinned cs ds

pub Thinned-same : (cs : List ℤ) → Thinned cs cs
Thinned-same [] = tt
Thinned-same (c ∷ cs) = (inl refl, Thinned-same cs)

pub length-Thinned : (cs ds : List ℤ) → Thinned cs ds → length ds ≡ length cs
length-Thinned [] [] t = refl
length-Thinned [] (d ∷ ds) t = elim t [ ]
length-Thinned (c ∷ cs) [] t = elim t [ ]
length-Thinned (c ∷ cs) (d ∷ ds) t = ap suc (length-Thinned cs ds t.1)

pub has-Thinned : (cs ds : List ℤ) (f : ℕ) → Thinned cs ds → has cs f ≡ false → has ds f ≡ false
has-Thinned [] [] f t h = refl
has-Thinned [] (d ∷ ds) f t h = elim t [ ]
has-Thinned (c ∷ cs) [] f t h = elim t [ ]
has-Thinned (negsuc k ∷ cs) (negsuc n ∷ ds) f t h = has-Thinned cs ds f t.1 h
has-Thinned (negsuc k ∷ cs) (pos g ∷ ds) f (s, t) h = elim s [ inl e ↦ cc | inr e ↦ cc ]
has-Thinned (pos g ∷ cs) (negsuc n ∷ ds) f t h = has-Thinned cs ds f t.1 (ground arith)
has-Thinned (pos g ∷ cs) (pos g' ∷ ds) f (s, t) h = elim s [
  | inl e ↦ ground (arith, has-Thinned cs ds f t)
  | inr e ↦ cc
]

pub Distinct-Thinned : (cs ds : List ℤ) → Thinned cs ds → Distinct cs → Distinct ds
Distinct-Thinned [] [] t h = tt
Distinct-Thinned [] (d ∷ ds) t h = elim t [ ]
Distinct-Thinned (c ∷ cs) [] t h = elim t [ ]
Distinct-Thinned (negsuc k ∷ cs) (negsuc n ∷ ds) t h = Distinct-Thinned cs ds t.1 h
Distinct-Thinned (negsuc k ∷ cs) (pos g ∷ ds) (s, t) h = elim s [ inl e ↦ cc | inr e ↦ cc ]
Distinct-Thinned (pos g ∷ cs) (negsuc n ∷ ds) t h = Distinct-Thinned cs ds t.1 h.1
Distinct-Thinned (pos g ∷ cs) (pos g' ∷ ds) (s, t) h = elim s [
  | inl e ↦
      let same : g' ≡ g = ground arith in
      (rw same (has-Thinned cs ds g t h.0), Distinct-Thinned cs ds t h.1)
  | inr e ↦ cc
]

pub AllFree-Thinned :
    (n : ℕ) (cs ds : List ℤ) → Thinned cs ds → AllFree (drop n cs) → AllFree (drop n ds)
AllFree-Thinned zero [] [] t h = tt
AllFree-Thinned (suc n) [] [] t h = tt
AllFree-Thinned n [] (d ∷ ds) t h = elim t [ ]
AllFree-Thinned n (c ∷ cs) [] t h = elim t [ ]
AllFree-Thinned zero (c ∷ cs) (d ∷ ds) (s, t) h =
    (elim s [ inl e ↦ rw e h.0 | inr e ↦ rw e refl ], AllFree-Thinned zero cs ds t h.1)
AllFree-Thinned (suc n) (c ∷ cs) (d ∷ ds) t h = AllFree-Thinned n cs ds t.1 h

module _ (toupper : ℕ → ℕ) (r : Round) where
  pub fds-poll_fill : (n i : ℕ) (cs : List PollFd) → fds (poll_fill toupper r n i cs) ≡ fds cs
  unfolding poll_fill
  fds-poll_fill zero i cs = refl
  fds-poll_fill (suc n) i [] = refl
  fds-poll_fill (suc n) i (c ∷ cs) = ap (◌∷◌ c.fd) (fds-poll_fill n (i + 1) cs)

  -- What the loop leaves, when the program goes on.
  abbrev pub Leaves : List PollFd → Option (List PollFd × List Effect) → Type 0
  Leaves cs none = Unit
  Leaves cs (some (ds, calls)) = Thinned (fds cs) (fds ds)

  Leaves-skip_slot :
      (c : PollFd) (cs : List PollFd) (o : Option (List PollFd × List Effect))
      → Leaves cs o
      → Leaves (c ∷ cs) (skip_slot c o)
  Leaves-skip_slot c cs none h = tt
  Leaves-skip_slot c cs (some (ds, calls)) h = (inl refl, h)

  Leaves-then_slots :
      (c : PollFd) (cs : List PollFd) (a : Option (ℤ × List Effect))
      (o : Option (List PollFd × List Effect))
      → ((d : ℤ) (calls : List Effect) → a ≡ some (d, calls) → (d ≡ c.fd) ⊎ (d ≡ negsuc 0))
      → Leaves cs o
      → Leaves (c ∷ cs) (then_slots a c o)
  Leaves-then_slots c cs none o e h = tt
  Leaves-then_slots c cs (some (d, calls)) none e h = tt
  Leaves-then_slots c cs (some (d, calls)) (some (ds, more)) e h = (e d calls refl, h)

  serve_fd-slot :
      (fd : ℕ) (x : Read) (d : ℤ) (calls : List Effect)
      → serve_fd toupper r fd x ≡ some (d, calls)
      → (d ≡ pos fd) ⊎ (d ≡ negsuc 0)
  unfolding serve_fd
  serve_fd-slot fd (received []) d calls e = inr (ground arith)
  serve_fd-slot fd (received (b ∷ bs)) d calls e = inl (ground arith)
  serve_fd-slot fd (read_error n) d calls e = elim (Bool-cases (n == econnreset)) [
    | inl reset ↦ inr (ground arith)
    | inr other ↦ absurd (ground arith)
  ]

  Leaves-visit :
      (c : PollFd) (d : ℤ) (left : ℕ) (skipped rest : Option (List PollFd × List Effect))
      (cs : List PollFd)
      → c.fd ≡ d
      → Leaves cs skipped
      → Leaves cs rest
      → Leaves (c ∷ cs) (visit toupper r c d left skipped rest cs)
  unfolding visit
  Leaves-visit c (negsuc k) left skipped rest cs e a b = Leaves-skip_slot c cs skipped a
  Leaves-visit c (pos fd) left skipped rest cs e a b =
      elim (Bool-cases (c.revents_in || c.revents_err)) [
        | inr quiet ↦ rw quiet (Leaves-skip_slot c cs skipped a)
        | inl ready ↦ elim (Bool-cases (left == 1)) [
          | inl last ↦
              rw (ready, last)
                (Leaves-then_slots c cs _ (some (cs, [])) slot (Thinned-same (fds cs)))
          | inr more ↦ rw (ready, more) (Leaves-then_slots c cs _ rest slot b)
        ]
      ]
    where
      slot :
          (d' : ℤ) (calls : List Effect)
          → serve_fd toupper r fd (r.read fd) ≡ some (d', calls)
          → (d' ≡ c.fd) ⊎ (d' ≡ negsuc 0)
      slot d' calls run = rw e (serve_fd-slot fd (r.read fd) d' calls run)

  pub scan-Leaves : (n : ℕ) (cs : List PollFd) (left : ℕ) → Leaves cs (scan toupper r n cs left)
  unfolding scan
  scan-Leaves zero cs left = Thinned-same (fds cs)
  scan-Leaves (suc n) [] left = tt
  scan-Leaves (suc n) (c ∷ cs) left =
      Leaves-visit c c.fd left _ _ cs refl (scan-Leaves n cs left) (scan-Leaves n cs (left - 1))

  -- The entry of the listening socket, whose reads fail: it stays, or the program ends.
  abbrev pub Heads : ℕ → Option (List PollFd × List Effect) → Type 0
  Heads l none = Unit
  Heads l (some (ds, calls)) = get_elem? (fds ds) 0 ≡ some (pos l)

  Heads-skip_slot :
      (l : ℕ) (c : PollFd) (o : Option (List PollFd × List Effect))
      → c.fd ≡ pos l
      → Heads l (skip_slot c o)
  Heads-skip_slot l c none e = tt
  Heads-skip_slot l c (some (ds, calls)) e = ap some e

  pub scan-Heads :
      (n : ℕ) (c : PollFd) (cs : List PollFd) (left l e : ℕ)
      → c.fd ≡ pos l
      → r.read l ≡ read_error e
      → e ≢ econnreset
      → Heads l (scan toupper r n (c ∷ cs) left)
  unfolding scan visit serve_fd
  scan-Heads zero c cs left l e own fails other = ap some own
  scan-Heads (suc n) c cs left l e own fails other =
      let no_reset : (e == econnreset) ≡ false = ground arith in
      elim (Bool-cases (c.revents_in || c.revents_err)) [
        | inr quiet ↦ simp (own, quiet) (Heads-skip_slot l c (scan toupper r n cs left) own)
        | inl ready ↦ elim (Bool-cases (left == 1)) [
          | inl last ↦ simp (own, ready, last, fails, no_reset) tt
          | inr more ↦ simp (own, ready, more, fails, no_reset) tt
        ]
      ]
