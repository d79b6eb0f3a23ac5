-- ===== src/Poll/Opened.antt =====
-- 012_network_IO/02poll/server.c: the open descriptors of the process, and that the table names no
-- descriptor that a round has closed.
use linux_c_program_exercris.Prelude.{
  ℕ, zero, suc, ◌-◌, ◌≡◌, refl, sym, ap, subst, ◌∙◌, inl, inr, Bool, true, false, not, ◌&&◌, ◌||◌,
  Option, none, some, List, [], ◌∷◌, arith, ◌==◌, Bool-cases, ℤ, pos, negsuc,
}
use linux_c_program_exercris.Echo.{Read, Effect, wrote, write_failed, closed, received, read_error}
use linux_c_program_exercris.Select.Scan.{has}
use linux_c_program_exercris.Select.Table.{Distinct}
use linux_c_program_exercris.Poll.Defs.{
  PollFd, Round, serve_fd, visit, scan, then_slots, skip_slot, econnreset,
}
use linux_c_program_exercris.Poll.Table.{
  fds, Thinned, Thinned-same, has-Thinned, Leaves, scan-Leaves,
}

abbrev pub is_closed : ℕ → List Effect → Bool
is_closed f [] = false
is_closed f (closed g ∷ es) = f == g || is_closed f es
is_closed f (wrote g bs ∷ es) = is_closed f es
is_closed f (write_failed g ∷ es) = is_closed f es

-- The open descriptors after the calls of a round.
abbrev pub after_closes : (ℕ → Bool) → List Effect → ℕ → Bool
after_closes opened calls f = opened f && not (is_closed f calls)

-- The descriptors of a table are open.
abbrev pub Held : (ℕ → Bool) → List PollFd → Type 0
Held opened cs = (f : ℕ) → has (fds cs) f ≡ true → opened f ≡ true

-- What was closed stood in the table and stands there no longer.
abbrev pub Gone : List ℤ → Option (List PollFd × List Effect) → Type 0
Gone cs none = Unit
Gone cs (some (ds, calls)) =
    (f : ℕ) → is_closed f calls ≡ true → (has cs f ≡ true) × (has (fds ds) f ≡ false)

Distinct-tail : (d : ℤ) (cs : List ℤ) → Distinct (d ∷ cs) → Distinct cs
Distinct-tail (negsuc k) cs h = h
Distinct-tail (pos x) cs h = h.1

apart_from : (cs : List ℤ) (x f : ℕ) → has cs x ≡ false → has cs f ≡ true → (f == x) ≡ false
apart_from cs x f h t = elim (Bool-cases (f == x)) [
  | inr other ↦ other
  | inl e ↦
      let same : f ≡ x = ground arith in
      let bad : true ≡ false = sym t ∙ ap (has cs) same ∙ h in absurd (ground arith)
]

-- An entry that keeps its descriptor.
Gone-kept :
    (d : ℤ) (cs ds : List ℤ) (f : ℕ)
    → Distinct (d ∷ cs)
    → (has cs f ≡ true) × (has ds f ≡ false)
    → (has (d ∷ cs) f ≡ true) × (has (d ∷ ds) f ≡ false)
Gone-kept (negsuc k) cs ds f h g = g
Gone-kept (pos x) cs ds f h (t, g) =
    let other = apart_from cs x f h.0 t in (ground (arith, t), ground (arith, g, other))

Gone-skip_slot :
    (c : PollFd) (cs : List PollFd) (o : Option (List PollFd × List Effect))
    → Distinct (fds (c ∷ cs))
    → Gone (fds cs) o
    → Gone (fds (c ∷ cs)) (skip_slot c o)
Gone-skip_slot c cs none h g = tt
Gone-skip_slot c cs (some (ds, calls)) h g = λ f e. Gone-kept c.fd (fds cs) (fds ds) f h (g f e)

module _ (toupper : ℕ → ℕ) (r : Round) where
  -- An entry whose descriptor was closed.
  Gone-closed :
      (c : PollFd) (cs ds : List PollFd) (fd f : ℕ) (more : List Effect)
      → c.fd ≡ pos fd
      → Distinct (pos fd ∷ fds cs)
      → Thinned (fds cs) (fds ds)
      → ((g : ℕ) → is_closed g more ≡ true → (has (fds cs) g ≡ true) × (has (fds ds) g ≡ false))
      → (f == fd || is_closed f more) ≡ true
      → (has (fds (c ∷ cs)) f ≡ true) × (has (fds ds) f ≡ false)
  Gone-closed c cs ds fd f more own h thin g e = elim (Bool-cases (f == fd)) [
    | inl here ↦
        let same : f ≡ fd = ground arith in
        (
          rw own (simp here refl),
          ap (has (fds ds)) same ∙ has-Thinned (fds cs) (fds ds) fd thin h.0,
        )
    | inr there ↦ let (t, b) = g f (simp there at e) in (rw own (simp there t), b)
  ]

  Gone-then_slots :
      (c : PollFd) (cs : List PollFd) (fd : ℕ) (x : Read) (o : Option (List PollFd × List Effect))
      → c.fd ≡ pos fd
      → Distinct (fds (c ∷ cs))
      → Leaves toupper r cs o
      → Gone (fds cs) o
      → Gone (fds (c ∷ cs)) (then_slots (serve_fd toupper r fd x) c o)
  unfolding serve_fd
  Gone-then_slots c cs fd (received []) none own h thin g = tt
  Gone-then_slots c cs fd (received []) (some (ds, more)) own h thin g =
      λ f e. Gone-closed c cs ds fd f more own (subst (λ d. Distinct (d ∷ fds cs)) own h) thin g e
  Gone-then_slots c cs fd (received (b ∷ bs)) none own h thin g = tt
  Gone-then_slots c cs fd (received (b ∷ bs)) (some (ds, more)) own h thin g = λ f e.
      subst (λ d. (has (c.fd ∷ fds cs) f ≡ true) × (has (d ∷ fds ds) f ≡ false)) own
        (Gone-kept c.fd (fds cs) (fds ds) f h (g f e))
  Gone-then_slots c cs fd (read_error n) o own h thin g = elim (Bool-cases (n == econnreset)) [
    | inr other ↦ rw other tt
    | inl reset ↦ rw reset (closes o thin g)
  ]
    where
      closes :
          (o : Option (List PollFd × List Effect))
          → Leaves toupper r cs o
          → Gone (fds cs) o
          → Gone (fds (c ∷ cs)) (then_slots (some (negsuc 0, closed fd ∷ [])) c o)
      closes none thin g = tt
      closes (some (ds, more)) thin g = λ f e.
          Gone-closed c cs ds fd f more own (subst (λ d. Distinct (d ∷ fds cs)) own h) thin g e

  Gone-visit :
      (c : PollFd) (d : ℤ) (left : ℕ) (skipped rest : Option (List PollFd × List Effect))
      (cs : List PollFd)
      → c.fd ≡ d
      → Distinct (fds (c ∷ cs))
      → Gone (fds cs) skipped
      → Leaves toupper r cs rest
      → Gone (fds cs) rest
      → Gone (fds (c ∷ cs)) (visit toupper r c d left skipped rest cs)
  unfolding visit
  Gone-visit c (negsuc k) left skipped rest cs e h a thin b = Gone-skip_slot c cs skipped h a
  Gone-visit c (pos fd) left skipped rest cs e h a thin b =
      elim (Bool-cases (c.revents_in || c.revents_err)) [
        | inr quiet ↦ rw quiet (Gone-skip_slot c cs skipped h a)
        | inl ready ↦ elim (Bool-cases (left == 1)) [
          | inl last ↦
              rw (ready, last)
                (Gone-then_slots c cs fd (r.read fd) (some (cs, [])) e h (Thinned-same (fds cs))
                  (λ f x. absurd (ground arith)))
          | inr more ↦ rw (ready, more) (Gone-then_slots c cs fd (r.read fd) rest e h thin b)
        ]
      ]

  scan-Gone :
      (n : ℕ) (cs : List PollFd) (left : ℕ)
      → Distinct (fds cs)
      → Gone (fds cs) (scan toupper r n cs left)
  unfolding scan
  scan-Gone zero cs left h = λ f x. absurd (ground arith)
  scan-Gone (suc n) [] left h = λ f x. absurd (ground arith)
  scan-Gone (suc n) (c ∷ cs) left h =
      let t = Distinct-tail c.fd (fds cs) h in
      Gone-visit c c.fd left _ _ cs refl h (scan-Gone n cs left t)
        (scan-Leaves toupper r n cs (left - 1)) (scan-Gone n cs (left - 1) t)

  -- What is left of the table after the loop is open.
  pub scan-Held :
      (opened : ℕ → Bool) (n : ℕ) (cs ds : List PollFd) (left : ℕ) (calls : List Effect)
      → Distinct (fds cs)
      → Held opened cs
      → scan toupper r n cs left ≡ some (ds, calls)
      → Held (after_closes opened calls) ds
  scan-Held opened n cs ds left calls h held run f t =
      let gone = subst (Gone (fds cs)) run (scan-Gone n cs left h) f in
      let thin = subst (Leaves toupper r cs) run (scan-Leaves toupper r n cs left) in
      let before : has (fds cs) f ≡ true = elim (Bool-cases (has (fds cs) f)) [
        | inl y ↦ y
        | inr n ↦
            let bad : true ≡ false = sym t ∙ has-Thinned (fds cs) (fds ds) f thin n in
            absurd (ground arith)
      ] in
      ground (arith, held f before, gone)
