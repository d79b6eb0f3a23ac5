-- ===== src/Poll/Scan.antt =====
-- 012_network_IO/02poll/server.c: the loop over the entries, against one that never stops early,
-- and the round in which the listening socket is not the only ready descriptor.
use linux_c_program_exercris.Prelude.{
  ℕ, zero, suc, ◌+◌, ◌-◌, ◌≤◌, ◌≡◌, refl, sym, ap, ◌∙◌, ◌≢◌, inl, inr, true, false, ◌||◌, Option,
  none, some, List, [], ◌∷◌, map, arith, leb, ◌==◌, if◌then◌else◌, Bool-cases, ℤ, pos, negsuc,
  is_neg, drop,
}
use native.Mathlib.Numerals.{add-one}
use linux_c_program_exercris.Echo.{
  Read, received, read_error, maxline, Effect, wrote, closed, echo-map,
}
use linux_c_program_exercris.Poll.Defs.{
  PollFd, Server, Round, exits, serve_fd, then_slots, skip_slot, visit, scan, serve_clients,
  accept_at, round_of, round, poll_fill, find_free, store, econnreset,
}

abbrev pub AllFree : List PollFd → Type 0
AllFree [] = Unit
AllFree (c ∷ cs) = (is_neg c.fd ≡ true) × AllFree cs

module _ (toupper : ℕ → ℕ) (r : Round) where
  -- What a ready entry is owed, in terms of its descriptor alone; `none` ends the program.
  abbrev pub answer : ℕ → Read → Option (ℤ × List Effect)
  answer fd (received []) = some (negsuc 0, closed fd ∷ [])
  answer fd (received (b ∷ bs)) = some (pos fd, wrote fd (map toupper (b ∷ bs)) ∷ [])
  answer fd (read_error e) = if e == econnreset then some (negsuc 0, closed fd ∷ []) else none

  abbrev pub owed :
      PollFd → ℤ → Option (List PollFd × List Effect) → Option (List PollFd × List Effect)
  owed c (negsuc k) rest = skip_slot c rest
  owed c (pos fd) rest =
      if c.revents_in || c.revents_err
      then then_slots (answer fd (r.read fd)) c rest
      else skip_slot c rest

  -- The whole table, entry by entry.
  abbrev pub serve_all : List PollFd → Option (List PollFd × List Effect)
  serve_all [] = some ([], [])
  serve_all (c ∷ cs) = owed c c.fd (serve_all cs)

  abbrev pub is_ready : PollFd → ℤ → ℕ
  is_ready c (negsuc k) = 0
  is_ready c (pos fd) = if c.revents_in || c.revents_err then 1 else 0

  abbrev pub count_ready : List PollFd → ℕ
  count_ready [] = 0
  count_ready (c ∷ cs) = is_ready c c.fd + count_ready cs

  serve_fd-answer : (fd : ℕ) (x : Read) → serve_fd toupper r fd x ≡ answer fd x
  unfolding serve_fd
  serve_fd-answer fd (received []) = refl
  serve_fd-answer fd (received (b ∷ bs)) =
      ap (λ l. some (pos fd, wrote fd l ∷ [])) (echo-map toupper maxline (b ∷ bs))
  serve_fd-answer fd (read_error e) = refl

  none_ready-entry :
      (c : PollFd) (d : ℤ) (cs : List PollFd)
      → is_ready c d ≡ 0
      → owed c d (some (cs, [])) ≡ some (c ∷ cs, [])
  none_ready-entry c (negsuc k) cs h = refl
  none_ready-entry c (pos fd) cs h = ground arith

  none_ready : (cs : List PollFd) → count_ready cs ≡ 0 → serve_all cs ≡ some (cs, [])
  none_ready [] h = refl
  none_ready (c ∷ cs) h =
      ap (owed c c.fd) (none_ready cs (omega arith)) ∙ none_ready-entry c c.fd cs (omega arith)

  free_entry : (c : PollFd) (d : ℤ) → is_neg d ≡ true → is_ready c d ≡ 0
  free_entry c (negsuc k) e = refl
  free_entry c (pos fd) e = cc

  free-none_ready : (cs : List PollFd) → AllFree cs → count_ready cs ≡ 0
  free-none_ready [] a = refl
  free-none_ready (c ∷ cs) a = omega (arith, free_entry c c.fd a.0, free-none_ready cs a.1)

  visit-owed :
      (c : PollFd) (d : ℤ) (cs : List PollFd) (left : ℕ)
      (skipped rest : Option (List PollFd × List Effect))
      → (is_ready c d ≡ 0 → skipped ≡ serve_all cs)
      → (is_ready c d ≡ 1 → (left == 1) ≡ true → serve_all cs ≡ some (cs, []))
      → (is_ready c d ≡ 1 → (left == 1) ≡ false → rest ≡ serve_all cs)
      → visit toupper r c d left skipped rest cs ≡ owed c d (serve_all cs)
  unfolding visit
  visit-owed c (negsuc k) cs left skipped rest a b e = ap (skip_slot c) (a refl)
  visit-owed c (pos fd) cs left skipped rest a b e =
      elim (Bool-cases (c.revents_in || c.revents_err)) [
        | inr quiet ↦ rw quiet (ap (skip_slot c) (a (rw quiet)))
        | inl ready ↦ elim (Bool-cases (left == 1)) [
          | inl last ↦ rw (ready, last, serve_fd-answer, b (rw ready) last)
          | inr more ↦ rw (ready, more, serve_fd-answer, e (rw ready) more)
        ]
      ]

  -- The loop counts down the ready descriptors and stops at the last: if `poll` counts them, it
  -- does to the entries, in order, what a loop over the whole table would do, and it ends the
  -- program exactly when that would.
  pub scan-serve_all :
      (n : ℕ) (cs : List PollFd) (left : ℕ)
      → AllFree (drop n cs)
      → count_ready cs ≤ left
      → scan toupper r n cs left ≡ serve_all cs
  unfolding scan
  scan-serve_all zero cs left a h = sym (none_ready cs (free-none_ready cs a))
  scan-serve_all (suc n) [] left a h = refl
  scan-serve_all (suc n) (c ∷ cs) left a h =
      visit-owed c c.fd cs left _ _ (λ e. scan-serve_all n cs left a (omega arith))
        (λ e last. none_ready cs (ground arith))
        (λ e more. scan-serve_all n cs (left - 1) a (ground arith))

  find_free-taken :
      (c : PollFd) (cs : List PollFd) (l i : ℕ)
      → c.fd ≡ pos l
      → find_free (c ∷ cs) ≡ some i
      → (k : ℕ) × (i ≡ suc k)
  unfolding find_free
  find_free-taken c cs l zero e h = absurd (ground arith)
  find_free-taken c cs l (suc k) e h = (k, refl)

  scan_dies :
      (m : ℕ) (c : PollFd) (cs : List PollFd) (l e left : ℕ)
      → c.fd ≡ pos l
      → c.revents_in ≡ true
      → r.read l ≡ read_error e
      → (e == econnreset) ≡ false
      → scan toupper r (suc m) (c ∷ cs) left ≡ none
  unfolding scan visit serve_fd
  scan_dies m c cs l e left ec ready err ne = simp (ec, ready, err, ne) (ground arith)

  round_dies :
      (m : ℕ) (c : PollFd) (cs : List PollFd) (l k e left : ℕ)
      → c.fd ≡ pos l
      → c.revents_in ≡ true
      → find_free (c ∷ cs) ≡ some (suc k)
      → (left == 1) ≡ false
      → r.read l ≡ read_error e
      → (e == econnreset) ≡ false
      → round_of toupper r (c ∷ cs) (suc m) (pos left) ≡ exits (negsuc 2)
  unfolding round_of accept_at serve_clients store
  round_dies m c cs l k e left ec ready slot many err ne =
      simp (ready, slot, many)
        (elim (Bool-cases (leb (suc m) (suc k))) [
          | inl past ↦ rw (
            past,
            add-one (suc k),
            scan_dies (suc k) c (store r.connfd k cs) l e (left - 1) ec ready err ne,
          )
          | inr within ↦
              rw (within, scan_dies m c (store r.connfd k cs) l e (left - 1) ec ready err ne)
        ])

  -- The loop starts at entry 0, the listening socket's own. When that has a connection, a slot is
  -- free and some other descriptor is ready too, the program reads from the listening socket; if
  -- such a read fails with an error other than a reset, the program exits with -3.
  pub listen_and_data_exits :
      (s : Server) (c : PollFd) (cs : List PollFd) (n l i e left : ℕ)
      → s.client ≡ c ∷ cs
      → s.maxi ≡ suc n
      → c.fd ≡ pos l
      → r.pollin 0 ≡ true
      → r.nready ≡ pos left
      → left ≢ 1
      → find_free (poll_fill toupper r s.maxi 0 s.client) ≡ some i
      → r.read l ≡ read_error e
      → e ≢ econnreset
      → round toupper r s ≡ exits (negsuc 2)
  unfolding round poll_fill
  listen_and_data_exits s c cs n l i e left es em ec ready nr many slot err ne =
      let (k, ek) =
        find_free-taken filled (poll_fill toupper r n 1 cs) l i ec (rw (es, em) at slot) in
      let none_reset : (e == econnreset) ≡ false = ground arith in
      let not_last : (left == 1) ≡ false = ground arith in
      simp (es, em, nr)
        (round_dies n filled (poll_fill toupper r n 1 cs) l k e left ec ready
          (rw (es, em) at slot ∙ ap some ek) not_last err none_reset)
    where
      filled : PollFd
      filled = record c { revents_in = r.pollin 0; revents_err = r.pollerr 0 }
