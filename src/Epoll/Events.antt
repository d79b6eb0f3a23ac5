-- ===== src/Epoll/Events.antt =====
-- 012_network_IO/03epoll/server.c: the events of a round one by one, and the reset of a connection.
use linux_c_program_exercris.Prelude.{
  ℕ, ◌≡◌, refl, ◌∙◌, ◌≢◌, inl, inr, true, false, Option, none, some, [], ◌∷◌, arith, ◌==◌,
  Bool-cases, ℤ, pos, negsuc, get_elem?, length-set, get_elem?-get_or, ap, ◌⊎◌,
}
use linux_c_program_exercris.Echo.{Read, received, read_error}
use linux_c_program_exercris.Select.Scan.{has}
use linux_c_program_exercris.Select.Table.{has-set, Distinct-set, AllFree-set, FirstFree}
use linux_c_program_exercris.Epoll.Defs.{
  Server, Round, Event, Outcome, running, exits, closed, find_free, accept_at, serve_fd,
  handle_event, econnreset, update,
}
use linux_c_program_exercris.Epoll.Table.{IsRegistered, find_free-FirstFree, ended-IsRegistered}

-- An event either ends the program or leaves a well-formed table.
abbrev pub Keeps : Outcome → Type 0
Keeps (running t calls) = IsRegistered t
Keeps (exits n) = Unit

-- A connection was reset by its client.
abbrev pub IsReset : Read → Type 0
IsReset x = x ≡ read_error econnreset

module _ (toupper : ℕ → ℕ) (r : Round) where
  accept_at-Keeps :
      (s : Server) (c : ℤ) (o : Option ℕ)
      → find_free s.client ≡ o
      → ((fd : ℕ) → c ≡ pos fd → s.registered fd ≡ false)
      → IsRegistered s
      → Keeps (accept_at toupper r s c o)
  unfolding accept_at
  accept_at-Keeps s c none e new v = tt
  accept_at-Keeps s (negsuc k) (some j) e new v = tt
  accept_at-Keeps s (pos fd) (some j) e new v = elim (Bool-cases (r.ctl fd)) [
    | inr fails ↦ rw fails tt
    | inl done ↦ rw done (record {
      sized = length-set s.client j (pos fd) ∙ v.sized;
      tail = AllFree-set s.client s.maxi j fd free v.tail;
      apart = Distinct-set s.client j fd free absent v.apart;
      own = ground (arith, has-set s.client j fd s.listenfd free, v.own, v.watch fd, new fd refl);
      watch = λ f. ground (arith, has-set s.client j fd f free, v.watch f);
    })
  ]
    where
      free : FirstFree s.client j
      free = find_free-FirstFree s.client j e

      absent : has s.client fd ≡ false
      absent = ground (arith, v.watch fd, new fd refl)

  serve_fd-Keeps :
      (s : Server) (i fd : ℕ) (x : Read)
      → (fd == s.listenfd) ≡ false
      → IsRegistered s
      → IsReset x ⊎ Keeps (serve_fd toupper r s i fd x)
  unfolding serve_fd
  serve_fd-Keeps s i fd (received []) ne v = elim (Bool-cases (r.ctl fd)) [
    | inr fails ↦ inr (rw fails tt)
    | inl done ↦ inr (rw done (ended-IsRegistered toupper r s fd v ne))
  ]
  serve_fd-Keeps s i fd (received (b ∷ bs)) ne v = inr v
  serve_fd-Keeps s i fd (read_error e) ne v = elim (Bool-cases (e == econnreset)) [
    | inl reset ↦ let same : e ≡ econnreset = ground arith in inl (ap read_error same)
    | inr other ↦ inr (rw other tt)
  ]

  -- Whatever is ready, each event ends the program, is a reset, or keeps the table: the registered
  -- set is the listening socket and the table's descriptors, no descriptor stands twice, and the
  -- slots past the maximum are free; a new connection must not be registered already.
  pub handle_event-Keeps :
      (s : Server) (i : ℕ) (e : Event)
      → ((e.fd == s.listenfd) ≡ true → (fd : ℕ) → r.connfd ≡ pos fd → s.registered fd ≡ false)
      → IsRegistered s
      → IsReset (r.read e.fd) ⊎ Keeps (handle_event toupper r s i e)
  unfolding handle_event
  handle_event-Keeps s i e new v = elim (Bool-cases (e.fd == s.listenfd)) [
    | inl here ↦ inr (rw here (accept_at-Keeps s r.connfd (find_free s.client) refl (new here) v))
    | inr there ↦ elim (Bool-cases e.epollin) [
      | inl data_in ↦ rw (there, data_in) (serve_fd-Keeps s i e.fd (r.read e.fd) there v)
      | inr quiet ↦ inr (rw (there, quiet) v)
    ]
  ]

  -- A reset connection: the code closes whatever stands in the slot with the index of the event,
  -- which leaves the registered set, and the connection itself in the table and registered.
  pub reset_closes_wrong_slot :
      (s : Server) (i fd n : ℕ)
      → IsRegistered s
      → has s.client fd ≡ true
      → r.read fd ≡ read_error econnreset
      → get_elem? s.client i ≡ some (pos n)
      → n ≢ fd
      → handle_event toupper r s i (record { fd = fd; epollin = true })
        ≡ running (record s { registered = update s.registered n false }) (closed (pos n) ∷ [])
  unfolding handle_event
  reset_closes_wrong_slot s i fd n v h e slot ne =
      let other : (fd == s.listenfd) ≡ false = ground (arith, v.own) in
      simp (other, e, get_elem?-get_or s.client i (pos n) (negsuc 0) slot)
