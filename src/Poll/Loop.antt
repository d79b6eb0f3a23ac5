-- ===== src/Poll/Loop.antt =====
-- 012_network_IO/02poll/server.c: the endless loop, along any list of rounds.
use linux_c_program_exercris.Prelude.{
  ℕ, zero, suc, ◌+◌, ◌-◌, ◌≡◌, refl, sym, ap, subst, ◌∙◌, ◌≢◌, ◌⊎◌, inl, inr, true, false, Option,
  none, some, List, [], ◌∷◌, ◌++◌, arith, leb, ◌==◌, if◌then◌else◌, Bool-cases, ℤ, pos, negsuc, set,
  Bool, ◌||◌,
}
use linux_c_program_exercris.Echo.{read_error, Effect}
use linux_c_program_exercris.Select.Scan.{has}
use linux_c_program_exercris.Select.Table.{has-set, Distinct, FirstFree}
use linux_c_program_exercris.Poll.Defs.{
  PollFd, Server, Round, Outcome, running, exits, find_free, store, poll_fill, scan, after_scan,
  serve_clients, accept_at, round_of, round, listen_ready, econnreset,
}
use linux_c_program_exercris.Poll.Entries.{
  IsTable, Thinned-IsTable, stored-IsTable, refused-IsTable, Thinned-set,
}
use linux_c_program_exercris.Poll.Opened.{Held, after_closes, scan-Held}
use linux_c_program_exercris.Poll.Table.{
  fds, fds-store, fds-poll_fill, find_free-FirstFree, Leaves, scan-Leaves, Heads, scan-Heads,
  has-Thinned,
}

-- A server goes on with a well-formed table, or exits with -1, -2 or -3.
abbrev pub GoesOn : ℕ → Outcome → Type 0
GoesOn l (running t calls) = IsTable l t.client t.maxi
GoesOn l (exits n) = (n ≡ negsuc 0) ⊎ (n ≡ negsuc 1) ⊎ (n ≡ negsuc 2)

abbrev pub with_calls : List Effect → Outcome → Outcome
with_calls calls (running s more) = running s (calls ++ more)
with_calls calls (exits n) = exits n

-- The next rounds, after one.
abbrev pub go_on : Outcome → (Server → Outcome) → Outcome
go_on (running t calls) next = with_calls calls (next t)
go_on (exits n) next = exits n

module _ (toupper : ℕ → ℕ) where
  -- `while(1)`, as far as the answers of the kernel go.
  unfoldable pub serve_poll : Server → List Round → Outcome
  serve_poll s [] = running s []
  serve_poll s (r ∷ rs) = go_on (round toupper r s) (λ t. serve_poll t rs)

  -- The open descriptors after a round with these calls: the new connection's is opened first.
  abbrev pub opens : Bool → ℤ → (ℕ → Bool) → ℕ → Bool
  opens true (pos fd) opened f = f == fd || opened f
  opens true (negsuc k) opened f = opened f
  opens false connfd opened f = opened f

  abbrev pub opened_after : (ℕ → Bool) → Round → List Effect → ℕ → Bool
  opened_after opened r calls = after_closes (opens (r.pollin 0) r.connfd opened) calls

  -- What `accept` answers: -1, or a descriptor that was not open.
  abbrev pub Accepted : (ℕ → Bool) → ℤ → Type 0
  Accepted opened c = (c ≡ negsuc 0) ⊎ ((fd : ℕ) × (c ≡ pos fd) × (opened fd ≡ false))

  -- What the kernel promises in a round: a connection that is ready has a descriptor that was not
  -- open, or is not accepted, and a read of the listening socket fails, with another error than a
  -- reset.
  pub record Promised (opened : ℕ → Bool) (l : ℕ) (r : Round) : Type 0 where
    pub connects : r.pollin 0 ≡ true → Accepted opened r.connfd
    pub error : ℕ
    pub refuses : r.read l ≡ read_error error
    pub other : error ≢ econnreset

  -- The kernel keeps its promise in every round that is reached.
  abbrev pub AllPromised : (ℕ → Bool) → ℕ → Server → List Round → Type 0
  AllPromised opened l s [] = Unit
  AllPromised opened l s (r ∷ rs) =
      Promised opened l r
      × ((t : Server) (calls : List Effect)
          → round toupper r s ≡ running t calls
          → AllPromised (opened_after opened r calls) l t rs)

  after_scan-GoesOn :
      (r : Round) (l n : ℕ) (cs : List PollFd) (o : Option (List PollFd × List Effect))
      → IsTable l cs n
      → Leaves toupper r cs o
      → Heads toupper r l o
      → GoesOn l (after_scan n o)
  after_scan-GoesOn r l n cs none v t h = inr (inr refl)
  after_scan-GoesOn r l n cs (some (ds, calls)) v t h = Thinned-IsTable l n cs ds t h v

  serve_clients-GoesOn :
      (r : Round) (l n left e : ℕ) (cs : List PollFd)
      → IsTable l cs n
      → r.read l ≡ read_error e
      → e ≢ econnreset
      → GoesOn l (serve_clients toupper r cs n left)
  unfolding serve_clients
  serve_clients-GoesOn r l n left e [] v fails other = absurd (ground (arith, v.own))
  serve_clients-GoesOn r l n left e (c ∷ cs) v fails other =
      let own : c.fd ≡ pos l = ground (arith, v.own) in
      after_scan-GoesOn r l n (c ∷ cs) (scan toupper r n (c ∷ cs) left) v
        (scan-Leaves toupper r n (c ∷ cs) left)
        (scan-Heads toupper r n c cs left l e own fails other)

  accept_at-GoesOn :
      (r : Round) (l n left e : ℕ) (cs : List PollFd) (o : Option ℕ)
      → ((i : ℕ) → o ≡ some i → IsTable l (store r.connfd i cs) (if leb n i then i + 1 else n))
      → r.read l ≡ read_error e
      → e ≢ econnreset
      → GoesOn l (accept_at toupper r cs n left o)
  unfolding accept_at
  accept_at-GoesOn r l n left e cs none v fails other = inr (inl refl)
  accept_at-GoesOn r l n left e cs (some i) v fails other = elim (Bool-cases (left == 1)) [
    | inl last ↦ simp last (v i refl)
    | inr more ↦ simp more (serve_clients-GoesOn r l _ (left - 1) e _ (v i refl) fails other)
  ]

  filled-IsTable :
      (r : Round) (l n : ℕ) (cs : List PollFd)
      → IsTable l cs n
      → IsTable l (poll_fill toupper r n 0 cs) n
  filled-IsTable r l n cs v =
      let e = fds-poll_fill toupper r n 0 cs in
      record {
        own = rw e v.own;
        sized = rw e v.sized;
        apart = rw e v.apart;
        tail = rw e v.tail;
        some_given = v.some_given;
      }

  -- What `poll` wrote into the entry of the listening socket.
  listen_ready-poll_fill :
      (r : Round) (l n : ℕ) (cs : List PollFd)
      → IsTable l cs n
      → listen_ready (poll_fill toupper r n 0 cs) ≡ r.pollin 0
  unfolding poll_fill
  listen_ready-poll_fill r l zero cs v = absurd (omega (arith, v.some_given))
  listen_ready-poll_fill r l (suc n) [] v = absurd (ground (arith, v.own))
  listen_ready-poll_fill r l (suc n) (c ∷ cs) v = refl

  not-Held :
      (opened : ℕ → Bool) (cs : List PollFd) (fd : ℕ)
      → Held opened cs
      → opened fd ≡ false
      → has (fds cs) fd ≡ false
  not-Held opened cs fd held fresh = elim (Bool-cases (has (fds cs) fd)) [
    | inr absent ↦ absent
    | inl there ↦ let bad : true ≡ false = sym (held fd there) ∙ fresh in absurd (ground arith)
  ]

  -- After the calls of a round the table names only open descriptors.
  abbrev HeldIn : (ℕ → Bool) → Outcome → Type 0
  HeldIn opened (running t calls) = Held (after_closes opened calls) t.client
  HeldIn opened (exits n) = Unit

  serve_clients-Held :
      (r : Round) (opened : ℕ → Bool) (cs : List PollFd) (n left : ℕ)
      → Distinct (fds cs)
      → Held opened cs
      → HeldIn opened (serve_clients toupper r cs n left)
  unfolding serve_clients
  serve_clients-Held r opened cs n left h held = after (scan toupper r n cs left) refl
    where
      after :
          (o : Option (List PollFd × List Effect))
          → scan toupper r n cs left ≡ o
          → HeldIn opened (after_scan n o)
      after none run = tt
      after (some (ds, calls)) run = scan-Held toupper r opened n cs ds left calls h held run

  stored-Held :
      (opened : ℕ → Bool) (cs : List PollFd) (i fd : ℕ)
      → FirstFree (fds cs) i
      → Held opened cs
      → Held (opens true (pos fd) opened) (store (pos fd) i cs)
  stored-Held opened cs i fd free held f t =
      let now : has (set (fds cs) i (pos fd)) f ≡ true =
        ap (λ l. has l f) (sym (fds-store (pos fd) i cs)) ∙ t in
      ground (arith, has-set (fds cs) i fd f free, held f)

  refused-Held :
      (opened : ℕ → Bool) (cs : List PollFd) (i : ℕ)
      → Held opened cs
      → Held (opens true (negsuc 0) opened) (store (negsuc 0) i cs)
  refused-Held opened cs i held f t =
      let now : has (set (fds cs) i (negsuc 0)) f ≡ true =
        ap (λ l. has l f) (sym (fds-store (negsuc 0) i cs)) ∙ t in
      elim (Bool-cases (has (fds cs) f)) [
        | inl there ↦ held f there
        | inr absent ↦
            let bad : true ≡ false =
              sym now ∙ has-Thinned (fds cs) _ f (Thinned-set (fds cs) i) absent in
            absurd (ground arith)
      ]

  -- Whatever `accept` answers, the table stays well formed and names only open descriptors.
  accepted :
      (opened : ℕ → Bool) (l n i : ℕ) (c : ℤ) (cs : List PollFd)
      → IsTable l cs n
      → FirstFree (fds cs) i
      → Held opened cs
      → Accepted opened c
      → IsTable l (store c i cs) (if leb n i then i + 1 else n)
        × Held (opens true c opened) (store c i cs)
  accepted opened l n i c cs v free held (inl failed) =
      subst
        (λ x.
          IsTable l (store x i cs) (if leb n i then i + 1 else n)
          × Held (opens true x opened) (store x i cs))
        (sym failed) (refused-IsTable l n i cs v free, refused-Held opened cs i held)
  accepted opened l n i c cs v free held (inr (fd, conn, fresh)) =
      subst
        (λ x.
          IsTable l (store x i cs) (if leb n i then i + 1 else n)
          × Held (opens true x opened) (store x i cs))
        (sym conn)
        (
          stored-IsTable l n i fd cs v free (not-Held opened cs fd held fresh),
          stored-Held opened cs i fd free held,
        )

  accept_at-Held :
      (r : Round) (opened : ℕ → Bool) (l n left : ℕ) (cs : List PollFd) (o : Option ℕ)
      → ((i : ℕ)
          → o ≡ some i
          → IsTable l (store r.connfd i cs) (if leb n i then i + 1 else n)
            × Held opened (store r.connfd i cs))
      → HeldIn opened (accept_at toupper r cs n left o)
  unfolding accept_at
  accept_at-Held r opened l n left cs none v = tt
  accept_at-Held r opened l n left cs (some i) v =
      let (t, kept) = v i refl in
      elim (Bool-cases (left == 1)) [
        | inl last ↦ simp last (λ f h. ground (arith, kept f))
        | inr more ↦ simp more (serve_clients-Held r opened _ _ (left - 1) t.apart kept)
      ]

  round_of-Held :
      (opened : ℕ → Bool) (r : Round) (l : ℕ) (s : Server) (ready : ℤ)
      → IsTable l s.client s.maxi
      → Held opened s.client
      → Promised opened l r
      → HeldIn
          (opens (r.pollin 0) r.connfd opened)
          (round_of toupper r (poll_fill toupper r s.maxi 0 s.client) s.maxi ready)
  unfolding round_of
  round_of-Held opened r l s (negsuc k) v held p = tt
  round_of-Held opened r l s (pos left) v held p =
      let cs = poll_fill toupper r s.maxi 0 s.client in
      let w = filled-IsTable r l s.maxi s.client v in
      let flag = listen_ready-poll_fill r l s.maxi s.client v in
      let same : Held opened cs = rw (fds-poll_fill toupper r s.maxi 0 s.client) held in
      elim (Bool-cases (listen_ready cs)) [
        | inr quiet ↦
            rw (sym flag ∙ quiet, quiet) (serve_clients-Held r opened cs s.maxi left w.apart same)
        | inl new ↦
            let c = p.connects (sym flag ∙ new) in
            rw (sym flag ∙ new, new)
              (accept_at-Held r (opens true r.connfd opened) l s.maxi left cs (find_free cs)
                (λ i slot.
                  accepted opened l s.maxi i r.connfd cs w (find_free-FirstFree cs i slot) same c))
      ]

  round_of-GoesOn :
      (opened : ℕ → Bool) (r : Round) (l : ℕ) (s : Server) (ready : ℤ)
      → IsTable l s.client s.maxi
      → Held opened s.client
      → Promised opened l r
      → GoesOn l (round_of toupper r (poll_fill toupper r s.maxi 0 s.client) s.maxi ready)
  unfolding round_of
  round_of-GoesOn opened r l s (negsuc k) v held p = inl refl
  round_of-GoesOn opened r l s (pos left) v held p =
      let cs = poll_fill toupper r s.maxi 0 s.client in
      let w = filled-IsTable r l s.maxi s.client v in
      elim (Bool-cases (listen_ready cs)) [
        | inr quiet ↦ rw quiet (serve_clients-GoesOn r l s.maxi left p.error cs w p.refuses p.other)
        | inl new ↦
            let c = p.connects (sym (listen_ready-poll_fill r l s.maxi s.client v) ∙ new) in
            let same : Held opened cs = rw (fds-poll_fill toupper r s.maxi 0 s.client) held in
            rw new (
              accept_at-GoesOn r l s.maxi left p.error cs (find_free cs)
                (λ i slot.
                  (accepted opened l s.maxi i r.connfd cs w (find_free-FirstFree cs i slot) same
                    c).0)
                p.refuses p.other)
      ]

  Outcome-cases :
      (o : Outcome)
      → ((t : Server) × (calls : List Effect) × (o ≡ running t calls)) ⊎ ((n : ℤ) × (o ≡ exits n))
  Outcome-cases (running t calls) = inl (t, calls, refl)
  Outcome-cases (exits n) = inr (n, refl)

  with_calls-GoesOn :
      (l : ℕ) (calls : List Effect) (o : Outcome) → GoesOn l o → GoesOn l (with_calls calls o)
  with_calls-GoesOn l calls (running s more) g = g
  with_calls-GoesOn l calls (exits n) g = g

  -- However many rounds there are, if in each `accept` fails or gives a descriptor that the
  -- process does not have open, and a read of the listening socket fails without a reset: the server goes on
  -- with a table whose first entry is the listening socket, in which each descriptor stands once and
  -- no entry past the maximum is used, or it has exited with -1, -2 or -3.
  pub serve_poll-GoesOn :
      (opened : ℕ → Bool) (l : ℕ) (s : Server) (rs : List Round)
      → IsTable l s.client s.maxi
      → Held opened s.client
      → AllPromised opened l s rs
      → GoesOn l (serve_poll s rs)
  unfolding serve_poll
  serve_poll-GoesOn opened l s [] v held k = v
  serve_poll-GoesOn opened l s (r ∷ rs) v held (p, k) =
      let g : GoesOn l (round toupper r s) =
        unfold round in round_of-GoesOn opened r l s r.nready v held p in
      let h : HeldIn (opens (r.pollin 0) r.connfd opened) (round toupper r s) =
        unfold round in round_of-Held opened r l s r.nready v held p in
      elim (Outcome-cases (round toupper r s)) [
        | inl (t, calls, run) ↦ rw run (
            with_calls-GoesOn l calls (serve_poll t rs) (
              serve_poll-GoesOn (opened_after opened r calls) l t rs (subst (GoesOn l) run g)
                (subst (HeldIn (opens (r.pollin 0) r.connfd opened)) run h) (k t calls run)))
        | inr (n, stops) ↦ rw stops (subst (GoesOn l) stops g)
      ]
