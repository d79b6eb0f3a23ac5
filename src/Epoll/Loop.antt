-- ===== src/Epoll/Loop.antt =====
-- 012_network_IO/03epoll/server.c: the endless loop, along any list of rounds.
use linux_c_program_exercris.Prelude.{
  ℕ, ◌+◌, ◌≡◌, refl, subst, ◌⊎◌, inl, inr, false, Option, none, some, List, [], ◌∷◌, ◌==◌,
  Bool-cases, ℤ, pos, negsuc, true,
}
use linux_c_program_exercris.Epoll.Defs.{
  Server, Round, Event, Outcome, Effect, running, exits, handle_event, handle_events, with_calls,
  go_on, round, find_free, accept_at, serve_fd, econnreset,
}
use linux_c_program_exercris.Epoll.Table.{IsRegistered}
use linux_c_program_exercris.Epoll.Events.{Keeps, IsReset, handle_event-Keeps}
use linux_c_program_exercris.Echo.{Read, received, read_error}

-- Some event of the round, or of the rounds, was answered with a reset.
abbrev pub ResetAmong : Round → List Event → Type 0
ResetAmong r [] = ⊥
ResetAmong r (e ∷ es) = IsReset (r.read e.fd) ⊎ ResetAmong r es

abbrev pub SomeReset : List (Round × Option (List Event)) → Type 0
SomeReset [] = ⊥
SomeReset ((r, none) ∷ rs) = SomeReset rs
SomeReset ((r, some es) ∷ rs) = ResetAmong r es ⊎ SomeReset rs

-- A server goes on with a well-formed table unless there was a reset, or exits with -3, -4 or -5.
abbrev pub GoesOn : Type 0 → Outcome → Type 0
GoesOn reset (running t calls) = reset ⊎ IsRegistered t
GoesOn reset (exits n) = (n ≡ negsuc 2) ⊎ (n ≡ negsuc 3) ⊎ (n ≡ negsuc 4)

module _ (toupper : ℕ → ℕ) where
  -- `while(1)`: what the kernel answers in each round, and its events, `none` where `epoll_wait`
  -- fails.
  unfoldable pub serve_epoll : Server → List (Round × Option (List Event)) → Outcome
  serve_epoll s [] = running s []
  serve_epoll s ((r, es) ∷ rs) = go_on toupper r (round toupper r s es) (λ t. serve_epoll t rs)

  -- A new connection is not registered yet, at each event of the listening socket that is reached.
  abbrev pub EventsPromised : Round → Server → ℕ → List Event → Type 0
  EventsPromised r s i [] = Unit
  EventsPromised r s i (e ∷ es) =
      ((e.fd == s.listenfd) ≡ true → (fd : ℕ) → r.connfd ≡ pos fd → s.registered fd ≡ false)
      × ((t : Server) (calls : List Effect)
          → handle_event toupper r s i e ≡ running t calls
          → EventsPromised r t (i + 1) es)

  abbrev pub RoundPromised : Round → Server → Option (List Event) → Type 0
  RoundPromised r s none = Unit
  RoundPromised r s (some es) = EventsPromised r s 0 es

  abbrev pub AllPromised : Server → List (Round × Option (List Event)) → Type 0
  AllPromised s [] = Unit
  AllPromised s ((r, es) ∷ rs) =
      RoundPromised r s es
      × ((t : Server) (calls : List Effect)
          → round toupper r s es ≡ running t calls
          → AllPromised t rs)

  with_calls-GoesOn :
      (reset : Type 0) (r : Round) (calls : List Effect) (o : Outcome)
      → GoesOn reset o
      → GoesOn reset (with_calls toupper r calls o)
  with_calls-GoesOn reset r calls (running s more) g = g
  with_calls-GoesOn reset r calls (exits n) g = g

  -- A reset among some events is one among all.
  GoesOn-map : (a b : Type 0) (o : Outcome) → (a → b) → GoesOn a o → GoesOn b o
  GoesOn-map a b (running t calls) h g = elim g [ inl x ↦ inl (h x) | inr v ↦ inr v ]
  GoesOn-map a b (exits n) h g = g

  Outcome-cases :
      (o : Outcome)
      → ((t : Server) × (calls : List Effect) × (o ≡ running t calls)) ⊎ ((n : ℤ) × (o ≡ exits n))
  Outcome-cases (running t calls) = inl (t, calls, refl)
  Outcome-cases (exits n) = inr (n, refl)

  abbrev Codes : Outcome → Type 0
  Codes (running t calls) = Unit
  Codes (exits n) = (n ≡ negsuc 2) ⊎ (n ≡ negsuc 3) ⊎ (n ≡ negsuc 4)

  accept_at-Codes :
      (r : Round) (s : Server) (c : ℤ) (o : Option ℕ) → Codes (accept_at toupper r s c o)
  unfolding accept_at
  accept_at-Codes r s c none = inr (inl refl)
  accept_at-Codes r s (negsuc n) (some j) = inr (inl refl)
  accept_at-Codes r s (pos fd) (some j) = elim (Bool-cases (r.ctl fd)) [
    | inl ok ↦ rw ok tt
    | inr fails ↦ rw fails (inr (inl refl))
  ]

  serve_fd-Codes :
      (r : Round) (s : Server) (i fd : ℕ) (x : Read) → Codes (serve_fd toupper r s i fd x)
  unfolding serve_fd
  serve_fd-Codes r s i fd (received []) = elim (Bool-cases (r.ctl fd)) [
    | inl ok ↦ rw ok tt
    | inr fails ↦ rw fails (inr (inr refl))
  ]
  serve_fd-Codes r s i fd (received (b ∷ bs)) = tt
  serve_fd-Codes r s i fd (read_error e) = elim (Bool-cases (e == econnreset)) [
    | inl reset ↦ rw reset tt
    | inr other ↦ rw other (inl refl)
  ]

  handle_event-Codes :
      (r : Round) (s : Server) (i : ℕ) (e : Event) → Codes (handle_event toupper r s i e)
  unfolding handle_event
  handle_event-Codes r s i e = elim (Bool-cases (e.fd == s.listenfd)) [
    | inl own ↦ rw own (accept_at-Codes r s r.connfd (find_free s.client))
    | inr other ↦ elim (Bool-cases e.epollin) [
      | inl ready ↦ rw (other, ready) (serve_fd-Codes r s i e.fd (r.read e.fd))
      | inr quiet ↦ rw (other, quiet) tt
    ]
  ]

  event-GoesOn :
      (r : Round) (s : Server) (i : ℕ) (e : Event)
      → IsRegistered s
      → ((e.fd == s.listenfd) ≡ true → (fd : ℕ) → r.connfd ≡ pos fd → s.registered fd ≡ false)
      → GoesOn (IsReset (r.read e.fd)) (handle_event toupper r s i e)
  event-GoesOn r s i e v new =
      both (handle_event toupper r s i e) (handle_event-Keeps toupper r s i e new v)
        (handle_event-Codes r s i e)
    where
      both :
          (o : Outcome)
          → IsReset (r.read e.fd) ⊎ Keeps o
          → Codes o
          → GoesOn (IsReset (r.read e.fd)) o
      both (running t calls) k c = k
      both (exits n) k c = c

  -- After a reset only the codes are left to say.
  handle_events-reset :
      (reset : Type 0) (r : Round) (s : Server) (i : ℕ) (es : List Event)
      → reset
      → GoesOn reset (handle_events toupper r s i es)
  unfolding handle_events
  handle_events-reset reset r s i [] x = inl x
  handle_events-reset reset r s i (e ∷ es) x = elim (Outcome-cases (handle_event toupper r s i e)) [
    | inl (t, calls, run) ↦ rw run (
        with_calls-GoesOn reset r calls (handle_events toupper r t (i + 1) es)
          (handle_events-reset reset r t (i + 1) es x))
    | inr (n, stops) ↦ rw stops (subst Codes stops (handle_event-Codes r s i e))
  ]

  handle_events-GoesOn :
      (r : Round) (s : Server) (i : ℕ) (es : List Event)
      → IsRegistered s
      → EventsPromised r s i es
      → GoesOn (ResetAmong r es) (handle_events toupper r s i es)
  unfolding handle_events
  handle_events-GoesOn r s i [] v k = inr v
  handle_events-GoesOn r s i (e ∷ es) v (new, k) =
      elim (Outcome-cases (handle_event toupper r s i e)) [
        | inl (t, calls, run) ↦ rw run (
            with_calls-GoesOn (ResetAmong r (e ∷ es)) r calls (handle_events toupper r t (i + 1) es)
              (elim (subst (GoesOn (IsReset (r.read e.fd))) run (event-GoesOn r s i e v new)) [
                | inl x ↦ handle_events-reset (ResetAmong r (e ∷ es)) r t (i + 1) es (inl x)
                | inr w ↦
                    GoesOn-map (ResetAmong r es) (ResetAmong r (e ∷ es)) _ (λ x. inr x)
                      (handle_events-GoesOn r t (i + 1) es w (k t calls run))
              ]))
        | inr (n, stops) ↦ rw stops (subst Codes stops (handle_event-Codes r s i e))
      ]

  round-GoesOn :
      (r : Round) (s : Server) (es : Option (List Event))
      → IsRegistered s
      → RoundPromised r s es
      → GoesOn (SomeReset ((r, es) ∷ [])) (round toupper r s es)
  unfolding round
  round-GoesOn r s none v k = inl refl
  round-GoesOn r s (some es) v k =
      GoesOn-map (ResetAmong r es) _ _ (λ x. inl x) (handle_events-GoesOn r s 0 es v k)

  round-Codes :
      (r : Round) (s : Server) (es : Option (List Event)) → GoesOn Unit (round toupper r s es)
  unfolding round
  round-Codes r s none = inl refl
  round-Codes r s (some es) = handle_events-reset Unit r s 0 es tt

  serve_epoll-Codes :
      (reset : Type 0) (s : Server) (rs : List (Round × Option (List Event)))
      → reset
      → GoesOn reset (serve_epoll s rs)
  unfolding serve_epoll
  serve_epoll-Codes reset s [] x = inl x
  serve_epoll-Codes reset s ((r, es) ∷ rs) x = elim (Outcome-cases (round toupper r s es)) [
    | inl (t, calls, run) ↦
        rw run (with_calls-GoesOn reset r calls (serve_epoll t rs) (serve_epoll-Codes reset t rs x))
    | inr (n, stops) ↦ rw stops (subst (GoesOn Unit) stops (round-Codes r s es))
  ]

  first_reset :
      (r : Round) (es : Option (List Event)) (rs : List (Round × Option (List Event)))
      → SomeReset ((r, es) ∷ [])
      → SomeReset ((r, es) ∷ rs)
  first_reset r none rs x = elim x [ ]
  first_reset r (some es) rs x = elim x [ inl y ↦ inl y | inr y ↦ elim y [ ] ]

  later_reset :
      (r : Round) (es : Option (List Event)) (rs : List (Round × Option (List Event)))
      → SomeReset rs
      → SomeReset ((r, es) ∷ rs)
  later_reset r none rs x = x
  later_reset r (some es) rs x = inr x

  -- However many rounds there are, and however many events in each, if a new connection is never
  -- registered already: until a connection is reset, the server goes on with a table in which the
  -- registered set is the listening socket and the clients, each once; and it only ever exits with
  -- -3, -4 or -5.
  pub serve_epoll-GoesOn :
      (s : Server) (rs : List (Round × Option (List Event)))
      → IsRegistered s
      → AllPromised s rs
      → GoesOn (SomeReset rs) (serve_epoll s rs)
  unfolding serve_epoll
  serve_epoll-GoesOn s [] v k = inr v
  serve_epoll-GoesOn s ((r, es) ∷ rs) v (k, ks) = elim (Outcome-cases (round toupper r s es)) [
    | inr (n, stops) ↦ rw stops (subst (GoesOn Unit) stops (round-Codes r s es))
    | inl (t, calls, run) ↦ rw run (
        with_calls-GoesOn (SomeReset ((r, es) ∷ rs)) r calls (serve_epoll t rs)
          (elim (subst (GoesOn (SomeReset ((r, es) ∷ []))) run (round-GoesOn r s es v k)) [
            | inl x ↦ serve_epoll-Codes (SomeReset ((r, es) ∷ rs)) t rs (first_reset r es rs x)
            | inr w ↦
                GoesOn-map (SomeReset rs) (SomeReset ((r, es) ∷ rs)) _ (later_reset r es rs)
                  (serve_epoll-GoesOn t rs w (ks t calls run))
          ]))
  ]
