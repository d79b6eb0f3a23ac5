-- ===== src/Sockets/Accept.antt =====
-- 011network: the loops of 01TCP/src/01server.c, 02UDP/src/01server.c and 03TCP_FORK/src/01server.c
-- on the descriptors of the process. `accept` opens the lowest free descriptor; the setup of the
-- listening socket is `socket`, since `bind` and `listen` change no descriptor and are not checked.
use linux_c_program_exercris.Prelude.{
  ℕ, ◌≡◌, Bool, true, false, none, some, List, [], ◌∷◌, ◌++◌, arith, refl, sym, ap, ap₂, ◌∙◌, map,
  ◌==◌, if◌then◌else◌, dec_lt,
}
use linux_c_program_exercris.Echo.{
  Read, read_error, Effect, echo, wrote, write_failed, closed, received, echo-map,
}
use linux_c_program_exercris.Process.Kernel.{Kernel}
use linux_c_program_exercris.Sockets.Inet.{
  tcp_turn, fork_turn, in_parent, fork_failed, udp_turn, Datagram, tcp_buf,
}
use linux_c_program_exercris.Sockets.Stream.{child_loop}

-- A read on a descriptor that is not open.
abbrev pub ebadf : ℕ
ebadf = 9

module _ (k : Kernel) (toupper : ℕ → ℕ) where
  open k use {Table, file_at, open_file, close, open_free, open_lowest, file_at-open, file_at-close}

  -- The table after the calls of a server.
  abbrev pub after_calls : Table → List Effect → Table
  after_calls t [] = t
  after_calls t (closed f ∷ es) = after_calls (close t f) es
  after_calls t (wrote f bs ∷ es) = after_calls t es
  after_calls t (write_failed f ∷ es) = after_calls t es

  -- A client is a connection and what the server's read of it answers.
  unfoldable pub tcp_loop : Table → List (ℕ × Read) → List Effect × Table
  unfolding tcp_turn
  tcp_loop t [] = ([], t)
  tcp_loop t ((x, r) ∷ cs) =
      let (confd, u) = open_file t x in
      let (es, v) = tcp_loop (after_calls u (tcp_turn toupper confd r)) cs in
      (tcp_turn toupper confd r ++ es, v)

  unfoldable pub tcp_main : Table → ℕ → List (ℕ × Read) → List Effect × Table
  unfolding tcp_loop
  tcp_main t socket cs = tcp_loop (open_file t socket).1 cs

  unfoldable pub udp_main : List Read → List Datagram
  unfolding udp_turn
  udp_main [] = []
  udp_main (r ∷ rs) = udp_turn toupper r ∷ udp_main rs

  unfoldable pub read_on : Table → ℕ → Read → Read
  read_on t fd r = elim (file_at t fd) [ none ↦ read_error ebadf | some x ↦ r ]

  -- One round of the parent, with what `fork` answers; its read comes after it has closed.
  unfoldable pub fork_round : ℕ → ℕ → Table → Bool → Read → List Effect
  unfolding fork_turn read_on
  fork_round sockfd confd u true r =
      fork_turn toupper sockfd confd in_parent (read_on (close u confd) confd r)
  fork_round sockfd confd u false r = fork_turn toupper sockfd confd fork_failed r

  unfoldable pub fork_loop : ℕ → Table → List (ℕ × Bool × Read) → List Effect × Table
  unfolding fork_round
  fork_loop sockfd t [] = ([], t)
  fork_loop sockfd t ((x, ok, r) ∷ cs) =
      let (confd, u) = open_file t x in
      let es = fork_round sockfd confd u ok r in
      let (more, v) = fork_loop sockfd (after_calls u es) cs in (es ++ more, v)

  -- The child of a client, with the parent's table as it was at the `fork`.
  unfoldable pub fork_child : ℕ → Table → ℕ → List Read → List Effect × Table
  fork_child sockfd t x rs =
      let (confd, u) = open_file t x in
      (closed sockfd ∷ child_loop toupper confd rs, close u sockfd)

  unfoldable pub fork_main : Table → ℕ → List (ℕ × Bool × Read) → List Effect × Table
  unfolding fork_loop
  fork_main t socket cs = let (sockfd, u) = open_file t socket in fork_loop sockfd u cs

  -- The tables after one client.
  abbrev after_turn : Table → ℕ → Read → Table
  after_turn t x r = after_calls (open_file t x).1 (tcp_turn toupper (open_file t x).0 r)

  abbrev after_round : ℕ → Table → ℕ → Bool → Read → Table
  after_round sockfd t x ok r =
      after_calls (open_file t x).1 (fork_round sockfd (open_file t x).0 (open_file t x).1 ok r)

  -- A connection that is opened and closed leaves the table as it was.
  open-close :
      (t : Table) (x g : ℕ) → file_at (close (open_file t x).1 (open_file t x).0) g ≡ file_at t g
  open-close t x g = ground (
    arith,
    file_at-close (open_file t x).1 (open_file t x).0 g,
    file_at-open t x g,
    open_free t x,
  )

  closed_turn :
      (u : Table) (confd : ℕ) (r : Read) → after_calls u (tcp_turn toupper confd r) ≡ close u confd
  unfolding tcp_turn
  closed_turn u confd (received bs) = refl
  closed_turn u confd (read_error e) = refl

  tcp_loop-keeps :
      (t : Table) (cs : List (ℕ × Read)) (g : ℕ) → file_at (tcp_loop t cs).1 g ≡ file_at t g
  unfolding tcp_loop
  tcp_loop-keeps t [] g = refl
  tcp_loop-keeps t ((x, r) ∷ cs) g =
      tcp_loop-keeps (after_turn t x r) cs g
      ∙ ap (λ u. file_at u g) (closed_turn (open_file t x).1 (open_file t x).0 r)
      ∙ open-close t x g

  -- After `close(confd)` the parent's read fails, so it writes nothing and closes nothing more.
  forked_round :
      (sockfd confd : ℕ) (u : Table) (r : Read)
      → fork_round sockfd confd u true r ≡ closed confd ∷ write_failed confd ∷ closed confd ∷ []
  unfolding fork_round
  forked_round sockfd confd u r =
      let gone : file_at (close u confd) confd ≡ none =
        ground (arith, file_at-close u confd confd) in
      let fails : read_on (close u confd) confd r ≡ read_error ebadf = rw (gone, read_on) refl in
      rw fails refl

  fork_round-keeps :
      (sockfd : ℕ) (t : Table) (x : ℕ) (ok : Bool) (r : Read) (g : ℕ)
      → file_at
          (after_calls
            (open_file t x).1
            (fork_round sockfd (open_file t x).0 (open_file t x).1 ok r))
          g
        ≡ file_at t g
  unfolding fork_round
  fork_round-keeps sockfd t x true r g =
      let fd = (open_file t x).0 in
      let u = (open_file t x).1 in
      ap (λ es. file_at (after_calls u es) g) (forked_round sockfd fd u r)
      ∙ ground (
        arith,
        file_at-close (close u fd) fd g,
        file_at-close u fd g,
        file_at-open t x g,
        open_free t x,
      )
  fork_round-keeps sockfd t x false (received bs) g = open-close t x g
  fork_round-keeps sockfd t x false (read_error e) g = open-close t x g

  fork_loop-keeps :
      (sockfd : ℕ) (t : Table) (cs : List (ℕ × Bool × Read)) (g : ℕ)
      → file_at (fork_loop sockfd t cs).1 g ≡ file_at t g
  unfolding fork_loop
  fork_loop-keeps sockfd t [] g = refl
  fork_loop-keeps sockfd t ((x, ok, r) ∷ cs) g =
      fork_loop-keeps sockfd (after_round sockfd t x ok r) cs g ∙ fork_round-keeps sockfd t x ok r g

  -- Two tables with the same files have the same lowest free number.
  same_number :
      (t u : Table) (x y : ℕ)
      → ((g : ℕ) → file_at t g ≡ file_at u g)
      → (open_file t x).0 ≡ (open_file u y).0
  same_number t u x y e =
      let a = (open_file t x).0 in
      let b = (open_file u y).0 in
      elim (dec_lt a b) [
        | yes h ↦ absurd (open_lowest u y a h (sym (e a) ∙ open_free t x))
        | no h ↦ elim (dec_lt b a) [
          | yes l ↦ absurd (open_lowest t x b l (e b ∙ open_free u y))
          | no l ↦ omega arith
        ]
      ]

  -- What is written, with its descriptor, in order; a write that fails writes nothing.
  abbrev pub writes : List Effect → List (ℕ × List ℕ)
  writes [] = []
  writes (wrote f bs ∷ es) = (f, bs) ∷ writes es
  writes (write_failed f ∷ es) = writes es
  writes (closed f ∷ es) = writes es

  -- The first bytes of each client in upper case, and those of the clients without a child, all on
  -- the descriptor `fd`.
  abbrev pub replies : ℕ → List (ℕ × Read) → List (ℕ × List ℕ)
  replies fd [] = []
  replies fd ((x, received bs) ∷ cs) = (fd, map toupper bs) ∷ replies fd cs
  replies fd ((x, read_error e) ∷ cs) = replies fd cs

  abbrev pub own_replies : ℕ → List (ℕ × Bool × Read) → List (ℕ × List ℕ)
  own_replies fd [] = []
  own_replies fd ((x, true, r) ∷ cs) = own_replies fd cs
  own_replies fd ((x, false, received bs) ∷ cs) = (fd, map toupper bs) ∷ own_replies fd cs
  own_replies fd ((x, false, read_error e) ∷ cs) = own_replies fd cs

  writes-append : (a b : List Effect) → writes (a ++ b) ≡ writes a ++ writes b
  writes-append [] b = refl
  writes-append (wrote f bs ∷ a) b = ap (◌∷◌ (f, bs)) (writes-append a b)
  writes-append (write_failed f ∷ a) b = writes-append a b
  writes-append (closed f ∷ a) b = writes-append a b

  after_turn-keeps :
      (t : Table) (x : ℕ) (r : Read) (g : ℕ) → file_at (after_turn t x r) g ≡ file_at t g
  after_turn-keeps t x r g =
      ap (λ u. file_at u g) (closed_turn (open_file t x).1 (open_file t x).0 r) ∙ open-close t x g

  -- One reply, on the number that all clients get.
  reply :
      (t u : Table) (x : ℕ) (bs : List ℕ)
      → ((g : ℕ) → file_at t g ≡ file_at u g)
      → ◌≡◌ {A = ℕ × List ℕ}
          ((open_file t x).0, echo toupper tcp_buf bs)
          ((open_file u 0).0, map toupper bs)
  reply t u x bs e =
      ap₂ (λ (n : ℕ) (l : List ℕ). (n, l)) (same_number t u x 0 e) (echo-map toupper tcp_buf bs)

  tcp_loop-replies :
      (t u : Table) (cs : List (ℕ × Read))
      → ((g : ℕ) → file_at t g ≡ file_at u g)
      → writes (tcp_loop t cs).0 ≡ replies (open_file u 0).0 cs
  unfolding tcp_loop
  tcp_loop-replies t u [] e = refl
  tcp_loop-replies t u ((x, received bs) ∷ cs) e = ap₂ ◌∷◌ (reply t u x bs e) (
      tcp_loop-replies (after_turn t x (received bs)) u cs
        (λ g. after_turn-keeps t x (received bs) g ∙ e g))
  tcp_loop-replies t u ((x, read_error n) ∷ cs) e =
      tcp_loop-replies (after_turn t x (read_error n)) u cs
        (λ g. after_turn-keeps t x (read_error n) g ∙ e g)

  fork_loop-replies :
      (sockfd : ℕ) (t u : Table) (cs : List (ℕ × Bool × Read))
      → ((g : ℕ) → file_at t g ≡ file_at u g)
      → writes (fork_loop sockfd t cs).0 ≡ own_replies (open_file u 0).0 cs
  unfolding fork_loop
  fork_loop-replies sockfd t u [] e = refl
  fork_loop-replies sockfd t u ((x, true, r) ∷ cs) e =
      writes-append (fork_round sockfd (open_file t x).0 (open_file t x).1 true r) _
      ∙ ap₂ ◌++◌ (ap writes (forked_round sockfd (open_file t x).0 (open_file t x).1 r)) (
          fork_loop-replies sockfd (after_round sockfd t x true r) u cs
            (λ g. fork_round-keeps sockfd t x true r g ∙ e g))
  fork_loop-replies sockfd t u ((x, false, received bs) ∷ cs) e = ap₂ ◌∷◌ (reply t u x bs e) (
      fork_loop-replies sockfd (after_round sockfd t x false (received bs)) u cs
        (λ g. fork_round-keeps sockfd t x false (received bs) g ∙ e g))
  fork_loop-replies sockfd t u ((x, false, read_error n) ∷ cs) e =
      fork_loop-replies sockfd (after_round sockfd t x false (read_error n)) u cs
        (λ g. fork_round-keeps sockfd t x false (read_error n) g ∙ e g)

  -- However many clients come, neither server runs out of descriptors: besides the listening socket
  -- its table is what it was, so that each connection has the number that is the lowest free one
  -- beside it. The TCP server writes to that number, for each client whose read succeeds, its first
  -- bytes in upper case, in the order in which they come, and nothing else; the parent of the
  -- forking server does so only for clients for which `fork` failed, although it runs on into the
  -- code that reads and writes.
  pub servers_keep_descriptors :
      (t : Table) (socket : ℕ) (cs : List (ℕ × Read)) (fs : List (ℕ × Bool × Read)) (g : ℕ)
      → let fd = (open_file (open_file t socket).1 0).0 in
        (file_at (tcp_main t socket cs).1 g
          ≡ (if g == (open_file t socket).0 then some socket else file_at t g))
        × (file_at (fork_main t socket fs).1 g
            ≡ (if g == (open_file t socket).0 then some socket else file_at t g))
        × (writes (tcp_main t socket cs).0 ≡ replies fd cs)
        × (writes (fork_main t socket fs).0 ≡ own_replies fd fs)
  unfolding tcp_main fork_main
  servers_keep_descriptors t socket cs fs g = (
    tcp_loop-keeps (open_file t socket).1 cs g ∙ file_at-open t socket g,
    fork_loop-keeps (open_file t socket).0 (open_file t socket).1 fs g ∙ file_at-open t socket g,
    tcp_loop-replies (open_file t socket).1 (open_file t socket).1 cs (λ h. refl),
    fork_loop-replies (open_file t socket).0 (open_file t socket).1 (open_file t socket).1 fs
        (λ h. refl),
  )
