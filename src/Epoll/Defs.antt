-- ===== src/Epoll/Defs.antt =====
-- 012_network_IO/03epoll/server.c: the table of clients and the events of one `epoll_wait`.
use linux_c_program_exercris.Prelude.{
  ℕ, zero, suc, ◌+◌, Bool, true, false, Option, none, some, List, [], ◌∷◌, ◌++◌, leb, ◌==◌,
  if◌then◌else◌, ℤ, pos, negsuc, get_or, set, replicate,
}
use linux_c_program_exercris.Echo.{Read, received, read_error, echo, maxline}

abbrev pub max_open_file_num : ℕ
max_open_file_num = 4096

abbrev pub econnreset : ℕ
econnreset = 104

-- `maxi` is one more than the source's. `registered` is the kernel's set behind `epollfd`.
pub record Server : Type 0 where
  pub client : List ℤ
  pub maxi : ℕ
  pub listenfd : ℕ
  pub registered : ℕ → Bool

-- `closed` has the argument of `close`, which may be -1.
pub data Effect : Type 0 where
  wrote : ℕ → List ℕ → Effect
  closed : ℤ → Effect

pub data Outcome : Type 0 where
  running : Server → List Effect → Outcome
  exits : ℤ → Outcome

pub record Event : Type 0 where
  pub fd : ℕ
  pub epollin : Bool

-- What the kernel answers in a round; `ctl` tells whether `epoll_ctl` succeeds on a descriptor.
pub record Round : Type 0 where
  pub connfd : ℤ
  pub read : ℕ → Read
  pub ctl : ℕ → Bool

abbrev pub update : (ℕ → Bool) → ℕ → Bool → ℕ → Bool
update s f b g = if g == f then b else s g

unfoldable pub find_free : List ℤ → Option ℕ
find_free [] = none
find_free (negsuc _ ∷ cs) = some 0
find_free (pos _ ∷ cs) = elim (find_free cs) [ none ↦ none | some i ↦ some (suc i) ]

-- The start; `none` when `epoll_create` or the registration of the listening socket fails.
unfoldable pub start : ℤ → ℕ → Bool → Outcome
start (negsuc _) listenfd ctl = exits (negsuc 0)
start (pos _) listenfd ctl =
    if ctl
    then running
        (record {
          client = replicate max_open_file_num (negsuc 0);
          maxi = 0;
          listenfd = listenfd;
          registered = update (λ _. false) listenfd true;
        })
        []
    else exits (negsuc 1)

-- The loop that closes every slot of the first `n` with the descriptor.
unfoldable pub close_slots : ℕ → List ℤ → ℕ → List ℤ × List Effect
close_slots zero cs fd = (cs, [])
close_slots (suc n) [] fd = ([], [])
close_slots (suc n) (negsuc k ∷ cs) fd =
    let (rest, calls) = close_slots n cs fd in (negsuc k ∷ rest, calls)
close_slots (suc n) (pos f ∷ cs) fd =
    let (rest, calls) = close_slots n cs fd in
    if f == fd then (negsuc 0 ∷ rest, closed (pos f) ∷ calls) else (pos f ∷ rest, calls)

-- The kernel drops a descriptor that is closed from the set.
abbrev pub forget : (ℕ → Bool) → ℤ → ℕ → Bool
forget s (negsuc k) = s
forget s (pos f) = update s f false

module _ (toupper : ℕ → ℕ) (r : Round) where
  -- A new connection. `client[j] = connfd` comes first; the kernel refuses to register -1.
  unfoldable pub accept_at : Server → ℤ → Option ℕ → Outcome
  accept_at s connfd none = exits (negsuc 3)
  accept_at s (negsuc _) (some j) = exits (negsuc 3)
  accept_at s (pos fd) (some j) =
      if r.ctl fd
      then running
          (record s {
            client = set s.client j (pos fd);
            maxi = if leb s.maxi j then j + 1 else s.maxi;
            registered = update s.registered fd true;
          })
          []
      else exits (negsuc 3)

  -- The event with index `i` has data, or an end, or an error to read.
  unfoldable pub serve_fd : Server → ℕ → ℕ → Read → Outcome
  unfolding close_slots
  serve_fd s i fd (received []) =
      if r.ctl fd
      then running
          (record s {
            client = (close_slots s.maxi s.client fd).0;
            registered = update s.registered fd false;
          })
          (close_slots s.maxi s.client fd).1
      else exits (negsuc 4)
  serve_fd s i fd (received (b ∷ bs)) = running s (wrote fd (echo toupper maxline (b ∷ bs)) ∷ [])
  serve_fd s i fd (read_error e) =
      if e == econnreset
      then running (record s { registered = forget s.registered (get_or s.client i (negsuc 0)) })
          (closed (get_or s.client i (negsuc 0)) ∷ [])
      else exits (negsuc 2)

  unfoldable pub handle_event : Server → ℕ → Event → Outcome
  unfolding accept_at find_free serve_fd
  handle_event s i e =
      if e.fd == s.listenfd
      then accept_at s r.connfd (find_free s.client)
      else if e.epollin
      then serve_fd s i e.fd (r.read e.fd)
      else running s []

  abbrev pub with_calls : List Effect → Outcome → Outcome
  with_calls calls (running s more) = running s (calls ++ more)
  with_calls calls (exits n) = exits n

  -- The next events, after one.
  abbrev pub go_on : Outcome → (Server → Outcome) → Outcome
  go_on (running t calls) next = with_calls calls (next t)
  go_on (exits n) next = exits n

  -- The loop over the events of a round, from index `i` on.
  unfoldable pub handle_events : Server → ℕ → List Event → Outcome
  handle_events s i [] = running s []
  handle_events s i (e ∷ es) = go_on (handle_event s i e) (λ t. handle_events t (i + 1) es)

  -- One round of `while(1)`; `none` is an `epoll_wait` that fails.
  unfoldable pub round : Server → Option (List Event) → Outcome
  unfolding handle_events
  round s none = exits (negsuc 2)
  round s (some es) = handle_events s 0 es
