-- ===== src/Select/Defs.antt =====
-- 012_network_IO/01select/server.c: the table of clients and one round of the loop.
-- The answers of the kernel in a round are a record; `none` descriptors are negative.
use linux_c_program_exercris.Prelude.{
  ℕ, zero, suc, ◌+◌, ◌-◌, Bool, true, false, Option, none, some, List, [], ◌∷◌, ◌++◌, ltb, leb,
  ◌==◌, if◌then◌else◌, ℤ, pos, negsuc, set, replicate,
}
use linux_c_program_exercris.Echo.{
  Read, received, read_error, Effect, wrote, write_failed, closed, echo, maxline,
}

abbrev pub fd_setsize : ℕ
fd_setsize = 1024

-- `maxi` is one more than the source's: the number of slots that the loop visits.
pub record Server : Type 0 where
  pub client : List ℤ
  pub maxi : ℕ
  pub maxfd : ℕ
  pub listenfd : ℕ
  pub allset : ℕ → Bool

pub record Round : Type 0 where
  pub nready : ℤ
  pub rset : ℕ → Bool
  pub connfd : ℤ
  pub read : ℕ → Read

-- `exits` has the status, `fault` is an access out of the descriptor set.
pub data Outcome : Type 0 where
  running : Server → List Effect → Outcome
  exits : ℤ → Outcome
  fault : Outcome

abbrev pub update : (ℕ → Bool) → ℕ → Bool → ℕ → Bool
update s f b g = if g == f then b else s g

-- The first free slot: `i == FD_SETSIZE` after the loop is `none`.
unfoldable pub find_free : List ℤ → Option ℕ
find_free [] = none
find_free (negsuc _ ∷ cs) = some 0
find_free (pos _ ∷ cs) = elim (find_free cs) [ none ↦ none | some i ↦ some (suc i) ]

unfoldable pub start : ℕ → Server
start listenfd = record {
  client = replicate fd_setsize (negsuc 0);
  maxi = 0;
  maxfd = listenfd;
  listenfd = listenfd;
  allset = update (λ _. false) listenfd true;
}

-- The new connection in slot `i`, watched, with the two maxima brought up to date.
unfoldable pub add_client : Server → ℕ → ℕ → Server
add_client s i fd = record s {
  client = set s.client i (pos fd);
  allset = update s.allset fd true;
  maxfd = if ltb s.maxfd fd then fd else s.maxfd;
  maxi = if leb s.maxi i then i + 1 else s.maxi;
}

-- The branch of a ready listening socket, up to the test of `nready`.
unfoldable pub accept_at : Server → ℤ → Option ℕ → Outcome
unfolding add_client
accept_at s connfd none = exits (negsuc 1)
accept_at s (negsuc _) (some i) = fault
accept_at s (pos fd) (some i) = if ltb fd fd_setsize then running (add_client s i fd) [] else fault

pub record Scanned : Type 0 where
  pub slots : List ℤ
  pub watched : ℕ → Bool
  pub effects : List Effect

module _ (toupper : ℕ → ℕ) (r : Round) where
  -- The slot, the watched set and the calls after a ready descriptor is read.
  unfoldable pub serve_fd : ℕ → (ℕ → Bool) → Read → ℤ × (ℕ → Bool) × List Effect
  serve_fd fd watched (received []) = (negsuc 0, update watched fd false, closed fd ∷ [])
  serve_fd fd watched (received (b ∷ bs)) =
      (pos fd, watched, wrote fd (echo toupper maxline (b ∷ bs)) ∷ [])
  serve_fd fd watched (read_error _) = (pos fd, watched, write_failed fd ∷ [])

  -- The loop over the first `n` slots, with `left` descriptors still to be found ready.
  unfoldable pub scan : ℕ → List ℤ → (ℕ → Bool) → ℕ → Scanned
  scan zero cs watched left = record { slots = cs; watched = watched; effects = [] }
  scan (suc n) [] watched left = record { slots = []; watched = watched; effects = [] }
  scan (suc n) (negsuc k ∷ cs) watched left =
      let rest = scan n cs watched left in record rest { slots = negsuc k ∷ rest.slots }
  scan (suc n) (pos fd ∷ cs) watched left =
      let (slot, watched', calls) = serve_fd fd watched (r.read fd) in
      let skipped = scan n cs watched left in
      let rest = scan n cs watched' (left - 1) in
      if r.rset fd
      then (if left == 1
          then record { slots = slot ∷ cs; watched = watched'; effects = calls }
          else record rest { slots = slot ∷ rest.slots; effects = calls ++ rest.effects })
      else record skipped { slots = pos fd ∷ skipped.slots }

  unfoldable pub serve_clients : Server → ℕ → Outcome
  unfolding scan
  serve_clients s left =
      let out = scan s.maxi s.client s.allset left in
      running (record s { client = out.slots; allset = out.watched }) out.effects

  -- After `accept`: with one ready descriptor the loop starts anew, else the clients are served.
  unfoldable pub then_serve : Outcome → ℕ → Outcome
  unfolding serve_clients
  then_serve (running s calls) left =
      if left == 1 then running s calls else serve_clients s (left - 1)
  then_serve (exits n) left = exits n
  then_serve fault left = fault

  unfoldable pub round_of : Server → ℤ → Outcome
  unfolding accept_at find_free then_serve serve_clients
  round_of s (negsuc _) = exits (negsuc 0)
  round_of s (pos left) =
      if r.rset s.listenfd
      then then_serve (accept_at s r.connfd (find_free s.client)) left
      else serve_clients s left

  -- One round of `while(1)`.
  unfoldable pub round : Server → Outcome
  unfolding round_of
  round s = round_of s r.nready
