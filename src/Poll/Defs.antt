-- ===== src/Poll/Defs.antt =====
-- 012_network_IO/02poll/server.c: the array of `struct pollfd` and one round of the loop.
use linux_c_program_exercris.Prelude.{
  ℕ, zero, suc, ◌+◌, ◌-◌, Bool, true, false, ◌||◌, Option, none, some, List, [], ◌∷◌, ◌++◌, leb,
  ◌==◌, if◌then◌else◌, ℤ, pos, negsuc, is_neg, get_or, set,
}
use linux_c_program_exercris.Echo.{Read, received, read_error, Effect, wrote, closed, echo, maxline}

abbrev pub max_open_file_num : ℕ
max_open_file_num = 1024

abbrev pub econnreset : ℕ
econnreset = 104

-- `struct pollfd`, with the bits that the program looks at.
pub record PollFd : Type 0 where
  pub fd : ℤ
  pub events_in : Bool
  pub revents_in : Bool
  pub revents_err : Bool

-- `maxi` is one more than the source's: the number of entries given to `poll`.
pub record Server : Type 0 where
  pub client : List PollFd
  pub maxi : ℕ

-- What the kernel answers: `poll` writes the returned events of an entry, by its index.
pub record Round : Type 0 where
  pub nready : ℤ
  pub pollin : ℕ → Bool
  pub pollerr : ℕ → Bool
  pub connfd : ℤ
  pub read : ℕ → Read

pub data Outcome : Type 0 where
  running : Server → List Effect → Outcome
  exits : ℤ → Outcome

-- `for(i = 0; i < MAX_OPEN_FILE_NUM; i++) client[i].fd = -1` over an array whose other members
-- nothing sets, and the listening socket in entry 0.
abbrev pub clear_fds : List PollFd → List PollFd
clear_fds [] = []
clear_fds (c ∷ cs) = record c { fd = negsuc 0 } ∷ clear_fds cs

unfoldable pub start : List PollFd → ℕ → Server
start stack listenfd = record {
  client =
      set (clear_fds stack) 0
        (record (get_or (clear_fds stack) 0 unset) { fd = pos listenfd; events_in = true });
  maxi = 1;
}
  where
    unset : PollFd
    unset = record { fd = negsuc 0; events_in = false; revents_in = false; revents_err = false }

unfoldable pub find_free : List PollFd → Option ℕ
find_free [] = none
find_free (c ∷ cs) =
    if is_neg c.fd then some 0 else elim (find_free cs) [ none ↦ none | some i ↦ some (suc i) ]

unfoldable pub store : ℤ → ℕ → List PollFd → List PollFd
store fd i [] = []
store fd zero (c ∷ cs) = record c { fd = fd; events_in = true } ∷ cs
store fd (suc i) (c ∷ cs) = c ∷ store fd i cs

abbrev pub then_slots :
    Option (ℤ × List Effect)
    → PollFd
    → Option (List PollFd × List Effect)
    → Option (List PollFd × List Effect)
then_slots none c rest = none
then_slots (some (fd, calls)) c none = none
then_slots (some (fd, calls)) c (some (cs, more)) = some (record c { fd = fd } ∷ cs, calls ++ more)

abbrev pub skip_slot :
    PollFd → Option (List PollFd × List Effect) → Option (List PollFd × List Effect)
skip_slot c none = none
skip_slot c (some (cs, more)) = some (c ∷ cs, more)

abbrev pub after_scan : ℕ → Option (List PollFd × List Effect) → Outcome
after_scan n none = exits (negsuc 2)
after_scan n (some (cs, calls)) = running (record { client = cs; maxi = n }) calls

abbrev pub listen_ready : List PollFd → Bool
listen_ready [] = false
listen_ready (c ∷ cs) = c.revents_in

module _ (toupper : ℕ → ℕ) (r : Round) where
  -- `poll`, on the first `n` entries from index `i` on.
  unfoldable pub poll_fill : ℕ → ℕ → List PollFd → List PollFd
  poll_fill zero i cs = cs
  poll_fill (suc n) i [] = []
  poll_fill (suc n) i (c ∷ cs) =
      record c { revents_in = r.pollin i; revents_err = r.pollerr i } ∷ poll_fill n (i + 1) cs

  -- What a read does to its entry; `none` is `exit(-3)`.
  unfoldable pub serve_fd : ℕ → Read → Option (ℤ × List Effect)
  serve_fd fd (received []) = some (negsuc 0, closed fd ∷ [])
  serve_fd fd (received (b ∷ bs)) = some (pos fd, wrote fd (echo toupper maxline (b ∷ bs)) ∷ [])
  serve_fd fd (read_error e) = if e == econnreset then some (negsuc 0, closed fd ∷ []) else none

  -- An entry with its descriptor, and what the loop does after it.
  unfoldable pub visit :
      PollFd
      → ℤ
      → ℕ
      → Option (List PollFd × List Effect)
      → Option (List PollFd × List Effect)
      → List PollFd
      → Option (List PollFd × List Effect)
  visit c (negsuc k) left skipped rest cs = skip_slot c skipped
  visit c (pos fd) left skipped rest cs =
      if c.revents_in || c.revents_err
      then (if left == 1
          then then_slots (serve_fd fd (r.read fd)) c (some (cs, []))
          else then_slots (serve_fd fd (r.read fd)) c rest)
      else skip_slot c skipped

  -- The loop over the first `n` entries; `none` when the program exits.
  unfoldable pub scan : ℕ → List PollFd → ℕ → Option (List PollFd × List Effect)
  scan zero cs left = some (cs, [])
  scan (suc n) [] left = some ([], [])
  scan (suc n) (c ∷ cs) left =
      let skipped = scan n cs left in
      let rest = scan n cs (left - 1) in visit c c.fd left skipped rest cs

  unfoldable pub serve_clients : List PollFd → ℕ → ℕ → Outcome
  serve_clients cs n left = after_scan n (scan n cs left)

  unfoldable pub accept_at : List PollFd → ℕ → ℕ → Option ℕ → Outcome
  accept_at cs n left none = exits (negsuc 1)
  accept_at cs n left (some i) =
      let cs' = store r.connfd i cs in
      let n' = if leb n i then i + 1 else n in
      if left == 1
      then running (record { client = cs'; maxi = n' }) []
      else serve_clients cs' n' (left - 1)

  unfoldable pub round_of : List PollFd → ℕ → ℤ → Outcome
  round_of cs n (negsuc _) = exits (negsuc 0)
  round_of cs n (pos left) =
      if listen_ready cs then accept_at cs n left (find_free cs) else serve_clients cs n left

  -- One round of `while(1)`.
  unfoldable pub round : Server → Outcome
  round s = round_of (poll_fill s.maxi 0 s.client) s.maxi r.nready
