-- ===== src/Tests/Loops.antt =====
-- The endless loop of the poll server, for a round in which a client comes.
use linux_c_program_exercris.Poll.Entries.{IsTable}
use linux_c_program_exercris.Prelude.{
  ℕ, zero, suc, ◌≡◌, refl, ap, true, false, [], ◌∷◌, arith, ◌==◌, pos, length, replicate, Bool, inr,
}
use linux_c_program_exercris.Echo.{read_error}
use linux_c_program_exercris.Poll.Defs.{PollFd, Round, clear_fds, start}
use linux_c_program_exercris.Poll.Opened.{Held}
use linux_c_program_exercris.Poll.Table.{fds}
use linux_c_program_exercris.Poll.Loop.{GoesOn, serve_poll, AllPromised, serve_poll-GoesOn}
use linux_c_program_exercris.Select.Scan.{AllFree, has}
use linux_c_program_exercris.Select.Table.{Distinct}
use linux_c_program_exercris.Tests.Network.{upper}

-- What the stack held.
abbrev garbage : PollFd
garbage = record { fd = pos 77; events_in = false; revents_in = true; revents_err = true }

cleared :
    (n : ℕ)
    → AllFree (fds (clear_fds (replicate n garbage)))
      × Distinct (fds (clear_fds (replicate n garbage)))
      × ((f : ℕ) → has (fds (clear_fds (replicate n garbage))) f ≡ false)
      × (length (fds (clear_fds (replicate n garbage))) ≡ n)
cleared zero = (tt, tt, (λ f. refl), refl)
cleared (suc n) = let (a, d, h, l) = cleared n in ((refl, a), d, h, ap suc l)

start-IsTable :
    IsTable 3 (start (replicate 1024 garbage) 3).client (start (replicate 1024 garbage) 3).maxi
unfolding start
start-IsTable = record {
  own = refl;
  sized = ap suc (cleared 1023).3;
  apart = ((cleared 1023).2 3, (cleared 1023).1);
  tail = (cleared 1023).0;
  some_given = omega arith;
}

-- Client 4 comes, and nothing else is ready; ENOTCONN from the listening socket.
abbrev comes : Round
comes = record {
  nready = pos 1;
  pollin = λ i. i == 0;
  pollerr = λ i. false;
  connfd = pos 4;
  read = λ f. read_error 107;
}

-- Descriptor 3 is open.
abbrev opened : ℕ → Bool
opened f = f == 3

start-Held : Held opened (start (replicate 1024 garbage) 3).client
unfolding start
start-Held f t = ground (arith, (cleared 1023).2 f)

comes-AllPromised : AllPromised upper opened 3 (start (replicate 1024 garbage) 3) (comes ∷ [])
unfolding start
comes-AllPromised = (
  record {
    connects = λ e. inr (4, refl, refl);
    error = 107;
    refuses = refl;
    other = λ e. omega arith;
  },
  λ t calls e. tt,
)

serve_poll-GoesOn_example :
    GoesOn 3 (serve_poll upper (start (replicate 1024 garbage) 3) (comes ∷ []))
serve_poll-GoesOn_example =
    serve_poll-GoesOn upper opened 3 (start (replicate 1024 garbage) 3) (comes ∷ []) start-IsTable
      start-Held comes-AllPromised
