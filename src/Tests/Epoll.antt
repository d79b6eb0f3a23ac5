-- ===== src/Tests/Epoll.antt =====
-- 012_network_IO/03epoll/server.c: a table with two clients.
use linux_c_program_exercris.Prelude.{
  ℕ, suc, ◌≡◌, sym, ap, true, false, ◌||◌, [], ◌∷◌, arith, ◌==◌, if◌then◌else◌, pos, negsuc,
  replicate, length-replicate, Option, none, some, List,
}
use linux_c_program_exercris.Echo.{received, read_error}
use linux_c_program_exercris.Epoll.Defs.{
  Event, Outcome, exits, Server, Round, running, handle_event, econnreset,
}
use linux_c_program_exercris.Epoll.Table.{IsRegistered}
use linux_c_program_exercris.Tests.Network.{upper}
use linux_c_program_exercris.Tests.Select.{empty_table}
use linux_c_program_exercris.Epoll.Loop.{
  GoesOn, SomeReset, serve_epoll, AllPromised, serve_epoll-GoesOn,
}

-- The listening socket is 3, the clients are 5 and 6.
abbrev pub two_clients : Server
two_clients = record {
  client = pos 5 ∷ pos 6 ∷ replicate 4094 (negsuc 0);
  maxi = 2;
  listenfd = 3;
  registered = λ f. f == 3 || (f == 5 || (f == 6 || false));
}

pub two_clients-IsRegistered : IsRegistered two_clients
two_clients-IsRegistered = record {
  sized = ap (λ n. suc (suc n)) (length-replicate 4094 (negsuc 0));
  tail = (empty_table 4094).0;
  apart = ((empty_table 4094).2 5, ((empty_table 4094).2 6, (empty_table 4094).1));
  own = (empty_table 4094).2 3;
  watch = λ f. ap (λ b. f == 3 || (f == 5 || (f == 6 || b))) (sym ((empty_table 4094).2 f));
}

-- Client 5 is at its end, client 6 is reset.
abbrev pub answers : Round
answers = record {
  connfd = pos 7;
  read = λ f. if f == 5 then received [] else read_error econnreset;
  ctl = λ f. true;
}

pub new_here : (fd : ℕ) → answers.connfd ≡ pos fd → two_clients.registered fd ≡ false
new_here fd e = ground arith

abbrev listening : Outcome → ℕ
listening (running t calls) = t.listenfd
listening (exits n) = 0

-- A round with a new client and the end of client 5, and then an `epoll_wait` that fails.
abbrev rounds : List (Round × Option (List Event))
rounds =
    (answers, some (record { fd = 3; epollin = true } ∷ record { fd = 5; epollin = true } ∷ []))
    ∷ (answers, none)
    ∷ []

rounds-AllPromised : AllPromised upper two_clients rounds
unfolding handle_event
rounds-AllPromised = (
  (
    λ own fd e. new_here fd e,
    λ t calls run. (
      λ own fd e. let same : 3 ≡ t.listenfd = ap listening run in absurd (ground arith),
      λ t' calls' run'. tt,
    ),
  ),
  λ t calls run. (tt, λ t' calls' run'. tt),
)

serve_epoll-GoesOn_example : GoesOn (SomeReset rounds) (serve_epoll upper two_clients rounds)
serve_epoll-GoesOn_example =
    serve_epoll-GoesOn upper two_clients rounds two_clients-IsRegistered rounds-AllPromised
