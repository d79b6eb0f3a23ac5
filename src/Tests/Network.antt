-- ===== src/Tests/Network.antt =====
-- 011network and 012_network_IO/05unix_socket_domain, on concrete inputs.
use linux_c_program_exercris.Prelude.{
  ℕ, ◌-◌, ◌≡◌, refl, ◌≢◌, ◌⊎◌, Bool, true, false, ◌&&◌, none, some, List, [], ◌∷◌, map, arith, leb,
  ◌==◌, if◌then◌else◌, ℤ, pos, negsuc,
}
use linux_c_program_exercris.Echo.{Read, received, read_error, Effect}
use linux_c_program_exercris.Sockets.Stream.{bytes_to, closes_of, eintr, bytes_in}
use linux_c_program_exercris.Sockets.Unix
use linux_c_program_exercris.Sockets.Unix.{
  Answers, Peer, Fails, serv_listen, serv_accept, cli_conn, stores_uid, unlinks, report_listen,
  listen_failed, bind_failed, socket_failed,
}
use linux_c_program_exercris.Sockets.Server.{
  server_main, server_main_serves, no_client, served, accept_failed, bad_filename, not_a_socket,
}
use linux_c_program_exercris.Poll.Defs.{
  PollFd, Server, Round, round, exits, scan, find_free, poll_fill,
}
use linux_c_program_exercris.Poll.Scan.{serve_all, scan-serve_all, listen_and_data_exits}

-- ASCII.
abbrev pub upper : ℕ → ℕ
upper b = if leb 97 b && leb b 122 then b - 32 else b

-- "ab" in two reads with a signal between them, and the end.
abbrev two_reads : List Read
two_reads = received (97 ∷ []) ∷ read_error eintr ∷ received (98 ∷ []) ∷ received [] ∷ []

-- Socket 5, where `listen` and `connect` fail with EADDRINUSE and ECONNREFUSED, and `close` fails.
abbrev refused : Answers
refused = record {
  errno_before = 0;
  socket = pos 5;
  socket_errno = 24;
  bind = none;
  listen = some 98;
  connect = some 111;
  close = some 9;
}

serv_listen_cases_example :
    ((k : ℕ) × (refused.socket ≡ negsuc k)
      × Fails (serv_listen refused) (negsuc 0) [] 24
      × (report_listen (serv_listen refused).value ≡ some socket_failed))
    ⊎ ((fd : ℕ) × (e : ℕ) × (refused.socket ≡ pos fd)
        × (refused.bind ≡ some e)
        × Fails (serv_listen refused) (negsuc 1) (fd ∷ []) e
        × (report_listen (serv_listen refused).value ≡ some bind_failed))
    ⊎ ((fd : ℕ) × (e : ℕ) × (refused.socket ≡ pos fd)
        × (refused.bind ≡ none)
        × (refused.listen ≡ some e)
        × Fails (serv_listen refused) (negsuc 2) (fd ∷ []) e
        × (report_listen (serv_listen refused).value ≡ some listen_failed))
    ⊎ ((fd : ℕ) × (refused.socket ≡ pos fd)
        × (refused.bind ≡ none)
        × (refused.listen ≡ none)
        × ((serv_listen refused).value ≡ pos fd)
        × (Unix.closes_of (serv_listen refused).calls ≡ [])
        × (report_listen (serv_listen refused).value ≡ none))
serv_listen_cases_example = Unix.serv_listen_cases refused

abbrev peer : Peer
peer = record { stat = none; is_socket = true; uid = 1000 }

-- The listening socket 3 in entry 0, a client in entry 1, a free entry.
abbrev entry : ℤ → Bool → PollFd
entry fd ready = record { fd = fd; events_in = true; revents_in = ready; revents_err = false }

-- The client and the listening socket are ready, and a read of the latter fails with EINVAL.
abbrev both_ready : Round
both_ready = record {
  nready = pos 2;
  pollin = λ i. true;
  pollerr = λ i. false;
  connfd = pos 6;
  read = λ f. if f == 3 then read_error 22 else received (97 ∷ []);
}

scan-serve_all_example :
    scan upper both_ready 2
      (entry (pos 4) true ∷ entry (pos 5) false ∷ entry (negsuc 0) false ∷ [])
      1
    ≡ serve_all upper both_ready
        (entry (pos 4) true ∷ entry (pos 5) false ∷ entry (negsuc 0) false ∷ [])
scan-serve_all_example =
    scan-serve_all upper both_ready 2
      (entry (pos 4) true ∷ entry (pos 5) false ∷ entry (negsuc 0) false ∷ []) 1 (refl, tt)
      (omega arith)

abbrev three : Server
three = record {
  client = entry (pos 3) false ∷ entry (pos 4) false ∷ entry (negsuc 0) false ∷ [];
  maxi = 2;
}

two_ready : ◌≢◌ {A = ℕ} 2 1
two_ready e = omega arith

no_reset : ◌≢◌ {A = ℕ} 22 104
no_reset e = omega arith

listen_and_data_exits_example : round upper both_ready three ≡ exits (negsuc 2)
unfolding find_free poll_fill
listen_and_data_exits_example =
    listen_and_data_exits upper both_ready three (entry (pos 3) false)
      (entry (pos 4) false ∷ entry (negsuc 0) false ∷ []) 1 3 2 22 2 refl refl refl refl refl
      two_ready refl refl no_reset

abbrev open_socket : Answers
open_socket = record refused { listen = none; connect = none }

server_main_serves_example :
    ((k : ℕ) × (refused.socket ≡ negsuc k)
      × (server_main upper open_socket refused peer two_reads ≡ no_client accept_failed))
    ⊎ ((cfd : ℕ) × (e : ℕ) × (refused.socket ≡ pos cfd)
        × (peer.stat ≡ some e)
        × (server_main upper open_socket refused peer two_reads ≡ no_client bad_filename))
    ⊎ ((cfd : ℕ) × (refused.socket ≡ pos cfd)
        × (peer.stat ≡ none)
        × (peer.is_socket ≡ false)
        × (server_main upper open_socket refused peer two_reads ≡ no_client not_a_socket))
    ⊎ ((cfd : ℕ) × (es : List Effect) × (refused.socket ≡ pos cfd)
        × (peer.is_socket ≡ true)
        × (server_main upper open_socket refused peer two_reads ≡ served es)
        × ((d : ℕ) → bytes_to d es ≡ (if cfd == d then map upper (bytes_in two_reads) else []))
        × (closes_of es ≡ cfd ∷ 5 ∷ []))
server_main_serves_example =
    server_main_serves upper open_socket refused peer two_reads 5 refl refl refl
