-- ===== src/Tests/Select.antt =====
-- 012_network_IO/01select/server.c: a first connection, and then its bytes.
use linux_c_program_exercris.Prelude.{
  ℕ, zero, suc, ◌≡◌, refl, false, [], ◌∷◌, map, arith, ◌==◌, pos, negsuc, set, replicate,
  length-replicate,
}
use linux_c_program_exercris.Echo.{received}
use linux_c_program_exercris.Select.Defs.{
  Server, Round, start, round, running, add_client, find_free, fd_setsize,
}
use linux_c_program_exercris.Select.Scan.{AllFree, has, slot_after, all_effects, count_ready}
use linux_c_program_exercris.Select.Table.{Distinct}
use linux_c_program_exercris.Select.Serve.{
  IsWatched, Answers, round_admits, round_serves, add_client-IsWatched,
}
use linux_c_program_exercris.Tests.Network.{upper}

pub empty_table :
    (n : ℕ)
    → AllFree (replicate n (negsuc 0))
      × Distinct (replicate n (negsuc 0))
      × ((f : ℕ) → has (replicate n (negsuc 0)) f ≡ false)
empty_table zero = (tt, tt, λ f. refl)
empty_table (suc n) = let (a, d, h) = empty_table n in ((refl, a), d, h)

pub idle_table :
    (n : ℕ) (toupper : ℕ → ℕ) (r : Round) → count_ready toupper r (replicate n (negsuc 0)) ≡ 0
idle_table zero toupper r = refl
idle_table (suc n) toupper r = omega (arith, idle_table n toupper r)

pub start-IsWatched : (listenfd : ℕ) → IsWatched (start listenfd)
unfolding start
start-IsWatched listenfd = record {
  sized = length-replicate fd_setsize (negsuc 0);
  tail = (empty_table fd_setsize).0;
  apart = (empty_table fd_setsize).1;
  own = (empty_table fd_setsize).2 listenfd;
  watch = λ f. ground (arith, (empty_table fd_setsize).2 f);
  top = λ f e. ground arith;
}

abbrev pub connection : Round
connection = record { nready = pos 1; rset = λ f. f == 3; connfd = pos 4; read = λ f. received [] }

pub connection-Answers : Answers upper (start 3) connection 1
unfolding start
connection-Answers = record {
  some_ready = refl;
  in_set = λ f e. ground arith;
  counted = omega (arith, idle_table fd_setsize upper connection);
  new_fd = λ fd e. ground arith;
}

round_admits_example :
    (t : Server) × (round upper connection (start 3)
      ≡ running t (all_effects upper connection (start 3).client))
    × IsWatched t
    × (t.client ≡ map (slot_after upper connection) (set (start 3).client 0 (pos 4)))
unfolding start find_free
round_admits_example =
    round_admits upper connection (start 3) 1 4 0 (start-IsWatched 3) connection-Answers refl refl
      (omega arith) refl

abbrev connected : Server
connected = add_client (start 3) 0 4

abbrev pub bytes : Round
bytes = record {
  nready = pos 1;
  rset = λ f. f == 4;
  connfd = negsuc 0;
  read = λ f. received (97 ∷ []);
}

connected-IsWatched : IsWatched connected
unfolding start
connected-IsWatched = add_client-IsWatched upper bytes (start 3) 0 4 (start-IsWatched 3) tt refl

bytes-Answers : Answers upper connected bytes 1
unfolding start add_client
bytes-Answers = record {
  some_ready = refl;
  in_set = λ f e. ground arith;
  counted = omega (arith, idle_table 1023 upper bytes);
  new_fd = λ fd e. ground arith;
}

round_serves_example :
    (t : Server) × (round upper bytes connected
      ≡ running t (all_effects upper bytes connected.client))
    × IsWatched t
    × (t.client ≡ map (slot_after upper bytes) connected.client)
unfolding start add_client
round_serves_example = round_serves upper bytes connected 1 connected-IsWatched bytes-Answers refl
