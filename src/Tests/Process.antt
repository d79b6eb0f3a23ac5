-- ===== src/Tests/Process.antt =====
-- Wrapper, daemon and pipe, on a kernel whose tables are lists and which uses the lowest free number.
use linux_c_program_exercris.Prelude.{
  false, ℕ, zero, suc, ◌<◌, ◌≡◌, ◌≢◌, refl, Option, none, some, List, [], ◌∷◌, arith, ◌==◌,
  if◌then◌else◌, true, false, ◌++◌, ltb, pos, negsuc, replicate, Bool, ◌&&◌,
}
use linux_c_program_exercris.Process.Kernel.{Kernel, in_child, in_parent}
use linux_c_program_exercris.Echo.{received, read_error}
use linux_c_program_exercris.Sockets.Client.{text_of}
use linux_c_program_exercris.Process.Wrapper.{wrapper_main, wrapper_main_redirects, becomes, ends}
use linux_c_program_exercris.Process.Pipe.{prefix, newline}
use linux_c_program_exercris.Process.Limit.{
  open_all, open_all_takes_all, has_number, is_free, Rising,
}
use linux_c_program_exercris.Process.Nonblock.{nonblock_program, nonblock_program_passes}
use linux_c_program_exercris.Files.Pipe.{try_again, closes_pipe, child_read, eagain}
use linux_c_program_exercris.Tests.Network.{upper}
use linux_c_program_exercris.Sockets.Accept.{writes, tcp_main, fork_main, servers_keep_descriptors}
use linux_c_program_exercris.Echo.{Read}

abbrev Slots : Type 0
Slots = List (Option ℕ)

unfoldable file_at : Slots → ℕ → Option ℕ
file_at [] g = none
file_at (x ∷ t) zero = x
file_at (x ∷ t) (suc g) = file_at t g

unfoldable lowest_free : Slots → ℕ
lowest_free [] = 0
lowest_free (none ∷ t) = 0
lowest_free (some x ∷ t) = suc (lowest_free t)

unfoldable put : Slots → ℕ → Option ℕ → Slots
put [] zero v = v ∷ []
put [] (suc g) v = none ∷ put [] g v
put (x ∷ t) zero v = v ∷ t
put (x ∷ t) (suc g) v = x ∷ put t g v

file_at-put :
    (t : Slots) (f : ℕ) (v : Option ℕ) (g : ℕ)
    → file_at (put t f v) g ≡ (if g == f then v else file_at t g)
unfolding file_at put
file_at-put [] zero v zero = refl
file_at-put [] zero v (suc g) = ground arith
file_at-put [] (suc f) v zero = ground arith
file_at-put [] (suc f) v (suc g) = ground (arith, file_at-put [] f v g)
file_at-put (x ∷ t) zero v zero = refl
file_at-put (x ∷ t) zero v (suc g) = ground arith
file_at-put (x ∷ t) (suc f) v zero = ground arith
file_at-put (x ∷ t) (suc f) v (suc g) = ground (arith, file_at-put t f v g)

lowest_free_lem : (t : Slots) → file_at t (lowest_free t) ≡ none
unfolding file_at lowest_free
lowest_free_lem [] = refl
lowest_free_lem (none ∷ t) = refl
lowest_free_lem (some x ∷ t) = lowest_free_lem t

below_used : (t : Slots) (g : ℕ) → g < lowest_free t → file_at t g ≢ none
unfolding file_at lowest_free
below_used [] g h = absurd (omega arith)
below_used (none ∷ t) g h = absurd (omega arith)
below_used (some x ∷ t) zero h = λ e. cc
below_used (some x ∷ t) (suc g) h = below_used t g (omega arith)

unfoldable open_at : Slots → ℕ → ℕ × Slots
open_at t x = (lowest_free t, put t (lowest_free t) (some x))

unfoldable pipe_at : Slots → ℕ → ℕ → ℕ × ℕ × Slots
unfolding open_at
pipe_at t r w = ((open_at t r).0, (open_at (open_at t r).1 w).0, (open_at (open_at t r).1 w).1)

file_at-open_at :
    (t : Slots) (x g : ℕ)
    → file_at (open_at t x).1 g ≡ (if g == (open_at t x).0 then some x else file_at t g)
unfolding open_at
file_at-open_at t x g = file_at-put t (lowest_free t) (some x) g

ends_apart : (t : Slots) (r w : ℕ) → (pipe_at t r w).0 ≢ (pipe_at t r w).1
unfolding pipe_at open_at
ends_apart t r w e =
    let u = (open_at t r).1 in
    ground (arith, lowest_free_lem u, file_at-open_at t r (lowest_free u))

file_at-pipe_at :
    (t : Slots) (r w g : ℕ)
    → file_at (pipe_at t r w).2 g ≡ (
        if g == (pipe_at t r w).0
        then some r
        else if g == (pipe_at t r w).1
        then some w
        else file_at t g)
unfolding pipe_at
file_at-pipe_at t r w g =
    ground (arith, ends_apart t r w, file_at-open_at t r g, file_at-open_at (open_at t r).1 w g)

pipe_free :
    (t : Slots) (r w : ℕ)
    → (file_at t (pipe_at t r w).0 ≡ none)
      × (file_at t (pipe_at t r w).1 ≡ none)
      × ((pipe_at t r w).0 ≢ (pipe_at t r w).1)
unfolding pipe_at open_at
pipe_free t r w =
    let u = (open_at t r).1 in
    (
      lowest_free_lem t,
      ground (arith, lowest_free_lem u, file_at-open_at t r (lowest_free u), ends_apart t r w),
      ends_apart t r w,
    )

abbrev kernel : Kernel
kernel = record {
  Table = Slots;
  file_at = file_at;
  open_file = open_at;
  dup = λ t f. (lowest_free t, put t (lowest_free t) (file_at t f));
  dup2 = λ t f h. put t h (file_at t f);
  close = λ t f. put t f none;
  pipe = pipe_at;
  open_free = λ t x. unfold open_at in lowest_free_lem t;
  open_lowest = λ t x g h. below_used t g (unfold open_at in h);
  dup_free = λ t f. lowest_free_lem t;
  pipe_free = pipe_free;
  file_at-open = file_at-open_at;
  file_at-dup = λ t f x g e. rw e (file_at-put t (lowest_free t) (some x) g);
  file_at-dup2 = λ t f h x g e. rw e (file_at-put t h (some x) g);
  file_at-close = λ t f g. file_at-put t f none g;
  file_at-pipe = file_at-pipe_at;
}

-- The terminal is 7, and descriptor 3 is open as well.
abbrev table : Slots
table = some 7 ∷ some 7 ∷ some 7 ∷ some 9 ∷ []

terminal : file_at table 0 ≡ some 7
unfolding file_at
terminal = refl

wrapper_main_redirects_example :
    ((u : Slots) × (wrapper_main kernel table 2 (some 20) true ≡ becomes u)
      × (save_fd : ℕ) × (file_at table save_fd ≡ none)
      × ((g : ℕ)
          → file_at u g
            ≡ (if g == 0 then some 20 else if g == save_fd then some 7 else file_at table g)))
    × ((u : Slots) × (wrapper_main kernel table 2 (some 20) false ≡ ends (pos 0) u)
        × ((g : ℕ) → file_at u g ≡ (if g == 0 then some 20 else file_at table g)))
wrapper_main_redirects_example = wrapper_main_redirects kernel table 2 20 7 (omega arith) terminal

-- Two clients, the second with a child and then without.
abbrev tcp_clients : List (ℕ × Read)
tcp_clients = (50, received (97 ∷ [])) ∷ (51, received (98 ∷ [])) ∷ []

abbrev fork_clients : List (ℕ × Bool × Read)
fork_clients = (50, true, received (97 ∷ [])) ∷ (51, false, received (98 ∷ [])) ∷ []

servers_keep_descriptors_example :
    (file_at (tcp_main kernel upper table 60 tcp_clients).1 4
      ≡ (if 4 == (open_at table 60).0 then some 60 else file_at table 4))
    × (file_at (fork_main kernel upper table 60 fork_clients).1 4
        ≡ (if 4 == (open_at table 60).0 then some 60 else file_at table 4))
    × (writes kernel upper (tcp_main kernel upper table 60 tcp_clients).0
        ≡ (5, 65 ∷ []) ∷ (5, 66 ∷ []) ∷ [])
    × (writes kernel upper (fork_main kernel upper table 60 fork_clients).0 ≡ (5, 66 ∷ []) ∷ [])
unfolding open_at lowest_free put
servers_keep_descriptors_example =
    servers_keep_descriptors kernel upper table 60 tcp_clients fork_clients 4

nonblock_program_passes_example :
    let text : List ℕ = 72 ∷ 73 ∷ [] in
    let p = nonblock_program kernel table 40 41 text true (in_parent 100) [] in
    let waits = replicate 2 (read_error eagain) in
    let c =
      nonblock_program kernel table 40 41 text true in_child (waits ++ (received p.sent ∷ [])) in
    let d = nonblock_program kernel table 40 41 text true in_child (waits ++ (read_error 5 ∷ [])) in
    (c.shown
      ≡ replicate 2 try_again
        ++ (closes_pipe ∷ child_read (prefix ++ (text ++ (newline ∷ 0 ∷ []))) ∷ []))
    × (p.status ≡ some (pos 0))
    × (c.status ≡ some (pos 0))
    × ((g : ℕ) → file_at p.table g ≡ file_at table g)
    × ((g : ℕ) → file_at c.table g ≡ file_at table g)
    × (d.shown ≡ replicate 2 try_again)
    × (d.status ≡ some (negsuc 1))
    × ((g : ℕ)
        → file_at d.table g ≡ (if g == (pipe_at table 40 41).0 then some 40 else file_at table g))
unfolding text_of
nonblock_program_passes_example =
    nonblock_program_passes kernel table 40 41 100 2 5 (72 ∷ 73 ∷ []) refl (λ e. omega arith)

-- Six descriptors at most.
abbrev limited : Slots → Option (ℕ × Slots)
limited t = if ltb (open_at t 9).0 6 then some (open_at t 9) else none

open_all_takes_all_example :
    let r = open_all kernel 6 9 limited 7 table in
    (r.status ≡ some (negsuc 0))
    × ((g : ℕ) → has_number g r.printed ≡ (ltb g 6 && is_free (file_at table g)))
    × ((g : ℕ) → file_at r.table g ≡ (if has_number g r.printed then some 9 else file_at table g))
    × Rising 0 r.printed
open_all_takes_all_example = open_all_takes_all kernel 6 9 limited 7 table (λ t. refl) (omega arith)
