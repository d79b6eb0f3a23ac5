-- ===== src/Sockets/Inet.antt =====
-- 011network: one turn of the servers' loops, 01TCP/src/01server.c, 02UDP/src/01server.c and the
-- parent of 03TCP_FORK/src/01server.c. The descriptor of a connection is a parameter: the turns
-- begin when `accept` or `recvfrom` has answered.
use native.Mathlib.Numerals.{add-one}
use linux_c_program_exercris.Prelude.{
  ℕ, zero, suc, ◌+◌, ◌-◌, ◌≤◌, ◌<◌, ◌≡◌, refl, ap, ◌∙◌, ◌⊎◌, inl, inr, true, false, List, [], ◌∷◌,
  ◌++◌, map, arith, dec_lt, ltb, if◌then◌else◌, lt→ltb, length, set, take, drop, replicate,
  length-append, length-replicate, length-drop,
}
use linux_c_program_exercris.Sockets.Stream.{closes_of}
use linux_c_program_exercris.Echo.{
  Read, received, read_error, Effect, wrote, write_failed, closed, echo, echo-map, upper_loop,
}

abbrev pub tcp_buf : ℕ
tcp_buf = 8192

abbrev pub udp_buf : ℕ
udp_buf = 1024

abbrev pub newline : ℕ
newline = 10

-- `fork` answers -1, 0 in the child, or the child's number.
pub data Forked : Type 0 where
  fork_failed in_child in_parent : Forked

-- What `main` of the datagram server sends, or an access outside of `readBuf`.
pub data Datagram : Type 0 where
  sent : List ℕ → Datagram
  overflow : Datagram

-- A buffer after `bzero`.
unfoldable pub blank : ℕ → List ℕ
blank n = replicate n 0

length-blank : (n : ℕ) → length (blank n) ≡ n
unfolding blank
length-blank n = length-replicate n 0

module _ (toupper : ℕ → ℕ) where
  -- `bzero`, `read`, the loop, `write`.
  unfoldable pub echo_once : ℕ → Read → List Effect
  echo_once confd (received bs) = wrote confd (echo toupper tcp_buf bs) ∷ []
  echo_once confd (read_error e) = write_failed confd ∷ []

  -- One connection of the TCP server: one read, one write, and the close.
  unfoldable pub tcp_turn : ℕ → Read → List Effect
  unfolding echo_once
  tcp_turn confd r = echo_once confd r ++ (closed confd ∷ [])

  -- One connection of the forking server, in the parent or after a failed fork. The parent closes
  -- its copy and starts the thread that waits, then runs on into the code below the `if`.
  unfoldable pub fork_turn : ℕ → ℕ → Forked → Read → List Effect
  unfolding echo_once
  fork_turn sockfd confd in_child r = closed sockfd ∷ []
  fork_turn sockfd confd in_parent r = closed confd ∷ echo_once confd r ++ (closed confd ∷ [])
  fork_turn sockfd confd fork_failed r = echo_once confd r ++ (closed confd ∷ [])

  -- `readBuf[readlen] = '\n'` and `sendto` of `readlen + 1` bytes, after the loop.
  unfoldable pub with_newline : ℕ → List ℕ → Datagram
  with_newline n buf =
      if ltb n (length buf) then sent (take (n + 1) (set buf n newline)) else overflow

  -- One datagram of the UDP server. A `recvfrom` that fails makes the index -1.
  unfoldable pub udp_turn : Read → Datagram
  unfolding with_newline
  udp_turn (received bs) =
      with_newline (length bs)
        (upper_loop toupper (length bs) (bs ++ drop (length bs) (blank udp_buf)))
  udp_turn (read_error e) = overflow

  -- A TCP client gets back the first chunk that it sent, in upper case, and is then disconnected;
  -- a failed read is answered by a failed write, and the descriptor is closed all the same.
  pub tcp_turn_closes :
      (confd : ℕ) (r : Read)
      → ((bs : List ℕ) × (r ≡ received bs)
          × (tcp_turn confd r ≡ wrote confd (map toupper bs) ∷ closed confd ∷ []))
        ⊎ ((e : ℕ) × (r ≡ read_error e)
            × (tcp_turn confd r ≡ write_failed confd ∷ closed confd ∷ []))
  unfolding tcp_turn
  tcp_turn_closes confd (received bs) =
      inl (bs, refl, ap (λ l. wrote confd l ∷ closed confd ∷ []) (echo-map toupper tcp_buf bs))
  tcp_turn_closes confd (read_error e) = inr (e, refl, refl)

  -- Whatever the read answers, the parent of the forking server closes the connection twice, the
  -- second time when its number may belong to somebody else; the child only closes the listening
  -- socket, and after a failed fork the connection is served and closed once.
  pub fork_turn_closes :
      (sockfd confd : ℕ) (r : Read)
      → (closes_of (fork_turn sockfd confd in_parent r) ≡ confd ∷ confd ∷ [])
        × (closes_of (fork_turn sockfd confd in_child r) ≡ sockfd ∷ [])
        × (closes_of (fork_turn sockfd confd fork_failed r) ≡ confd ∷ [])
        × (fork_turn sockfd confd fork_failed r ≡ tcp_turn confd r)
  unfolding fork_turn tcp_turn
  fork_turn_closes sockfd confd (received bs) = (refl, refl, refl, refl)
  fork_turn_closes sockfd confd (read_error e) = (refl, refl, refl, refl)

  length-upper_loop : (n : ℕ) (buf : List ℕ) → length (upper_loop toupper n buf) ≡ length buf
  unfolding upper_loop
  length-upper_loop zero buf = refl
  length-upper_loop (suc n) [] = refl
  length-upper_loop (suc n) (b ∷ buf) = ap suc (length-upper_loop n buf)

  upper-snoc :
      (bs rest : List ℕ)
      → 0 < length rest
      → take
          (suc (length bs))
          (set (upper_loop toupper (length bs) (bs ++ rest)) (length bs) newline)
        ≡ map toupper bs ++ (newline ∷ [])
  unfolding upper_loop
  upper-snoc [] [] h = elim h [ ]
  upper-snoc [] (r ∷ rest) h = refl
  upper-snoc (b ∷ bs) rest h = ap (◌∷◌ (toupper b)) (upper-snoc bs rest h)

  with_newline_lem :
      (bs : List ℕ) (size : ℕ)
      → let out =
          with_newline
            (length bs)
            (upper_loop toupper (length bs) (bs ++ drop (length bs) (blank size))) in
        (length bs < size → out ≡ sent (map toupper bs ++ (newline ∷ [])))
        × (size ≤ length bs → out ≡ overflow)
  unfolding with_newline
  with_newline_lem bs size = (fits, spills)
    where
      buf : List ℕ
      buf = upper_loop toupper (length bs) (bs ++ drop (length bs) (blank size))

      total : length buf ≡ length bs + (size - length bs)
      total =
          length-upper_loop (length bs) (bs ++ drop (length bs) (blank size))
          ∙ length-append bs (drop (length bs) (blank size))
          ∙ ap (λ n. length bs + n)
              (length-drop (length bs) (blank size) ∙ ap (λ n. n - length bs) (length-blank size))

      fits :
          length bs < size → with_newline (length bs) buf ≡ sent (map toupper bs ++ (newline ∷ []))
      fits h =
          let test : ltb (length bs) (length buf) ≡ true = lt→ltb _ _ (omega (arith, total)) in
          let room : 0 < length (drop (length bs) (blank size)) =
            omega (arith, length-drop (length bs) (blank size), length-blank size) in
          rw (test, add-one (length bs))
            (ap sent (upper-snoc bs (drop (length bs) (blank size)) room))

      spills : size ≤ length bs → with_newline (length bs) buf ≡ overflow
      spills h = let test : ltb (length bs) (length buf) ≡ false = ground (arith, total) in rw test

  -- A datagram comes back in upper case with a newline behind it if it is shorter than the
  -- buffer; one that fills the buffer, or a failed receive, makes the server write outside of it.
  pub udp_turn_cases :
      (r : Read)
      → ((bs : List ℕ) × (r ≡ received bs)
          × (length bs < udp_buf)
          × (udp_turn r ≡ sent (map toupper bs ++ (newline ∷ []))))
        ⊎ ((bs : List ℕ) × (r ≡ received bs) × (udp_buf ≤ length bs) × (udp_turn r ≡ overflow))
        ⊎ ((e : ℕ) × (r ≡ read_error e) × (udp_turn r ≡ overflow))
  unfolding udp_turn
  udp_turn_cases (received bs) = elim (dec_lt (length bs) udp_buf) [
    | yes short ↦ inl (bs, refl, short, (with_newline_lem bs udp_buf).0 short)
    | no long ↦ inr (inl (bs, refl, omega arith, (with_newline_lem bs udp_buf).1 (omega arith)))
  ]
  udp_turn_cases (read_error e) = inr (inr (e, refl, refl))
