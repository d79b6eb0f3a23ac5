-- ===== src/Sockets/Clients.antt =====
-- 011network: the clients, 01TCP/src/01client.c, 02UDP/src/01client.c and 03TCP_FORK/src/01client.c,
-- and each with its server. A text is its bytes before the zero.
use linux_c_program_exercris.Prelude.{
  ℕ, ◌≤◌, ◌<◌, ◌≡◌, refl, ap, ◌≢◌, inl, inr, true, false, List, [], ◌∷◌, ◌++◌, map, arith, ltb,
  ◌==◌, if◌then◌else◌, ℤ, pos, negsuc, length,
}
use linux_c_program_exercris.Echo.{
  Read, received, read_error, Effect, wrote, write_failed, closed, echo-map,
}
use linux_c_program_exercris.Sockets.Client.{text_of}
use linux_c_program_exercris.Sockets.Inet.{
  tcp_turn, tcp_buf, udp_turn, udp_turn_cases, Datagram, sent, overflow, newline, udp_buf,
}
use linux_c_program_exercris.Sockets.Stream.{child_loop, fork_buf}

-- What a client does on the connection and on its standard output, 1.
abbrev pub stdout : ℕ
stdout = 1

-- `write(STDOUT_FILENO,buf,len)`, with the length that `read` answered.
unfoldable pub show_answer : Read → Effect
show_answer (received bs) = wrote stdout bs
show_answer (read_error e) = write_failed stdout

-- From the test of `argc` on: one request and its answer, and the exit status. The setup of
-- the connection is in Sockets/Address.
unfoldable pub tcp_client : ℕ → ℕ → List ℕ → Read → List Effect × ℤ
unfolding show_answer
tcp_client connfd argc text answer =
    if ltb argc 2
    then ([], negsuc 0)
    else (wrote connfd text ∷ show_answer answer ∷ closed connfd ∷ [], pos 0)

unfoldable pub udp_client : ℕ → ℕ → List ℕ → Read → List Effect × ℤ
unfolding show_answer
udp_client connfd argc text answer =
    if ltb argc 2
    then ([], negsuc 0)
    else (wrote connfd text ∷ show_answer answer ∷ closed connfd ∷ [], pos 0)

-- The loop of 03TCP_FORK: a line that `fgets` read goes out up to its zero, an answer comes back.
unfoldable pub fork_client : ℕ → List (List ℕ) → List Read → List Effect
unfolding show_answer text_of
fork_client connfd [] answers = closed connfd ∷ []
fork_client connfd (l ∷ ls) [] = wrote connfd (text_of l) ∷ []
fork_client connfd (l ∷ ls) (r ∷ rs) =
    wrote connfd (text_of l) ∷ show_answer r ∷ fork_client connfd ls rs

-- What one end reads, if it takes what the other wrote on the connection, a write at a time.
abbrev pub arriving : ℕ → List Effect → List Read
arriving fd [] = []
arriving fd (wrote f bs ∷ es) = if f == fd then received bs ∷ arriving fd es else arriving fd es
arriving fd (write_failed f ∷ es) = arriving fd es
arriving fd (closed f ∷ es) = if f == fd then received [] ∷ [] else arriving fd es

abbrev pub shown : List Effect → List (List ℕ)
shown [] = []
shown (wrote f bs ∷ es) = if f == stdout then bs ∷ shown es else shown es
shown (write_failed f ∷ es) = shown es
shown (closed f ∷ es) = shown es

abbrev pub answer_of : Datagram → Read
answer_of (sent bs) = received bs
answer_of overflow = read_error 0

module _ (toupper : ℕ → ℕ) where
  tcp_turn-received :
      (confd : ℕ) (text : List ℕ)
      → tcp_turn toupper confd (received text) ≡ wrote confd (map toupper text) ∷ closed confd ∷ []
  unfolding tcp_turn
  tcp_turn-received confd text =
      ap (λ l. wrote confd l ∷ closed confd ∷ []) (echo-map toupper tcp_buf text)

  udp_turn-received :
      (text : List ℕ)
      → length text < udp_buf
      → udp_turn toupper (received text) ≡ sent (map toupper text ++ (newline ∷ []))
  udp_turn-received text h = elim (udp_turn_cases toupper (received text)) [
    | inl (bs, e, short, out) ↦ let same : bs ≡ text = cc in rw same at out
    | inr (inl (bs, e, long, out)) ↦
        let same : bs ≡ text = cc in absurd (omega (arith, ap length same))
    | inr (inr (n, e, out)) ↦ cc
  ]

  -- The clients that send one text and their servers, for a text shorter than the UDP server's
  -- buffer: if the server reads the text in one piece, and the client what the server writes, the
  -- client shows it in upper case, over UDP with a line end behind it; and over TCP the server
  -- sends the text and the end of the stream.
  pub exchanges :
      (connfd confd argc : ℕ) (text : List ℕ)
      → 2 ≤ argc
      → connfd ≢ stdout
      → length text < udp_buf
      → (arriving confd (tcp_turn toupper confd (received text))
          ≡ received (map toupper text) ∷ received [] ∷ [])
        × (shown (tcp_client connfd argc text (received (map toupper text))).0
            ≡ map toupper text ∷ [])
        × (shown (udp_client connfd argc text (answer_of (udp_turn toupper (received text)))).0
            ≡ (map toupper text ++ (newline ∷ [])) ∷ [])
  unfolding tcp_client udp_client
  exchanges connfd confd argc text h ne short =
      let few : ltb argc 2 ≡ false = ground arith in
      let apart : (connfd == stdout) ≡ false = ground arith in
      let same : (confd == confd) ≡ true = ground arith in
      (
        rw (tcp_turn-received confd text) (simp same),
        simp (few, apart),
        simp (udp_turn-received text short, few, apart),
      )

  -- What the child reads when the client sends lines, and what comes back.
  abbrev pub requests : List (List ℕ) → List Read
  requests ls = map (λ l. received (text_of l)) ls

  abbrev pub answers : ℕ → List (List ℕ) → List Read
  answers confd ls = arriving confd (child_loop toupper confd (requests ls))

  -- The loops of the forking server's child and of its client, reading what the other writes, a
  -- write at a time: the client sends each line up to its zero, and shows each in upper case, in
  -- order; the end of its input is the end of the child's.
  pub fork_exchange :
      (connfd confd : ℕ) (ls : List (List ℕ))
      → connfd ≢ stdout
      → (shown (fork_client connfd ls (answers confd ls)) ≡ map (λ l. map toupper (text_of l)) ls)
        × (arriving connfd (fork_client connfd ls (answers confd ls))
            ≡ requests ls ++ (received [] ∷ []))
  unfolding fork_client child_loop
  fork_exchange connfd confd [] ne =
      let same : (connfd == connfd) ≡ true = ground arith in (refl, simp same)
  fork_exchange connfd confd (l ∷ ls) ne =
      let (shows, sends) = fork_exchange connfd confd ls ne in
      let apart : (connfd == stdout) ≡ false = ground arith in
      let own : (connfd == connfd) ≡ true = ground arith in
      let same : (confd == confd) ≡ true = ground arith in
      let here : (stdout == connfd) ≡ false = ground arith in
      (
        simp (same, apart, echo-map toupper fork_buf (text_of l), shows),
        simp (same, own, here, sends),
      )
