-- ===== src/Select/Client.antt =====
-- 012_network_IO/01select/client.c, from `bzero` on (02poll and 03epoll have the same file), and
-- the client with the server.
use linux_c_program_exercris.Prelude.{
  ℕ, ◌≡◌, refl, ap, ◌∙◌, ◌≢◌, Bool, true, false, Option, none, some, List, [], ◌∷◌, ◌++◌, map,
  append_assoc, arith, ◌==◌, ℤ, pos,
}
use linux_c_program_exercris.Echo.{
  Read, received, read_error, Effect, wrote, closed, echo-map, maxline,
}
use linux_c_program_exercris.Sockets.Client.{text_of, over, text_of-append}
use linux_c_program_exercris.Sockets.Clients.{show_answer, stdout, arriving, shown}
use linux_c_program_exercris.Select.Defs.{Round, serve_fd}

-- The calls, and the value that `main` returns; `none` while it waits for an answer.
unfoldable pub line_client : ℕ → List ℕ → List (List ℕ) → List Read → List Effect × Option ℤ
unfolding show_answer text_of over
line_client sockfd buf [] answers = (closed sockfd ∷ [], some (pos 0))
line_client sockfd buf (l ∷ ls) [] = (wrote sockfd (text_of (over (l ++ (0 ∷ [])) buf)) ∷ [], none)
line_client sockfd buf (l ∷ ls) (received [] ∷ rs) =
    (wrote sockfd (text_of (over (l ++ (0 ∷ [])) buf)) ∷ closed sockfd ∷ [], some (pos 1))
line_client sockfd buf (l ∷ ls) (received (b ∷ bs) ∷ rs) =
    let line = over (l ++ (0 ∷ [])) buf in
    let (calls, status) = line_client sockfd (over (b ∷ bs) line) ls rs in
    (wrote sockfd (text_of line) ∷ show_answer (received (b ∷ bs)) ∷ calls, status)
line_client sockfd buf (l ∷ ls) (read_error e ∷ rs) =
    let line = over (l ++ (0 ∷ [])) buf in
    let (calls, status) = line_client sockfd line ls rs in
    (wrote sockfd (text_of line) ∷ show_answer (read_error e) ∷ calls, status)

-- No line starts with its end, so that each has bytes to send.
abbrev pub NoneEmpty : List (List ℕ) → Type 0
NoneEmpty [] = Unit
NoneEmpty (l ∷ ls) = (text_of l ≢ []) × NoneEmpty ls

abbrev pub sends : List (List ℕ) → List Read
sends ls = map (λ l. received (text_of l)) ls

line_text : (l buf : List ℕ) → text_of (over (l ++ (0 ∷ [])) buf) ≡ text_of l
unfolding over
line_text l buf = ap text_of (append_assoc l (0 ∷ []) _) ∙ text_of-append l _

module _ (toupper : ℕ → ℕ) (r : Round) where
  -- The calls of the server for one client, with the watched set after each.
  abbrev pub replies : ℕ → (ℕ → Bool) → List Read → List Effect
  replies fd watched [] = []
  replies fd watched (a ∷ rs) =
      let (slot, watched', calls) = serve_fd toupper r fd watched a in
      calls ++ replies fd watched' rs

  -- One line of the server: it writes the text back in upper case and goes on watching.
  replied :
      (fd : ℕ) (watched : ℕ → Bool) (bs : List ℕ)
      → bs ≢ []
      → ((serve_fd toupper r fd watched (received bs)).1 ≡ watched)
        × ((serve_fd toupper r fd watched (received bs)).2 ≡ wrote fd (map toupper bs) ∷ [])
  unfolding serve_fd
  replied fd watched [] ne = absurd (ne refl)
  replied fd watched (b ∷ bs) ne =
      (refl, ap (λ l. wrote fd l ∷ []) (echo-map toupper maxline (b ∷ bs)))

  -- One line of the client, when the answer has bytes.
  asked :
      (sockfd : ℕ) (buf l bs : List ℕ) (ls : List (List ℕ)) (rs : List Read)
      → bs ≢ []
      → (buf' : List ℕ) × (line_client sockfd buf (l ∷ ls) (received bs ∷ rs) ≡ (
        wrote sockfd (text_of l) ∷ wrote stdout bs ∷ (line_client sockfd buf' ls rs).0,
        (line_client sockfd buf' ls rs).1,
      ))
  unfolding line_client
  asked sockfd buf l [] ls rs ne = absurd (ne refl)
  asked sockfd buf l (b ∷ bs) ls rs ne =
      (over (b ∷ bs) (over (l ++ (0 ∷ [])) buf), rw (line_text l buf) refl)

  upper-ne : (bs : List ℕ) → bs ≢ [] → map toupper bs ≢ []
  upper-ne [] ne = absurd (ne refl)
  upper-ne (b ∷ bs) ne = λ e. cc

  -- The client and the server's part for it, reading what the other writes, a write at a time, with
  -- lines that are not empty: the server answers each, the client shows each up to its zero in
  -- upper case, in order, whatever its buffer held before, and returns 0 at the end of its input,
  -- which is also the end of what the server reads.
  pub select_exchange :
      (sockfd fd : ℕ) (watched : ℕ → Bool) (buf : List ℕ) (ls : List (List ℕ))
      → sockfd ≢ stdout
      → NoneEmpty ls
      → (shown (line_client sockfd buf ls (arriving fd (replies fd watched (sends ls)))).0
          ≡ map (λ l. map toupper (text_of l)) ls)
        × (arriving sockfd
              (line_client sockfd buf ls (arriving fd (replies fd watched (sends ls)))).0
            ≡ sends ls ++ (received [] ∷ []))
        × ((line_client sockfd buf ls (arriving fd (replies fd watched (sends ls)))).1
            ≡ some (pos 0))
  select_exchange sockfd fd watched buf [] ne h =
      let own : (sockfd == sockfd) ≡ true = ground arith in
      unfold line_client in (refl, simp own, refl)
  select_exchange sockfd fd watched buf (l ∷ ls) ne (hl, h) =
      let (same, wrote_back) = replied fd watched (text_of l) hl in
      let (buf', e) =
        asked sockfd buf l (map toupper (text_of l)) ls
          (arriving fd (replies fd watched (sends ls))) (upper-ne (text_of l) hl) in
      let (shows, arrives, status) = select_exchange sockfd fd watched buf' ls ne h in
      let own : (sockfd == sockfd) ≡ true = ground arith in
      let same_fd : (fd == fd) ≡ true = ground arith in
      let apart : (sockfd == stdout) ≡ false = ground arith in
      let here : (stdout == sockfd) ≡ false = ground arith in
      simp (wrote_back, same, same_fd, e, apart, here, own, shows, arrives, status)
        (refl, refl, refl)
