-- ===== src/Sockets/Stream.antt =====
-- 012_network_IO/05unix_socket_domain/src/server.c: the loop of `main` over one connection, and
-- the child's loop of 011network/03TCP_FORK/src/01server.c. The answers of `read` come as a list:
-- a loop that uses them up waits for the next.
use mathlib.Core.List.{map-append}
use linux_c_program_exercris.Prelude.{
  ℕ, Bool, true, false, List, [], ◌∷◌, ◌++◌, ◌==◌, if◌then◌else◌, suc, ◌≡◌, refl, sym, ap, ap₂, ◌∙◌,
  inl, inr, map, Bool-cases, length, arith,
}
use linux_c_program_exercris.Echo.{
  Read, received, read_error, Effect, wrote, write_failed, closed, echo, echo-map,
}

abbrev pub eintr : ℕ
eintr = 4

abbrev pub unix_buf : ℕ
unix_buf = 1024

abbrev pub fork_buf : ℕ
fork_buf = 8192

module _ (toupper : ℕ → ℕ) where
  -- The calls, and whether the loop was left.
  unfoldable pub serve_unix : ℕ → List Read → List Effect × Bool
  serve_unix cfd [] = ([], false)
  serve_unix cfd (received [] ∷ rs) = ([], true)
  serve_unix cfd (received (b ∷ bs) ∷ rs) =
      let (calls, ended) = serve_unix cfd rs in
      (wrote cfd (echo toupper unix_buf (b ∷ bs)) ∷ calls, ended)
  serve_unix cfd (read_error e ∷ rs) =
      let (calls, ended) = serve_unix cfd rs in
      (if e == eintr then calls else write_failed cfd ∷ calls, ended)

  -- `main`, from the connection on: the loop, and the two closes behind it.
  unfoldable pub serve_connection : ℕ → ℕ → List Read → List Effect
  unfolding serve_unix
  serve_connection cfd lfd rs =
      let (calls, ended) = serve_unix cfd rs in
      if ended then calls ++ (closed cfd ∷ closed lfd ∷ []) else calls

  -- The child of the forking server: no test ends the loop.
  unfoldable pub child_loop : ℕ → List Read → List Effect
  child_loop confd [] = []
  child_loop confd (received bs ∷ rs) = wrote confd (echo toupper fork_buf bs) ∷ child_loop confd rs
  child_loop confd (read_error e ∷ rs) = write_failed confd ∷ child_loop confd rs

-- The bytes that come before the end of the stream, and the bytes that go out.
abbrev pub bytes_in : List Read → List ℕ
bytes_in [] = []
bytes_in (received [] ∷ rs) = []
bytes_in (received (b ∷ bs) ∷ rs) = (b ∷ bs) ++ bytes_in rs
bytes_in (read_error e ∷ rs) = bytes_in rs

abbrev pub bytes_out : List Effect → List ℕ
bytes_out [] = []
bytes_out (wrote fd bs ∷ es) = bs ++ bytes_out es
bytes_out (write_failed fd ∷ es) = bytes_out es
bytes_out (closed fd ∷ es) = bytes_out es

-- The bytes that go out on one descriptor.
abbrev pub bytes_to : ℕ → List Effect → List ℕ
bytes_to d [] = []
bytes_to d (wrote fd bs ∷ es) = if fd == d then bs ++ bytes_to d es else bytes_to d es
bytes_to d (write_failed fd ∷ es) = bytes_to d es
bytes_to d (closed fd ∷ es) = bytes_to d es

abbrev pub closes_of : List Effect → List ℕ
closes_of [] = []
closes_of (wrote fd bs ∷ es) = closes_of es
closes_of (write_failed fd ∷ es) = closes_of es
closes_of (closed fd ∷ es) = fd ∷ closes_of es

-- The stream has ended.
abbrev pub has_end : List Read → Bool
has_end [] = false
has_end (received [] ∷ rs) = true
has_end (received (b ∷ bs) ∷ rs) = has_end rs
has_end (read_error e ∷ rs) = has_end rs

append_closes :
    (es : List Effect) (a b : ℕ)
    → ((d : ℕ) → bytes_to d (es ++ (closed a ∷ closed b ∷ [])) ≡ bytes_to d es)
      × (closes_of (es ++ (closed a ∷ closed b ∷ [])) ≡ closes_of es ++ (a ∷ b ∷ []))
append_closes [] a b = ((λ d. refl), refl)
append_closes (wrote fd bs ∷ es) a b =
    let (o, c) = append_closes es a b in ((λ d. ap (λ l. if fd == d then bs ++ l else l) (o d)), c)
append_closes (write_failed fd ∷ es) a b = append_closes es a b
append_closes (closed fd ∷ es) a b = let (o, c) = append_closes es a b in (o, ap (◌∷◌ fd) c)

module _ (toupper : ℕ → ℕ) where
  serve_unix_lem :
      (cfd : ℕ) (rs : List Read)
      → ((d : ℕ)
          → bytes_to d (serve_unix toupper cfd rs).0
            ≡ (if cfd == d then map toupper (bytes_in rs) else []))
        × ((serve_unix toupper cfd rs).1 ≡ has_end rs)
        × (closes_of (serve_unix toupper cfd rs).0 ≡ [])
  unfolding serve_unix
  serve_unix_lem cfd [] = ((λ d. ground arith), refl, refl)
  serve_unix_lem cfd (received [] ∷ rs) = ((λ d. ground arith), refl, refl)
  serve_unix_lem cfd (received (b ∷ bs) ∷ rs) =
      let (out, ended, quiet) = serve_unix_lem cfd rs in ((λ d. joined d (out d)), ended, quiet)
    where
      calls : List Effect
      calls = (serve_unix toupper cfd rs).0

      joined :
          (d : ℕ)
          → bytes_to d calls ≡ (if cfd == d then map toupper (bytes_in rs) else [])
          → (if cfd == d
              then echo toupper unix_buf (b ∷ bs) ++ bytes_to d calls
              else bytes_to d calls)
            ≡ (if cfd == d then map toupper ((b ∷ bs) ++ bytes_in rs) else [])
      joined d o = elim (Bool-cases (cfd == d)) [
        | inl own ↦
            let rest : bytes_to d calls ≡ map toupper (bytes_in rs) = rw o (simp own refl) in
            simp own (
              ap₂ ◌++◌ (echo-map toupper unix_buf (b ∷ bs)) rest
              ∙ sym (map-append toupper (b ∷ bs) (bytes_in rs)))
        | inr other ↦ let rest : bytes_to d calls ≡ [] = rw o (simp other refl) in simp other rest
      ]
  serve_unix_lem cfd (read_error e ∷ rs) =
      let (out, ended, quiet) = serve_unix_lem cfd rs in
      elim (Bool-cases (e == eintr)) [
        | inl again ↦ simp again (out, ended, quiet)
        | inr other ↦ simp other (out, ended, quiet)
      ]

  -- However the stream is cut into reads, and whatever signals interrupt them, what the server
  -- sends back on the connection is what came in, in upper case, and it writes nowhere else; it closes the connection and then the listening
  -- socket, each once, exactly when the peer has closed its side.
  pub stream_echoed :
      (cfd lfd : ℕ) (rs : List Read)
      → ((d : ℕ)
          → bytes_to d (serve_connection toupper cfd lfd rs)
            ≡ (if cfd == d then map toupper (bytes_in rs) else []))
        × (closes_of (serve_connection toupper cfd lfd rs)
            ≡ (if has_end rs then cfd ∷ lfd ∷ [] else []))
  unfolding serve_connection
  stream_echoed cfd lfd rs =
      let (out, ended, quiet) = serve_unix_lem cfd rs in
      let (more, shut) = append_closes (serve_unix toupper cfd rs).0 cfd lfd in
      elim (Bool-cases (has_end rs)) [
        | inl over ↦
            simp (ended, over) ((λ d. more d ∙ out d), shut ∙ ap (λ l. l ++ (cfd ∷ lfd ∷ [])) quiet)
        | inr open_still ↦ simp (ended, open_still) (out, quiet)
      ]

  -- The child of the forking server writes once for each read, also after the end of the stream,
  -- and closes nothing: `close(confd)` behind the loop is not reached.
  pub child_never_closes :
      (confd : ℕ) (rs : List Read)
      → (closes_of (child_loop toupper confd rs) ≡ [])
        × (length (child_loop toupper confd rs) ≡ length rs)
  unfolding child_loop
  child_never_closes confd [] = (refl, refl)
  child_never_closes confd (received bs ∷ rs) =
      let (c, l) = child_never_closes confd rs in (c, ap suc l)
  child_never_closes confd (read_error e ∷ rs) =
      let (c, l) = child_never_closes confd rs in (c, ap suc l)
