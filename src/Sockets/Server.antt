-- ===== src/Sockets/Server.antt =====
-- 012_network_IO/05unix_socket_domain/src/server.c: `main` of the server, over `serv_listen`,
-- `serv_accept` and the loop.
use linux_c_program_exercris.Prelude.{
  ℤ, ℕ, zero, suc, ◌≡◌, ◌⊎◌, inl, inr, true, false, Option, none, some, List, [], ◌∷◌, map,
  if◌then◌else◌, Bool-cases, Option-cases, pos, negsuc, sign_cases, ◌==◌,
}
use linux_c_program_exercris.Echo.{Read, Effect}
use linux_c_program_exercris.Sockets.Unix.{
  Answers, Peer, serv_listen, serv_accept, Said, report_listen,
}
use linux_c_program_exercris.Sockets.Stream.{
  serve_connection, bytes_to, bytes_in, closes_of, has_end, stream_echoed,
}

-- What `main` prints for a code of `serv_accept`.
pub data Refusal : Type 0 where
  not_a_socket bad_filename accept_failed unnamed : Refusal

unfoldable pub report_accept : ℤ → Refusal
report_accept (negsuc zero) = accept_failed
report_accept (negsuc (suc zero)) = bad_filename
report_accept (negsuc (suc (suc zero))) = not_a_socket
report_accept _ = unnamed

-- The first two exit with -1.
pub data Main : Type 0 where
  no_listener : Option Said → Main
  no_client : Refusal → Main
  served : List Effect → Main

module _ (toupper : ℕ → ℕ) where
  unfoldable pub after_listen : ℤ → Option Said → ℤ → List Read → Main
  unfolding serve_connection report_accept
  after_listen (negsuc k) said c rs = no_listener said
  after_listen (pos lfd) said (negsuc k) rs = no_client (report_accept (negsuc k))
  after_listen (pos lfd) said (pos cfd) rs = served (serve_connection toupper cfd lfd rs)

  -- The answers to `serv_listen`, those to `serv_accept`, the peer, and the answers of `read`.
  unfoldable pub server_main : Answers → Answers → Peer → List Read → Main
  unfolding serv_listen serv_accept report_listen after_listen
  server_main a b p rs =
      after_listen (serv_listen a).value (report_listen (serv_listen a).value)
        (serv_accept b p true).value rs

  -- The server as a whole, when socket, bind and listen succeed. It serves a peer that is bound to
  -- a socket: all that comes in goes back on its connection in upper
  -- case, nothing goes anywhere else, and both descriptors are closed exactly
  -- when the peer has closed its side. Any other peer, and a failed accept, is named for what it
  -- is, and the server exits.
  pub server_main_serves :
      (a b : Answers) (p : Peer) (rs : List Read) (lfd : ℕ)
      → a.socket ≡ pos lfd
      → a.bind ≡ none
      → a.listen ≡ none
      → ((k : ℕ) × (b.socket ≡ negsuc k) × (server_main a b p rs ≡ no_client accept_failed))
        ⊎ ((cfd : ℕ) × (e : ℕ) × (b.socket ≡ pos cfd)
            × (p.stat ≡ some e)
            × (server_main a b p rs ≡ no_client bad_filename))
        ⊎ ((cfd : ℕ) × (b.socket ≡ pos cfd)
            × (p.stat ≡ none)
            × (p.is_socket ≡ false)
            × (server_main a b p rs ≡ no_client not_a_socket))
        ⊎ ((cfd : ℕ) × (es : List Effect) × (b.socket ≡ pos cfd)
            × (p.is_socket ≡ true)
            × (server_main a b p rs ≡ served es)
            × ((d : ℕ) → bytes_to d es ≡ (if cfd == d then map toupper (bytes_in rs) else []))
            × (closes_of es ≡ (if has_end rs then cfd ∷ lfd ∷ [] else [])))
  unfolding server_main
  server_main_serves a b p rs lfd s c l = elim (sign_cases b.socket) [
    | inl (k, f) ↦ inl (k, f, simp (s, c, l, f))
    | inr (cfd, f) ↦ elim (Option-cases p.stat) [
      | inr (e, g) ↦ inr (inl (cfd, e, f, g, simp (s, c, l, f, g)))
      | inl g ↦ elim (Bool-cases p.is_socket) [
        | inr h ↦ inr (inr (inl (cfd, f, g, h, simp (s, c, l, f, g, h))))
        | inl h ↦
            let (out, shut) = stream_echoed toupper cfd lfd rs in
            inr (
              inr (
                inr (
                  cfd,
                  serve_connection toupper cfd lfd rs,
                  f,
                  h,
                  simp (s, c, l, f, g, h),
                  out,
                  shut,
                )))
      ]
    ]
  ]
