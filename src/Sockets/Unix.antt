-- ===== src/Sockets/Unix.antt =====
-- 012_network_IO/05unix_socket_domain: `serv_listen` and `serv_accept` of src/server.c, and
-- `cli_conn` of src/client.c. The answers of the system calls are a record; a call that fails
-- sets `errno`, and so may the `close` of the error path.
use linux_c_program_exercris.Prelude.{
  ℕ, zero, suc, ◌≡◌, refl, ◌⊎◌, inl, inr, Bool, true, false, Option, none, some, List, [], ◌∷◌,
  ◌++◌, if◌then◌else◌, Bool-cases, ℤ, pos, negsuc, Option-cases, sign_cases,
}

pub data SysCall : Type 0 where
  unlinks : SysCall
  closes : ℕ → SysCall
  stores_uid : ℕ → SysCall

-- The value returned, the calls with an effect in order, and `errno` at the end.
pub record Returned : Type 0 where
  pub value : ℤ
  pub calls : List SysCall
  pub errno : ℕ

-- `none` is success, `some e` the -1 of a call that sets `errno` to `e`.
pub record Answers : Type 0 where
  pub errno_before : ℕ
  pub socket : ℤ
  pub socket_errno : ℕ
  pub bind : Option ℕ
  pub listen : Option ℕ
  pub connect : Option ℕ
  pub close : Option ℕ

-- `err = errno; close(fd); errno = err; return(rval);`
unfoldable pub errout : ℕ → ℤ → List SysCall → ℕ → Answers → Returned
errout fd rval calls errno a = record {
  value = rval;
  calls = calls ++ (closes fd ∷ []);
  errno = restored errno (elim a.close [ none ↦ errno | some e ↦ e ]);
}
  where
    restored : ℕ → ℕ → ℕ
    restored err errno = err

unfoldable pub after_bind : ℕ → Answers → Option ℕ → Returned
unfolding errout
after_bind fd a none = record { value = pos fd; calls = unlinks ∷ []; errno = a.errno_before }
after_bind fd a (some e) = errout fd (negsuc 2) (unlinks ∷ []) e a

unfoldable pub after_socket : ℤ → Answers → Option ℕ → Returned
unfolding errout after_bind
after_socket (negsuc _) a b = record { value = negsuc 0; calls = []; errno = a.socket_errno }
after_socket (pos fd) a none = after_bind fd a a.listen
after_socket (pos fd) a (some e) = errout fd (negsuc 1) (unlinks ∷ []) e a

unfoldable pub serv_listen : Answers → Returned
unfolding after_socket
serv_listen a = after_socket a.socket a a.bind

-- `cli_conn`: -2 for bind, -4 for connect.
unfoldable pub after_cli_bind : ℕ → Answers → Option ℕ → Returned
unfolding errout
after_cli_bind fd a none = record { value = pos fd; calls = unlinks ∷ []; errno = a.errno_before }
after_cli_bind fd a (some e) = errout fd (negsuc 3) (unlinks ∷ []) e a

unfoldable pub after_cli_socket : ℤ → Answers → Option ℕ → Returned
unfolding errout after_cli_bind
after_cli_socket (negsuc _) a b = record { value = negsuc 0; calls = []; errno = a.socket_errno }
after_cli_socket (pos fd) a none = after_cli_bind fd a a.connect
after_cli_socket (pos fd) a (some e) = errout fd (negsuc 1) (unlinks ∷ []) e a

unfoldable pub cli_conn : Answers → Returned
unfolding after_cli_socket
cli_conn a = after_cli_socket a.socket a a.bind

-- What `serv_accept` asks: the connection in `socket`, then the file behind its path.
pub record Peer : Type 0 where
  pub stat : Option ℕ
  pub is_socket : Bool
  pub uid : ℕ

unfoldable pub after_stat : ℕ → Answers → Peer → Option ℕ → Bool → Returned
unfolding errout
after_stat fd a p (some e) wants = errout fd (negsuc 1) [] e a
after_stat fd a p none wants =
    if p.is_socket
    then record {
      value = pos fd;
      calls = (if wants then stores_uid p.uid ∷ [] else []) ++ (unlinks ∷ []);
      errno = a.errno_before;
    }
    else errout fd (negsuc 2) [] a.errno_before a

unfoldable pub after_accept : ℤ → Answers → Peer → Bool → Returned
unfolding after_stat
after_accept (negsuc _) a p wants = record { value = negsuc 0; calls = []; errno = a.socket_errno }
after_accept (pos fd) a p wants = after_stat fd a p p.stat wants

-- `wants` tells whether `uidptr` is not NULL.
unfoldable pub serv_accept : Answers → Peer → Bool → Returned
unfolding after_accept
serv_accept a p wants = after_accept a.socket a p wants

-- What `main` of the server prints for a code of `serv_listen` before it exits with -1.
pub data Said : Type 0 where
  listen_failed bind_failed socket_failed nothing : Said

unfoldable pub report_listen : ℤ → Option Said
report_listen (pos fd) = none
report_listen (negsuc zero) = some socket_failed
report_listen (negsuc (suc zero)) = some bind_failed
report_listen (negsuc (suc (suc zero))) = some listen_failed
report_listen (negsuc (suc (suc (suc n)))) = some nothing

abbrev pub closes_of : List SysCall → List ℕ
closes_of [] = []
closes_of (closes fd ∷ cs) = fd ∷ closes_of cs
closes_of (unlinks ∷ cs) = closes_of cs
closes_of (stores_uid u ∷ cs) = closes_of cs

-- A call failed with `e`: the code, the one descriptor that was closed, and `errno`.
abbrev pub Fails : Returned → ℤ → List ℕ → ℕ → Type 0
Fails r code shut e = (r.value ≡ code) × (closes_of r.calls ≡ shut) × (r.errno ≡ e)

-- `serv_listen` leaks no descriptor: without a socket it returns -1; where bind or listen fails,
-- the socket is closed once, the code tells `main` which call it was, and `errno` is that call's
-- whatever `close` does to it; only if socket, bind and listen all succeed is the socket returned,
-- and it is open.
pub serv_listen_cases :
    (a : Answers)
    → ((k : ℕ) × (a.socket ≡ negsuc k)
        × Fails (serv_listen a) (negsuc 0) [] a.socket_errno
        × (report_listen (serv_listen a).value ≡ some socket_failed))
      ⊎ ((fd : ℕ) × (e : ℕ) × (a.socket ≡ pos fd)
          × (a.bind ≡ some e)
          × Fails (serv_listen a) (negsuc 1) (fd ∷ []) e
          × (report_listen (serv_listen a).value ≡ some bind_failed))
      ⊎ ((fd : ℕ) × (e : ℕ) × (a.socket ≡ pos fd)
          × (a.bind ≡ none)
          × (a.listen ≡ some e)
          × Fails (serv_listen a) (negsuc 2) (fd ∷ []) e
          × (report_listen (serv_listen a).value ≡ some listen_failed))
      ⊎ ((fd : ℕ) × (a.socket ≡ pos fd)
          × (a.bind ≡ none)
          × (a.listen ≡ none)
          × ((serv_listen a).value ≡ pos fd)
          × (closes_of (serv_listen a).calls ≡ [])
          × (report_listen (serv_listen a).value ≡ none))
unfolding serv_listen report_listen
serv_listen_cases a = elim (sign_cases a.socket) [
  | inl (k, s) ↦ inl (k, s, simp s (refl, refl, refl), simp s)
  | inr (fd, s) ↦ elim (Option-cases a.bind) [
    | inr (e, b) ↦ inr (inl (fd, e, s, b, simp (s, b) (refl, refl, refl), simp (s, b)))
    | inl b ↦ elim (Option-cases a.listen) [
      | inr (e, l) ↦
          inr (inr (inl (fd, e, s, b, l, simp (s, b, l) (refl, refl, refl), simp (s, b, l))))
      | inl l ↦ inr (inr (inr (fd, s, b, l, simp (s, b, l), simp (s, b, l), simp (s, b, l))))
    ]
  ]
]

-- `cli_conn` leaks no descriptor either: -1 without a socket, -2 or -4 with the socket closed once
-- and the `errno` of the bind or connect that failed, else the connected socket, open.
pub cli_conn_cases :
    (a : Answers)
    → ((k : ℕ) × (a.socket ≡ negsuc k) × Fails (cli_conn a) (negsuc 0) [] a.socket_errno)
      ⊎ ((fd : ℕ) × (e : ℕ) × (a.socket ≡ pos fd)
          × (a.bind ≡ some e)
          × Fails (cli_conn a) (negsuc 1) (fd ∷ []) e)
      ⊎ ((fd : ℕ) × (e : ℕ) × (a.socket ≡ pos fd)
          × (a.bind ≡ none)
          × (a.connect ≡ some e)
          × Fails (cli_conn a) (negsuc 3) (fd ∷ []) e)
      ⊎ ((fd : ℕ) × (a.socket ≡ pos fd)
          × (a.bind ≡ none)
          × (a.connect ≡ none)
          × ((cli_conn a).value ≡ pos fd)
          × (closes_of (cli_conn a).calls ≡ []))
unfolding cli_conn
cli_conn_cases a = elim (sign_cases a.socket) [
  | inl (k, s) ↦ inl (k, s, simp s (refl, refl, refl))
  | inr (fd, s) ↦ elim (Option-cases a.bind) [
    | inr (e, b) ↦ inr (inl (fd, e, s, b, simp (s, b) (refl, refl, refl)))
    | inl b ↦ elim (Option-cases a.connect) [
      | inr (e, l) ↦ inr (inr (inl (fd, e, s, b, l, simp (s, b, l) (refl, refl, refl))))
      | inl l ↦ inr (inr (inr (fd, s, b, l, simp (s, b, l), simp (s, b, l))))
    ]
  ]
]

-- `serv_accept` hands out a connection only if its peer is bound to a socket, then with the path
-- removed and the uid stored where it is wanted; a peer with no file, or no socket, at its path is
-- closed, with its own code, and `errno` kept.
pub serv_accept_cases :
    (a : Answers) (p : Peer) (wants : Bool)
    → ((k : ℕ) × (a.socket ≡ negsuc k) × Fails (serv_accept a p wants) (negsuc 0) [] a.socket_errno)
      ⊎ ((fd : ℕ) × (e : ℕ) × (a.socket ≡ pos fd)
          × (p.stat ≡ some e)
          × Fails (serv_accept a p wants) (negsuc 1) (fd ∷ []) e)
      ⊎ ((fd : ℕ) × (a.socket ≡ pos fd)
          × (p.stat ≡ none)
          × (p.is_socket ≡ false)
          × Fails (serv_accept a p wants) (negsuc 2) (fd ∷ []) a.errno_before)
      ⊎ ((fd : ℕ) × (a.socket ≡ pos fd)
          × (p.stat ≡ none)
          × (p.is_socket ≡ true)
          × ((serv_accept a p wants).value ≡ pos fd)
          × ((serv_accept a p wants).calls
              ≡ (if wants then stores_uid p.uid ∷ [] else []) ++ (unlinks ∷ [])))
unfolding serv_accept
serv_accept_cases a p wants = elim (sign_cases a.socket) [
  | inl (k, s) ↦ inl (k, s, simp s (refl, refl, refl))
  | inr (fd, s) ↦ elim (Option-cases p.stat) [
    | inr (e, b) ↦ inr (inl (fd, e, s, b, simp (s, b) (refl, refl, refl)))
    | inl b ↦ elim (Bool-cases p.is_socket) [
      | inr l ↦ inr (inr (inl (fd, s, b, l, simp (s, b, l) (refl, refl, refl))))
      | inl l ↦ inr (inr (inr (fd, s, b, l, simp (s, b, l), simp (s, b, l))))
    ]
  ]
]
