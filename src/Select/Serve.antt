-- ===== src/Select/Serve.antt =====
-- 012_network_IO/01select/server.c: one whole round, from a well-formed table to the next.
use linux_c_program_exercris.Prelude.{
  ℕ, ◌+◌, ◌-◌, ◌≤◌, ◌<◌, ◌≡◌, sym, ap, ◌∙◌, inl, inr, true, false, not, ◌&&◌, ◌||◌, some, [], map,
  arith, ◌==◌, if◌then◌else◌, Bool-cases, lt→ltb, pos, length, set, drop, length-set,
}
use linux_c_program_exercris.Select.Defs.{
  Server, Round, running, round, add_client, serve_clients, scan, find_free, fd_setsize, Scanned,
}
use linux_c_program_exercris.Select.Scan.{
  none_ready, AllFree, has, slot_after, all_effects, count_ready, at_end, scan-Served, Served,
}
use linux_c_program_exercris.Select.Table.{
  Distinct, FirstFree, find_free-FirstFree, has-set, Distinct-set, AllFree-set, owed-set, has-after,
  Distinct-after, AllFree-after, length-after,
}

-- The table and the watched set agree, and `maxi` and `maxfd` bound them.
pub record IsWatched (s : Server) : Type 0 where
  pub sized : length s.client ≡ fd_setsize
  pub tail : AllFree (drop s.maxi s.client)
  pub apart : Distinct s.client
  pub own : has s.client s.listenfd ≡ false
  pub watch : (f : ℕ) → s.allset f ≡ (f == s.listenfd || has s.client f)
  pub top : (f : ℕ) → s.allset f ≡ true → f ≤ s.maxfd

-- What `select` and `accept` answer: ready descriptors are watched ones and are counted, and a
-- new connection has a descriptor that is not in use.
pub record Answers (toupper : ℕ → ℕ) (s : Server) (r : Round) (n : ℕ) : Type 0 where
  pub some_ready : r.nready ≡ pos n
  pub in_set : (f : ℕ) → r.rset f ≡ true → s.allset f ≡ true
  pub counted : count_ready toupper r s.client + (if r.rset s.listenfd then 1 else 0) ≤ n
  pub new_fd : (fd : ℕ) → r.connfd ≡ pos fd → s.allset fd ≡ false

module _ (toupper : ℕ → ℕ) (r : Round) where
  -- The state after the scan of a table that the set covers.
  serve_clients-IsWatched :
      (s : Server) (left : ℕ)
      → IsWatched s
      → count_ready toupper r s.client ≤ left
      → (t : Server) × (serve_clients toupper r s left ≡ running t (all_effects toupper r s.client))
        × IsWatched t
        × (t.client ≡ map (slot_after toupper r) s.client)
  unfolding serve_clients
  serve_clients-IsWatched s left v h = (
    record s { client = out.slots; allset = out.watched },
    ap (running (record s { client = out.slots; allset = out.watched })) d.calls,
    kept,
    d.table,
  )
    where
      out : Scanned
      out = scan toupper r s.maxi s.client s.allset left

      d : Served toupper r s.client s.allset out
      d = scan-Served toupper r s.maxi s.client s.allset left v.tail h

      table_has :
          (f : ℕ) → has out.slots f ≡ (has s.client f && not (r.rset f && at_end (r.read f)))
      table_has f = rw d.table (has-after toupper r s.client f)

      kept : IsWatched (record s { client = out.slots; allset = out.watched })
      kept = record {
        sized = rw d.table (length-after toupper r s.client ∙ v.sized);
        tail = rw d.table (AllFree-after toupper r s.maxi s.client v.tail);
        apart = rw d.table (Distinct-after toupper r s.client v.apart);
        own = ground (arith, table_has s.listenfd, v.own);
        watch = λ f. ground (arith, table_has f, d.set f, v.watch f, v.own);
        top = λ f e. ground (arith, d.set f, v.top f);
      }

  -- A connection that is stored and watched.
  pub add_client-IsWatched :
      (s : Server) (i fd : ℕ)
      → IsWatched s
      → FirstFree s.client i
      → s.allset fd ≡ false
      → IsWatched (add_client s i fd)
  unfolding add_client
  add_client-IsWatched s i fd v h new = record {
    sized = length-set s.client i (pos fd) ∙ v.sized;
    tail = AllFree-set s.client s.maxi i fd h v.tail;
    apart = Distinct-set s.client i fd h (ground (arith, v.watch fd)) v.apart;
    own = ground (arith, has-set s.client i fd s.listenfd h, v.own, v.watch fd, v.watch s.listenfd);
    watch = λ f. ground (arith, has-set s.client i fd f h, v.watch f);
    top = λ f e. ground (arith, v.top f);
  }

  quiet_round :
      (s : Server) (n : ℕ)
      → r.nready ≡ pos n
      → r.rset s.listenfd ≡ false
      → round toupper r s ≡ serve_clients toupper r s n
  unfolding round
  quiet_round s n e quiet = simp (e, quiet)

  -- A round without a new connection: every client is served by what its descriptor answers, in
  -- the order of the table, the ended ones leave it, and the table stays well formed.
  pub round_serves :
      (s : Server) (n : ℕ)
      → IsWatched s
      → Answers toupper s r n
      → r.rset s.listenfd ≡ false
      → (t : Server) × (round toupper r s ≡ running t (all_effects toupper r s.client))
        × IsWatched t
        × (t.client ≡ map (slot_after toupper r) s.client)
  round_serves s n v a quiet =
      let (t, e, w, c) = serve_clients-IsWatched s n v (ground (arith, a.counted)) in
      (t, quiet_round s n a.some_ready quiet ∙ e, w, c)

  accepts :
      (s : Server) (n fd i : ℕ)
      → r.nready ≡ pos n
      → r.rset s.listenfd ≡ true
      → r.connfd ≡ pos fd
      → fd < fd_setsize
      → find_free s.client ≡ some i
      → round toupper r s ≡ (
          if n == 1
          then running (add_client s i fd) []
          else serve_clients toupper r (add_client s i fd) (n - 1))
  unfolding round
  accepts s n fd i e new conn small slot = rw (e, new, conn, slot, lt→ltb fd fd_setsize small)

  -- A round with a new connection, while a slot is free and the set has room: the connection gets
  -- the first free slot, is watched from then on and owed nothing yet, the other clients are
  -- served as in any round, also when the connection was all that was ready.
  pub round_admits :
      (s : Server) (n fd i : ℕ)
      → IsWatched s
      → Answers toupper s r n
      → r.rset s.listenfd ≡ true
      → r.connfd ≡ pos fd
      → fd < fd_setsize
      → find_free s.client ≡ some i
      → (t : Server) × (round toupper r s ≡ running t (all_effects toupper r s.client))
        × IsWatched t
        × (t.client ≡ map (slot_after toupper r) (set s.client i (pos fd)))
  unfolding add_client
  round_admits s n fd i v a new conn small slot = elim (Bool-cases (n == 1)) [
    | inl one ↦
        let idle : count_ready toupper r s.client ≡ 0 = ground (arith, a.counted) in
        let (e, l) = owed-set toupper r s.client i fd free unready in
        let alone = none_ready toupper r (set s.client i (pos fd)) (e ∙ idle) in
        (
          t,
          begins ∙ rw one (ap (running t) (sym (none_ready toupper r s.client idle).1)),
          kept,
          sym alone.0,
        )
    | inr more ↦
        let (e, l) = owed-set toupper r s.client i fd free unready in
        let (u, p, w, c) = serve_clients-IsWatched t (n - 1) kept (ground (arith, e, a.counted)) in
        (u, begins ∙ rw more (p ∙ ap (running u) l), w, c)
  ]
    where
      t : Server
      t = add_client s i fd

      free : FirstFree s.client i
      free = find_free-FirstFree s.client i slot

      unready : r.rset fd ≡ false
      unready = ground (arith, a.in_set fd, a.new_fd fd conn)

      kept : IsWatched t
      kept = add_client-IsWatched s i fd v free (a.new_fd fd conn)

      begins :
          round toupper r s ≡ (if n == 1 then running t [] else serve_clients toupper r t (n - 1))
      begins = accepts s n fd i a.some_ready new conn small slot
