-- ===== src/Select/Scan.antt =====
-- 012_network_IO/01select/server.c: the loop over the clients, against one over the whole
-- table that never stops early.
use linux_c_program_exercris.Prelude.{
  ℕ, zero, suc, ◌+◌, ◌-◌, ◌≤◌, ◌≡◌, refl, sym, ap, inl, inr, Bool, true, false, not, ◌&&◌, ◌||◌,
  List, [], ◌∷◌, ◌++◌, map, append-nil, arith, ◌==◌, if◌then◌else◌, Bool-cases, ℤ, pos, negsuc,
  is_neg, drop,
}
use linux_c_program_exercris.Echo.{
  echo-map, Read, received, read_error, Effect, wrote, write_failed, closed, maxline,
}
use linux_c_program_exercris.Select.Defs.{serve_fd, Round, scan, Scanned, serve_fd}

-- The client has closed its side.
abbrev pub at_end : Read → Bool
at_end (received []) = true
at_end (received (b ∷ bs)) = false
at_end (read_error _) = false

abbrev pub AllFree : List ℤ → Type 0
AllFree [] = Unit
AllFree (c ∷ cs) = (is_neg c ≡ true) × AllFree cs

abbrev pub has : List ℤ → ℕ → Bool
has [] f = false
has (negsuc k ∷ cs) f = has cs f
has (pos fd ∷ cs) f = f == fd || has cs f

module _ (toupper : ℕ → ℕ) (r : Round) where
  abbrev pub answer : ℕ → Read → List Effect
  answer fd (received []) = closed fd ∷ []
  answer fd (received (b ∷ bs)) = wrote fd (map toupper (b ∷ bs)) ∷ []
  answer fd (read_error _) = write_failed fd ∷ []

  -- What a round owes to a slot, whatever the other slots hold.
  abbrev pub slot_after : ℤ → ℤ
  slot_after (negsuc k) = negsuc k
  slot_after (pos fd) = if r.rset fd && at_end (r.read fd) then negsuc 0 else pos fd

  abbrev pub slot_effects : ℤ → List Effect
  slot_effects (negsuc k) = []
  slot_effects (pos fd) = if r.rset fd then answer fd (r.read fd) else []

  abbrev pub all_effects : List ℤ → List Effect
  all_effects [] = []
  all_effects (c ∷ cs) = slot_effects c ++ all_effects cs

  abbrev pub is_ready : ℤ → ℕ
  is_ready (negsuc k) = 0
  is_ready (pos fd) = if r.rset fd then 1 else 0

  abbrev pub count_ready : List ℤ → ℕ
  count_ready [] = 0
  count_ready (c ∷ cs) = is_ready c + count_ready cs

  pub none_ready :
      (cs : List ℤ) → count_ready cs ≡ 0 → (map slot_after cs ≡ cs) × (all_effects cs ≡ [])
  none_ready [] h = (refl, refl)
  none_ready (negsuc k ∷ cs) h =
      (ap (◌∷◌ (negsuc k)) (none_ready cs (omega arith)).0, (none_ready cs (omega arith)).1)
  none_ready (pos fd ∷ cs) h = ground (arith, none_ready cs)

  free_idle :
      (cs : List ℤ)
      → AllFree cs
      → (map slot_after cs ≡ cs) × (all_effects cs ≡ []) × ((f : ℕ) → has cs f ≡ false)
  free_idle [] a = (refl, refl, λ f. refl)
  free_idle (negsuc k ∷ cs) a = let (x, y, z) = free_idle cs a.1 in (ap (◌∷◌ (negsuc k)) x, y, z)
  free_idle (pos fd ∷ cs) a = cc

  -- What a round owes to the whole table.
  pub record Served (cs : List ℤ) (watched : ℕ → Bool) (out : Scanned) : Type 0 where
    pub table : out.slots ≡ map slot_after cs
    pub calls : out.effects ≡ all_effects cs
    pub set :
        (f : ℕ) → out.watched f ≡ (watched f && not (has cs f && (r.rset f && at_end (r.read f))))

  no_close :
      (cs : List ℤ) (f : ℕ)
      → count_ready cs ≡ 0
      → (has cs f && (r.rset f && at_end (r.read f))) ≡ false
  no_close [] f h = refl
  no_close (negsuc k ∷ cs) f h = no_close cs f (omega arith)
  no_close (pos fd ∷ cs) f h = ground (arith, no_close cs f)

  serve_fd_lem :
      (fd : ℕ) (watched : ℕ → Bool) (x : Read)
      → let out = serve_fd toupper r fd watched x in
        (out.0 ≡ (if at_end x then negsuc 0 else pos fd))
        × ((f : ℕ) → out.1 f ≡ (watched f && not (f == fd && at_end x)))
        × (out.2 ≡ answer fd x)
  unfolding serve_fd
  serve_fd_lem fd watched (received []) = (refl, (λ f. ground arith), refl)
  serve_fd_lem fd watched (received (b ∷ bs)) =
      (refl, (λ f. ground arith), ap (λ l. wrote fd l ∷ []) (echo-map toupper maxline (b ∷ bs)))
  serve_fd_lem fd watched (read_error k) = (refl, (λ f. ground arith), refl)

  pub scan-Served :
      (n : ℕ) (cs : List ℤ) (watched : ℕ → Bool) (left : ℕ)
      → AllFree (drop n cs)
      → count_ready cs ≤ left
      → Served cs watched (scan toupper r n cs watched left)
  unfolding scan
  scan-Served zero cs watched left a h = record {
    table = sym (free_idle cs a).0;
    calls = sym (free_idle cs a).1;
    set = λ f. ground (arith, (free_idle cs a).2 f);
  }
  scan-Served (suc n) [] watched left a h = record {
    table = refl;
    calls = refl;
    set = λ f. ground arith;
  }
  scan-Served (suc n) (negsuc k ∷ cs) watched left a h =
      let v = scan-Served n cs watched left a (omega arith) in
      record { table = ap (◌∷◌ (negsuc k)) v.table; calls = v.calls; set = v.set }
  scan-Served (suc n) (pos fd ∷ cs) watched left a h = elim (Bool-cases (r.rset fd)) [
    | inr quiet ↦
        let v = scan-Served n cs watched left a (ground arith) in
        rw quiet (record {
          table = ground (arith, v.table);
          calls = ground (arith, v.calls);
          set = λ f. ground (arith, v.set f);
        })
    | inl ready ↦
        let o = serve_fd_lem fd watched (r.read fd) in
        elim (Bool-cases (left == 1)) [
          | inl last ↦
              let zero_left : count_ready cs ≡ 0 = ground arith in
              rw (ready, last)
                (record {
                  table = ground (arith, ready, o.0, none_ready cs);
                  calls =
                      ground (arith, ready, o.2, none_ready cs, append-nil (answer fd (r.read fd)));
                  set = λ f. ground (arith, ready, o.1 f, no_close cs f);
                })
          | inr more ↦
              let v =
                scan-Served n cs (serve_fd toupper r fd watched (r.read fd)).1 (left - 1) a
                  (ground arith) in
              rw (ready, more)
                (record {
                  table = ground (arith, ready, o.0, v.table);
                  calls = ground (arith, ready, o.2, v.calls);
                  set = λ f. ground (arith, ready, o.1 f, v.set f);
                })
        ]
  ]
