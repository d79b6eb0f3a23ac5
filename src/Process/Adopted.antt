-- ===== src/Process/Adopted.antt =====
-- 004_process/07child.c and 07child_2.c: what the lines of the child say of its parent.
use linux_c_program_exercris.Prelude.{
  ℕ, zero, suc, ◌+◌, ◌-◌, ◌≡◌, refl, sym, ap, subst, ◌∙◌, ◌⊎◌, inl, inr, Option, none, some, List,
  [], ◌∷◌, ◌++◌, append-nil, append_assoc, arith, ℤ, pos, replicate, replicate_snoc,
}
use linux_c_program_exercris.Process.Orphan.{
  IsGetppid, Line, child_line, parent_line, Parent, prints, returns, gone, Family, Turn, of_parent,
  of_child, begin, parent_turn, child_turn, run, child_lines, child_turns, rounds_in, status_after,
}

abbrev left_after : Option ℕ → ℕ → Option ℕ
left_after none n = none
left_after (some m) n = some (m - n)

child_lines-append : (a b : List Line) → child_lines (a ++ b) ≡ child_lines a ++ child_lines b
child_lines-append [] b = refl
child_lines-append (child_line c p ∷ a) b = ap (λ l. child_line c p ∷ l) (child_lines-append a b)
child_lines-append (parent_line p ∷ a) b = child_lines-append a b

at_start : (r : Option ℕ) → (rounds_in r 0 ≡ 0) × (left_after r 0 ≡ r) × (status_after r 0 ≡ none)
at_start none = (refl, refl, refl)
at_start (some m) = (ground arith, ap some (omega arith), ground arith)

-- What one more turn of the child is, by its status and the rounds that are left.
over :
    (r : Option ℕ) (n : ℕ) (s : ℤ)
    → status_after r n ≡ some s
    → (rounds_in r (suc n) ≡ rounds_in r n)
      × (left_after r (suc n) ≡ left_after r n)
      × (status_after r (suc n) ≡ status_after r n)
over none n s e = absurd (ground arith)
over (some m) n s e = (ground arith, ap some (ground arith), ground arith)

endless :
    (r : Option ℕ) (n : ℕ)
    → left_after r n ≡ none
    → (rounds_in r (suc n) ≡ suc (rounds_in r n))
      × (left_after r (suc n) ≡ none)
      × (status_after r (suc n) ≡ none)
endless none n e = (refl, refl, refl)
endless (some m) n e = absurd (ground arith)

at_end :
    (r : Option ℕ) (n : ℕ)
    → status_after r n ≡ none
    → left_after r n ≡ some zero
    → (rounds_in r (suc n) ≡ rounds_in r n)
      × (left_after r (suc n) ≡ some zero)
      × (status_after r (suc n) ≡ some (pos 0))
at_end none n e h = absurd (ground arith)
at_end (some m) n e h =
    let same : m - n ≡ 0 = ground arith in (ground arith, ap some (omega arith), ground arith)

one_left :
    (r : Option ℕ) (n q : ℕ)
    → left_after r n ≡ some (suc q)
    → (rounds_in r (suc n) ≡ suc (rounds_in r n))
      × (left_after r (suc n) ≡ some q)
      × (status_after r (suc n) ≡ none)
one_left none n q h = absurd (ground arith)
one_left (some m) n q h =
    let same : m - n ≡ suc q = ground arith in (ground arith, ap some (omega arith), ground arith)

module _ (getppid : Parent → ℕ) (pid init child : ℕ) (asks : IsGetppid pid init getppid)
    (rounds : Option ℕ) where
  -- After `n` turns of the child: `own` lines name the parent and `adopted` lines process 1.
  record Inv (n : ℕ) (f : Family) : Type 0 where
    own : ℕ
    adopted : ℕ
    lines :
        child_lines f.out
        ≡ replicate own (child_line child pid) ++ replicate adopted (child_line child init)
    counted : own + adopted ≡ rounds_in rounds n
    alone : (f.parent ≡ gone) ⊎ (adopted ≡ 0)
    left : f.left ≡ left_after rounds n
    status : f.child_status ≡ status_after rounds n

  own_line :
      (q a : ℕ)
      → q ≡ pid
      → (replicate a (child_line child pid) ++ []) ++ (child_line child q ∷ [])
        ≡ replicate (suc a) (child_line child pid) ++ []
  own_line q a e =
      ap (λ x. (replicate a (child_line child pid) ++ []) ++ (child_line child x ∷ [])) e
      ∙ ap (λ l. l ++ (child_line child pid ∷ [])) (append-nil _)
      ∙ replicate_snoc a _
      ∙ sym (append-nil _)

  -- One more line of the child, with the parent it has.
  one_more :
      (p : Parent) (a b : ℕ)
      → (p ≡ gone) ⊎ (b ≡ 0)
      → (a' : ℕ) × (b' : ℕ) × (a' + b' ≡ suc (a + b))
        × ((p ≡ gone) ⊎ (b' ≡ 0))
        × ((replicate a (child_line child pid) ++ replicate b (child_line child init))
              ++ (child_line child (getppid p) ∷ [])
            ≡ replicate a' (child_line child pid) ++ replicate b' (child_line child init))
  one_more gone a b h = (
    a,
    suc b,
    omega arith,
    inl refl,
    ap
          (λ q.
            (replicate a (child_line child pid) ++ replicate b (child_line child init))
            ++ (child_line child q ∷ []))
          asks.orphaned
        ∙ adopted_line,
  )
    where
      adopted_line :
          (replicate a (child_line child pid) ++ replicate b (child_line child init))
            ++ (child_line child init ∷ [])
          ≡ replicate a (child_line child pid) ++ replicate (suc b) (child_line child init)
      adopted_line =
          append_assoc (replicate a _) _ _
          ∙ ap (λ l. replicate a (child_line child pid) ++ l) (replicate_snoc b _)
  one_more prints a zero h =
      (suc a, 0, omega arith, inr refl, own_line (getppid prints) a asks.printing)
  one_more returns a zero h =
      (suc a, 0, omega arith, inr refl, own_line (getppid returns) a asks.returning)
  one_more prints a (suc b) h = absurd (ground arith)
  one_more returns a (suc b) h = absurd (ground arith)

  parent_turn-Inv :
      (n : ℕ) (f : Family) (p : Parent)
      → Inv n f
      → f.parent ≡ p
      → Inv n (parent_turn getppid pid child f p)
  unfolding parent_turn
  parent_turn-Inv n f prints v e = record {
    own = v.own;
    adopted = v.adopted;
    lines = child_lines-append f.out _ ∙ append-nil _ ∙ v.lines;
    counted = v.counted;
    left = v.left;
    status = v.status;
    alone = inr (elim v.alone [ inl there ↦ absurd (ground arith) | inr z ↦ z ]);
  }
  parent_turn-Inv n f returns v e = record {
    own = v.own;
    adopted = v.adopted;
    lines = v.lines;
    counted = v.counted;
    alone = inl refl;
    left = v.left;
    status = v.status;
  }
  parent_turn-Inv n f gone v e = v

  child_turn-Inv :
      (n : ℕ) (f : Family) (s : Option ℤ) (l : Option ℕ)
      → Inv n f
      → f.child_status ≡ s
      → f.left ≡ l
      → Inv (suc n) (child_turn getppid pid child f s l)
  unfolding child_turn
  child_turn-Inv n f (some s) l v e h =
      let a = over rounds n s (sym v.status ∙ e) in
      record {
        own = v.own;
        adopted = v.adopted;
        lines = v.lines;
        counted = v.counted ∙ sym a.0;
        alone = v.alone;
        left = v.left ∙ sym a.1;
        status = v.status ∙ sym a.2;
      }
  child_turn-Inv n f none none v e h =
      let a = endless rounds n (sym v.left ∙ h) in
      let (own, adopted, c, alone, l) = one_more f.parent v.own v.adopted v.alone in
      record {
        own = own;
        adopted = adopted;
        lines =
            child_lines-append f.out _
            ∙ ap (λ x. x ++ (child_line child (getppid f.parent) ∷ [])) v.lines
            ∙ l;
        counted = c ∙ ap suc v.counted ∙ sym a.0;
        alone = alone;
        left = h ∙ sym a.1;
        status = e ∙ sym a.2;
      }
  child_turn-Inv n f none (some zero) v e h =
      let a = at_end rounds n (sym v.status ∙ e) (sym v.left ∙ h) in
      record {
        own = v.own;
        adopted = v.adopted;
        lines = v.lines;
        counted = v.counted ∙ sym a.0;
        alone = v.alone;
        left = h ∙ sym a.1;
        status = sym a.2;
      }
  child_turn-Inv n f none (some (suc q)) v e h =
      let a = one_left rounds n q (sym v.left ∙ h) in
      let (own, adopted, c, alone, l) = one_more f.parent v.own v.adopted v.alone in
      record {
        own = own;
        adopted = adopted;
        lines =
            child_lines-append f.out _
            ∙ ap (λ x. x ++ (child_line child (getppid f.parent) ∷ [])) v.lines
            ∙ l;
        counted = c ∙ ap suc v.counted ∙ sym a.0;
        alone = alone;
        left = sym a.1;
        status = e ∙ sym a.2;
      }

  run-Inv :
      (n : ℕ) (f : Family) (es : List Turn)
      → Inv n f
      → Inv (child_turns es + n) (run getppid pid child f es)
  unfolding run
  run-Inv n f [] v = subst (λ m. Inv m f) (omega arith) v
  run-Inv n f (of_parent ∷ es) v =
      run-Inv n (parent_turn getppid pid child f f.parent) es (parent_turn-Inv n f f.parent v refl)
  run-Inv n f (of_child ∷ es) v =
      subst
        (λ m.
          Inv m (run getppid pid child (child_turn getppid pid child f f.child_status f.left) es))
        (omega arith)
        (run-Inv (suc n) (child_turn getppid pid child f f.child_status f.left) es
          (child_turn-Inv n f f.child_status f.left v refl refl))

  begin-Inv : Inv 0 (begin rounds)
  unfolding begin
  begin-Inv = record {
    own = 0;
    adopted = 0;
    lines = refl;
    counted = sym (at_start rounds).0;
    alone = inr refl;
    left = sym (at_start rounds).1;
    status = sym (at_start rounds).2;
  }

  -- Whatever turns the two take, if `getppid` answers the parent until it has exited: the lines of the child are first some with the number of its
  -- parent, and then, only once the parent has exited, some with the process
  -- that adopts it. It prints a line in
  -- each of its turns, but no more than its rounds, and exits with 0 in the turn after them.
  pub orphan_is_adopted :
      (es : List Turn)
      → let f = run getppid pid child (begin rounds) es in
        (own : ℕ) × (adopted : ℕ) × (child_lines f.out
          ≡ replicate own (child_line child pid) ++ replicate adopted (child_line child init))
        × (own + adopted ≡ rounds_in rounds (child_turns es))
        × ((f.parent ≡ gone) ⊎ (adopted ≡ 0))
        × (f.child_status ≡ status_after rounds (child_turns es))
  unfolding begin
  orphan_is_adopted es =
      let v =
        subst (λ m. Inv m (run getppid pid child (begin rounds) es)) (omega arith)
          (run-Inv 0 (begin rounds) es begin-Inv) in
      (v.own, v.adopted, v.lines, v.counted, v.alone, v.status)
