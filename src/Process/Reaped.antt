-- ===== src/Process/Reaped.antt =====
-- 004_process/07wait.c and 07wait_1.c: what `wait` answers, and what becomes of the child.
use linux_c_program_exercris.Prelude.{
  ℕ, zero, suc, ◌+◌, ◌≤◌, ◌<◌, ◌≡◌, refl, sym, ap, subst, ◌∙◌, ◌⊎◌, inl, inr, List, [], ◌∷◌, ◌++◌,
  append-nil, arith, ℤ, pos, negsuc, replicate, replicate_snoc, Option,
}
use linux_c_program_exercris.Process.Orphan.{Turn, of_parent, of_child, child_turns}
use linux_c_program_exercris.Process.Wait.{
  IsWait, Child, starts, sleeps, zombie, reaped, Line, child_line, parent_line, waited, Parent,
  shows, waits, Family, begin, child_turn, show_turn, show_run, wait_for, wait_turn, wait_run,
  answers, life,
}

answers-append : (a b : List Line) → answers (a ++ b) ≡ answers a ++ answers b
answers-append [] b = refl
answers-append (child_line ∷ a) b = answers-append a b
answers-append (parent_line ∷ a) b = answers-append a b
answers-append (waited n ∷ a) b = ap (◌∷◌ n) (answers-append a b)

-- A line of a process is no answer.
no_answer : (a : List Line) (l : Line) → answers (l ∷ []) ≡ [] → answers (a ++ (l ∷ [])) ≡ answers a
no_answer a l e = answers-append a (l ∷ []) ∙ ap (λ x. answers a ++ x) e ∙ append-nil _

-- A child that nobody has waited for goes on by its turns.
child_turn-life :
    (n : ℕ) (f : Family)
    → f.child ≡ life n
    → ((child_turn f f.child).child ≡ life (suc n))
      × (answers (child_turn f f.child).out ≡ answers f.out)
child_turn-life n f e =
    subst
      (λ c.
        ((child_turn f c).child ≡ life (suc n)) × (answers (child_turn f c).out ≡ answers f.out))
      (sym e) (grows n e)
  where
    grows :
        (m : ℕ)
        → f.child ≡ life m
        → ((child_turn f (life m)).child ≡ life (suc m))
          × (answers (child_turn f (life m)).out ≡ answers f.out)
    grows zero h = unfold child_turn in (refl, no_answer f.out child_line refl)
    grows (suc zero) h = unfold child_turn in (refl, refl)
    grows (suc (suc m)) h = unfold child_turn in (h, refl)

show_run-life :
    (n : ℕ) (f : Family) (es : List Turn)
    → f.child ≡ life n
    → ((show_run f es).child ≡ life (child_turns es + n))
      × (answers (show_run f es).out ≡ answers f.out)
unfolding show_run
show_run-life n f [] e = (e ∙ ap life (omega arith), refl)
show_run-life n f (of_parent ∷ es) e =
    let v = show_run-life n (show_turn f) es (unfold show_turn in e) in
    (v.0, v.1 ∙ unfold show_turn in no_answer f.out parent_line refl)
show_run-life n f (of_child ∷ es) e =
    let t = child_turn-life n f e in
    let v = show_run-life (suc n) (child_turn f f.child) es t.0 in
    (v.0 ∙ ap life (omega arith), v.1 ∙ t.1)

module _ (wait : Child → Option (ℤ × Child)) (pid : ℕ) (waiting : IsWait pid wait) where
  -- After `n` turns of the child: nobody has waited for it, or it was taken once.
  data Waited (n : ℕ) (f : Family) : Type 0 where
    not_yet : f.child ≡ life n → answers f.out ≡ [] → Waited n f
    taken :
        (b : ℕ)
        → 2 ≤ n
        → f.child ≡ reaped
        → answers f.out ≡ pos pid ∷ replicate b (negsuc 0)
        → Waited n f

  child_turn-Waited : (n : ℕ) (f : Family) → Waited n f → Waited (suc n) (child_turn f f.child)
  child_turn-Waited n f (not_yet e a) = let t = child_turn-life n f e in not_yet t.0 (t.1 ∙ a)
  child_turn-Waited n f (taken b h e a) =
      subst (λ c. Waited (suc n) (child_turn f c)) (sym e)
        (unfold child_turn in taken b (omega arith) e a)

  one_answer :
      (a : List Line) (z : ℤ) (l : List ℤ)
      → answers a ≡ l
      → answers (a ++ (waited z ∷ [])) ≡ l ++ (z ∷ [])
  one_answer a z l e = answers-append a _ ∙ ap (λ x. x ++ (z ∷ [])) e

  wait_for-Waited : (n : ℕ) (f : Family) → Waited n f → Waited n (wait_for wait f (wait f.child))
  wait_for-Waited n f (not_yet e a) =
      subst (λ c. Waited n (wait_for wait f (wait c))) (sym e) (by_life n e)
    where
      by_life : (m : ℕ) → f.child ≡ life m → Waited m (wait_for wait f (wait (life m)))
      by_life zero h = rw waiting.awake (unfold wait_for in not_yet h a)
      by_life (suc zero) h = rw waiting.asleep (unfold wait_for in not_yet h a)
      by_life (suc (suc m)) h =
          rw waiting.takes
            (unfold wait_for in taken 0 (omega arith) refl (one_answer f.out (pos pid) [] a))
  wait_for-Waited n f (taken b h e a) =
      subst (λ c. Waited n (wait_for wait f (wait c))) (sym e)
        (rw waiting.nobody (
          unfold wait_for in
          taken (suc b) h refl
            (one_answer f.out (negsuc 0) _ a ∙ ap (◌∷◌ (pos pid)) (replicate_snoc b (negsuc 0)))))

  wait_turn-Waited : (n : ℕ) (f : Family) (p : Parent) → Waited n f → Waited n (wait_turn wait f p)
  unfolding wait_turn
  wait_turn-Waited n f shows (not_yet e a) = not_yet e (no_answer f.out parent_line refl ∙ a)
  wait_turn-Waited n f shows (taken b h e a) = taken b h e (no_answer f.out parent_line refl ∙ a)
  wait_turn-Waited n f waits v = wait_for-Waited n f v

  wait_run-Waited :
      (n : ℕ) (f : Family) (es : List Turn)
      → Waited n f
      → Waited (child_turns es + n) (wait_run wait f es)
  unfolding wait_run
  wait_run-Waited n f [] v = subst (λ m. Waited m f) (omega arith) v
  wait_run-Waited n f (of_parent ∷ es) v =
      wait_run-Waited n (wait_turn wait f f.parent) es (wait_turn-Waited n f f.parent v)
  wait_run-Waited n f (of_child ∷ es) v =
      subst (λ m. Waited m (wait_run wait (child_turn f f.child) es)) (omega arith)
        (wait_run-Waited (suc n) (child_turn f f.child) es (child_turn-Waited n f v))

  -- The parent's next two turns take a child that has exited.
  two_turns :
      (f : Family) (c : Child) (p : Parent)
      → f.child ≡ c
      → f.parent ≡ p
      → (c ≡ zombie) ⊎ (c ≡ reaped)
      → (wait_run wait f (of_parent ∷ of_parent ∷ [])).child ≡ reaped
  unfolding wait_run wait_turn wait_for
  two_turns f starts p e q h = absurd (ground arith)
  two_turns f sleeps p e q h = absurd (ground arith)
  two_turns f zombie shows e q h = simp (q, e, waiting.takes) refl
  two_turns f zombie waits e q h = simp (q, e, waiting.takes) refl
  two_turns f reaped shows e q h = simp (q, e, waiting.nobody) refl
  two_turns f reaped waits e q h = simp (q, e, waiting.nobody) refl

  -- Whatever turns the two take, where the child prints in its first turn and exits in its second
  -- and `wait` takes one that has exited:
  -- if the parent never waits, the child stays a zombie from then on; and if it waits, `wait`
  -- answers nothing before the child has exited, then its number once, and -1 ever after. When the
  -- child has exited, two more turns of that parent suffice.
  pub child_is_reaped :
      (es : List Turn)
      → let z = show_run begin es in
        let f = wait_run wait begin es in
        (z.child ≡ life (child_turns es))
        × (answers z.out ≡ [])
        × (((f.child ≡ life (child_turns es)) × (answers f.out ≡ []))
            ⊎ ((b : ℕ) × (2 ≤ child_turns es)
                × (f.child ≡ reaped)
                × (answers f.out ≡ pos pid ∷ replicate b (negsuc 0))))
        × ((child_turns es < 2) ⊎ ((wait_run wait f (of_parent ∷ of_parent ∷ [])).child ≡ reaped))
  child_is_reaped es =
      let z = show_run-life 0 begin es (unfold begin in refl) in
      let same : child_turns es + 0 ≡ child_turns es = omega arith in
      let w =
        subst (λ m. Waited m f) same
          (wait_run-Waited 0 begin es (unfold begin in not_yet refl refl)) in
      (z.0 ∙ ap life (omega arith), z.1 ∙ (unfold begin in refl), either w, soon w)
    where
      f : Family
      f = wait_run wait begin es

      either :
          Waited (child_turns es) f
          → ((f.child ≡ life (child_turns es)) × (answers f.out ≡ []))
            ⊎ ((b : ℕ) × (2 ≤ child_turns es)
                × (f.child ≡ reaped)
                × (answers f.out ≡ pos pid ∷ replicate b (negsuc 0)))
      either (not_yet e a) = inl (e, a)
      either (taken b h e a) = inr (b, h, e, a)

      exited : (n : ℕ) → (n < 2) ⊎ (life n ≡ zombie)
      exited zero = inl (omega arith)
      exited (suc zero) = inl (omega arith)
      exited (suc (suc n)) = inr refl

      soon :
          Waited (child_turns es) f
          → (child_turns es < 2) ⊎ ((wait_run wait f (of_parent ∷ of_parent ∷ [])).child ≡ reaped)
      soon (not_yet e a) = elim (exited (child_turns es)) [
        | inl few ↦ inl few
        | inr h ↦ inr (two_turns f zombie f.parent (e ∙ h) refl (inl refl))
      ]
      soon (taken b h e a) = inr (two_turns f reaped f.parent e refl (inr refl))
