-- ===== src/Process/Nonblock.antt =====
-- 005_process_IPC/01pipe_nonblock.c: 01pipe.c with a child that does not wait for the text, on the
-- descriptors of both. Setting O_NONBLOCK changes no descriptor; the text is a parameter.
use linux_c_program_exercris.Prelude.{
  ℕ, zero, suc, ◌≡◌, refl, ap, ◌∙◌, ◌≢◌, Bool, true, false, Option, none, some, List, [], ◌∷◌, ◌++◌,
  append-nil, append_assoc, arith, ◌==◌, if◌then◌else◌, ℤ, pos, negsuc, replicate,
}
use linux_c_program_exercris.Echo.{Read, received, read_error}
use linux_c_program_exercris.Sockets.Client.{text_of, over, text_of-append}
use linux_c_program_exercris.Files.Pipe.{Output, try_again, closes_pipe, child_read, eagain}
use linux_c_program_exercris.Process.Kernel.{Kernel, Forked, fork_failed, in_child, in_parent}
use linux_c_program_exercris.Process.Pipe.{newline, prefix, with_zero, closed_both, read_buffer}

-- What goes into the pipe, what is shown, the status, `none` in the loop, and the descriptors.
pub record Piped (T : Type 0) : Type 0 where
  pub sent : List ℕ
  pub shown : List Output
  pub status : Option ℤ
  pub table : T

module _ (k : Kernel) where
  open k use {Table, file_at, close, pipe, pipe_free, file_at-pipe, file_at-close}

  unfoldable pub parent : Table → ℕ → ℕ → List ℕ → Piped Table
  parent t r w text = record {
    sent = with_zero text;
    shown = [];
    status = some (pos 0);
    table = close (close t r) w;
  }

  -- From `tryagain` on; an error but EAGAIN leaves the pipe open.
  unfoldable pub read_loop : Table → ℕ → List Read → Piped Table
  unfolding read_buffer
  read_loop t r [] = record { sent = []; shown = []; status = none; table = t }
  read_loop t r (received bs ∷ rs) = record {
    sent = [];
    shown =
        closes_pipe
        ∷ child_read (prefix ++ (text_of (read_buffer k (received bs)) ++ (newline ∷ 0 ∷ [])))
        ∷ [];
    status = some (pos 0);
    table = close t r;
  }
  read_loop t r (read_error e ∷ rs) =
      let rest = read_loop t r rs in
      if e == eagain
      then record rest { shown = try_again ∷ rest.shown }
      else record { sent = []; shown = []; status = some (negsuc 1); table = t }

  unfoldable pub child : Table → ℕ → ℕ → List Read → Piped Table
  unfolding read_loop
  child t r w answers = read_loop (close t w) r answers

  -- `pipe_ok` is the answer of `pipe`; the open ends of it are `rend` and `wend`.
  unfoldable pub nonblock_program : Table → ℕ → ℕ → List ℕ → Bool → Forked → List Read → Piped Table
  unfolding parent child
  nonblock_program t rend wend text false f answers = record {
    sent = [];
    shown = [];
    status = some (negsuc 0);
    table = t;
  }
  nonblock_program t rend wend text true fork_failed answers = record {
    sent = [];
    shown = [];
    status = some (negsuc 1);
    table = (pipe t rend wend).2;
  }
  nonblock_program t rend wend text true (in_parent pid) answers =
      parent (pipe t rend wend).2 (pipe t rend wend).0 (pipe t rend wend).1 text
  nonblock_program t rend wend text true in_child answers =
      child (pipe t rend wend).2 (pipe t rend wend).0 (pipe t rend wend).1 answers

  tries :
      (n : ℕ) (t : Table) (r : ℕ) (rs : List Read)
      → read_loop t r (replicate n (read_error eagain) ++ rs)
        ≡ record (read_loop t r rs) { shown = replicate n try_again ++ (read_loop t r rs).shown }
  unfolding read_loop
  tries zero t r rs = refl
  tries (suc n) t r rs = rw (tries n t r rs) refl

  read_back :
      (text : List ℕ)
      → text_of text ≡ text
      → text_of (read_buffer k (received (with_zero text))) ≡ text
  unfolding read_buffer over
  read_back text h =
      ap text_of (append_assoc (text_of text) (0 ∷ []) _)
      ∙ text_of-append (text_of text) _
      ∙ ap text_of h
      ∙ h

  -- The parent and the child together, when `pipe` and `fork` succeed. If the child finds the pipe
  -- empty `n` times and then reads what the parent wrote, a text without a zero byte, it says so
  -- `n` times, shows the text once behind its prefix, and both exit with 0 and leave no end of the
  -- pipe open. If a read fails otherwise after `n` tries, the child exits with -2 and shows nothing
  -- more, with its end of the pipe still open.
  pub nonblock_program_passes :
      (t : Table) (rend wend pid n e : ℕ) (text : List ℕ)
      → text_of text ≡ text
      → e ≢ eagain
      → let p = nonblock_program t rend wend text true (in_parent pid) [] in
        let waits = replicate n (read_error eagain) in
        let c = nonblock_program t rend wend text true in_child (waits ++ (received p.sent ∷ [])) in
        let d = nonblock_program t rend wend text true in_child (waits ++ (read_error e ∷ [])) in
        (c.shown
          ≡ replicate n try_again
            ++ (closes_pipe ∷ child_read (prefix ++ (text ++ (newline ∷ 0 ∷ []))) ∷ []))
        × (p.status ≡ some (pos 0))
        × (c.status ≡ some (pos 0))
        × ((g : ℕ) → file_at p.table g ≡ file_at t g)
        × ((g : ℕ) → file_at c.table g ≡ file_at t g)
        × (d.shown ≡ replicate n try_again)
        × (d.status ≡ some (negsuc 1))
        × ((g : ℕ)
            → file_at d.table g ≡ (if g == (pipe t rend wend).0 then some rend else file_at t g))
  unfolding nonblock_program
  nonblock_program_passes t rend wend pid n e text h ne =
      let r = (pipe t rend wend).0 in
      let w = (pipe t rend wend).1 in
      let u = close (pipe t rend wend).2 w in
      let c = tries n u r (received (with_zero text) ∷ []) in
      let d = tries n u r (read_error e ∷ []) in
      let other : (e == eagain) ≡ false = ground arith in
      (
        ap (λ (q : Piped Table). q.shown) c
            ∙ ap
                (λ l.
                  replicate n try_again
                  ++ (closes_pipe ∷ child_read (prefix ++ (l ++ (newline ∷ 0 ∷ []))) ∷ []))
                (read_back text h),
        refl,
        ap (λ (q : Piped Table). q.status) c,
        λ g. (closed_both k t rend wend g).0,
        λ g. ap (λ (q : Piped Table). file_at q.table g) c ∙ (closed_both k t rend wend g).1,
        ap (λ (q : Piped Table). q.shown) d ∙ simp (other, append-nil),
        ap (λ (q : Piped Table). q.status) d ∙ simp other,
        λ g.
            ap (λ (q : Piped Table). file_at q.table g) d
            ∙ simp other (
                ground (
                  arith,
                  file_at-close (pipe t rend wend).2 w g,
                  file_at-pipe t rend wend g,
                  pipe_free t rend wend,
                )),
      )
