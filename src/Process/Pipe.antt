-- ===== src/Process/Pipe.antt =====
-- 005_process_IPC/01pipe.c: a parent that writes to its child through a pipe. Both have their own
-- copy of the table after `fork`; the text is a parameter.
use linux_c_program_exercris.Prelude.{
  ℕ, ◌≡◌, Bool, true, false, List, [], ◌∷◌, ◌++◌, arith, ℤ, pos, negsuc, replicate, refl, ap, ◌∙◌,
  append_assoc, length, drop,
}
use linux_c_program_exercris.Echo.{Read, received, read_error}
use linux_c_program_exercris.Sockets.Client.{text_of, over, text_of-append}
use linux_c_program_exercris.Process.Kernel.{Kernel, Forked, fork_failed, in_child, in_parent}

abbrev pub buffer_size : ℕ
buffer_size = 1024

abbrev pub newline : ℕ
newline = 10

-- "Child Read Datas:"
abbrev pub prefix : List ℕ
prefix =
    67 ∷ 104 ∷ 105 ∷ 108 ∷ 100 ∷ 32 ∷ 82 ∷ 101 ∷ 97 ∷ 100 ∷ 32 ∷ 68 ∷ 97 ∷ 116 ∷ 97 ∷ 115 ∷ 58 ∷ []

-- `strlen(s) + 1` bytes of a buffer: its text and the zero.
abbrev pub with_zero : List ℕ → List ℕ
with_zero s = text_of s ++ (0 ∷ [])

-- What goes into the pipe, what is shown, and the descriptors at the end of the process.
pub record Piped (T : Type 0) : Type 0 where
  pub sent : List ℕ
  pub shown : List ℕ
  pub status : ℤ
  pub table : T

module _ (k : Kernel) where
  open k use {Table, file_at, close, pipe, pipe_free, file_at-pipe, file_at-close}

  -- `r` and `w` are the ends of the pipe in the table.
  unfoldable pub parent : Table → ℕ → ℕ → List ℕ → Piped Table
  parent t r w text = record {
    sent = with_zero text;
    shown = [];
    status = pos 0;
    table = close (close t r) w;
  }

  -- The buffer is zeros, and then what `read` puts in front; -1 puts nothing.
  unfoldable pub read_buffer : Read → List ℕ
  unfolding over
  read_buffer (received bs) = over bs (replicate buffer_size 0)
  read_buffer (read_error e) = replicate buffer_size 0

  unfoldable pub child : Table → ℕ → ℕ → Read → Piped Table
  unfolding read_buffer
  child t r w answer = record {
    sent = [];
    shown = prefix ++ (text_of (read_buffer answer) ++ (newline ∷ 0 ∷ []));
    status = pos 0;
    table = close (close t w) r;
  }

  -- `pipe_ok` is the answer of `pipe`; the open ends of it are `rend` and `wend`.
  unfoldable pub pipe_program : Table → ℕ → ℕ → List ℕ → Bool → Forked → Read → Piped Table
  unfolding parent child
  pipe_program t rend wend text false f answer = record {
    sent = [];
    shown = [];
    status = negsuc 0;
    table = t;
  }
  pipe_program t rend wend text true fork_failed answer = record {
    sent = [];
    shown = [];
    status = negsuc 1;
    table = (pipe t rend wend).2;
  }
  pipe_program t rend wend text true (in_parent pid) answer =
      parent (pipe t rend wend).2 (pipe t rend wend).0 (pipe t rend wend).1 text
  pipe_program t rend wend text true in_child answer =
      child (pipe t rend wend).2 (pipe t rend wend).0 (pipe t rend wend).1 answer

  pub closed_both :
      (t : Table) (rend wend g : ℕ)
      → (file_at (close (close (pipe t rend wend).2 (pipe t rend wend).0) (pipe t rend wend).1) g
          ≡ file_at t g)
        × (file_at (close (close (pipe t rend wend).2 (pipe t rend wend).1) (pipe t rend wend).0) g
            ≡ file_at t g)
  closed_both t rend wend g =
      let r = (pipe t rend wend).0 in
      let w = (pipe t rend wend).1 in
      let u = (pipe t rend wend).2 in
      (
        ground (
          arith,
          file_at-close (close u r) w g,
          file_at-close u r g,
          file_at-pipe t rend wend g,
          pipe_free t rend wend,
        ),
        ground (
          arith,
          file_at-close (close u w) r g,
          file_at-close u w g,
          file_at-pipe t rend wend g,
          pipe_free t rend wend,
        ),
      )

  -- The parent and the child together, when `pipe` and `fork` succeed and the child's read gives it
  -- what the parent wrote: a text without a zero byte is shown by the child behind its prefix, both
  -- exit with 0, and neither leaves an end of the pipe open or another descriptor changed.
  pub pipe_program_passes :
      (t : Table) (rend wend pid : ℕ) (text : List ℕ) (answer : Read)
      → text_of text ≡ text
      → let p = pipe_program t rend wend text true (in_parent pid) answer in
        let c = pipe_program t rend wend text true in_child (received p.sent) in
        (c.shown ≡ prefix ++ (text ++ (newline ∷ 0 ∷ [])))
        × (p.status ≡ pos 0)
        × (c.status ≡ pos 0)
        × ((g : ℕ) → file_at p.table g ≡ file_at t g)
        × ((g : ℕ) → file_at c.table g ≡ file_at t g)
  unfolding pipe_program read_buffer over
  pipe_program_passes t rend wend pid text answer h =
      let zeros = drop (length (text_of text ++ (0 ∷ []))) (replicate buffer_size 0) in
      let read_back : text_of ((text_of text ++ (0 ∷ [])) ++ zeros) ≡ text =
        ap text_of (append_assoc (text_of text) (0 ∷ []) zeros)
        ∙ text_of-append (text_of text) zeros
        ∙ ap text_of h
        ∙ h in
      (
        ap (λ l. prefix ++ (l ++ (newline ∷ 0 ∷ []))) read_back,
        refl,
        refl,
        λ g. (closed_both t rend wend g).0,
        λ g. (closed_both t rend wend g).1,
      )
