-- ===== src/Process/Wrapper.antt =====
-- 004_process/06wrapper.c and 06upper.c: a program that puts a file in the place of its standard
-- input and becomes another, which shows what it reads in upper case.
use linux_c_program_exercris.Prelude.{
  ℕ, ◌≢◌, Bool, Option, none, some, List, [], ◌∷◌, ltb, ◌==◌, if◌then◌else◌, ℤ, pos, negsuc, ◌≡◌,
  sym, ap, ◌∙◌, arith, ◌≤◌, refl, true, false, ◌++◌, map,
}
use mathlib.Core.Option
use linux_c_program_exercris.Process.Kernel.{Kernel}

-- The `EOF` of the library, in the `char` that takes it: -1 is the byte 255.
abbrev pub eof_char : ℕ
eof_char = 255

module _ (toupper : ℕ → ℕ) where
  -- `main` of 06upper.c, on the bytes of its input.
  unfoldable pub upper_main : List ℕ → List ℕ
  upper_main [] = []
  upper_main (b ∷ bs) = let rest = upper_main bs in if b == eof_char then [] else toupper b ∷ rest

abbrev pub NoEof : List ℕ → Type 0
NoEof [] = Unit
NoEof (b ∷ bs) = (b ≢ eof_char) × NoEof bs

module _ (k : Kernel) where
  open k use {
    Table, file_at, open_file, dup, dup2, close, open_free, dup_free, file_at-open, file_at-dup,
    file_at-dup2, file_at-close,
  }

  -- Another program runs on the table, or the wrapper ends with a status.
  pub data Wrapped : Type 0 where
    becomes : Table → Wrapped
    ends : ℤ → Table → Wrapped

  -- From `dup(STDIN_FILENO)` to `close(fd)`: the copy of the input, and the table.
  unfoldable pub redirect : Table → ℕ → ℕ × Table
  redirect t fd = ((dup t 0).0, close (dup2 (dup t 0).1 fd 0) fd)

  -- What follows an `execl` that fails.
  unfoldable pub restore : Table → ℕ → Table
  restore t save_fd = close (dup2 t 0 save_fd) save_fd

  -- `argc`, the open file behind the name, and whether `execl` succeeds.
  unfoldable pub wrapper_main : Table → ℕ → Option ℕ → Bool → Wrapped
  unfolding redirect restore
  wrapper_main t argc found exec_ok = if ltb argc 2 then ends (negsuc 0) t else elim found [
    | none ↦ ends (negsuc 1) t
    | some x ↦
        let (fd, t1) = open_file t x in
        let (save_fd, t2) = redirect t1 fd in
        if exec_ok then becomes t2 else ends (pos 0) (restore t2 save_fd)
  ]

  module _ (t : Table) (x tty : ℕ) (stdin_open : file_at t 0 ≡ some tty) where
    abbrev fd : ℕ
    fd = (open_file t x).0

    abbrev opened : Table
    opened = (open_file t x).1

    abbrev save : ℕ
    save = (dup opened 0).0

    fd-ne-zero : fd ≢ 0
    fd-ne-zero e = cc (sym (open_free t x) ∙ ap (file_at t) e ∙ stdin_open)

    opened_lem : (g : ℕ) → file_at opened g ≡ (if g == fd then some x else file_at t g)
    opened_lem g = file_at-open t x g

    opened_zero : file_at opened 0 ≡ some tty
    opened_zero = ground (arith, opened_lem 0, fd-ne-zero, stdin_open)

    save_free : (save ≢ fd) × (save ≢ 0) × (file_at t save ≡ none)
    save_free =
        let free : file_at opened save ≡ none = dup_free opened 0 in
        (
          ground (arith, opened_lem save),
          (λ e. cc (sym free ∙ ap (file_at opened) e ∙ opened_zero)),
          ground (arith, opened_lem save),
        )

    copied :
        (g : ℕ) → file_at (dup opened 0).1 g ≡ (if g == save then some tty else file_at opened g)
    copied g = file_at-dup opened 0 tty g opened_zero

    copied_fd : file_at (dup opened 0).1 fd ≡ some x
    copied_fd = ground (arith, copied fd, opened_lem fd, save_free)

    -- Standard input is the file, its copy what it was, and nothing else has changed.
    redirected :
        (g : ℕ)
        → file_at (redirect opened fd).1 g
          ≡ (if g == 0 then some x else if g == save then some tty else file_at t g)
    unfolding redirect
    redirected g = ground (
      arith,
      file_at-close (dup2 (dup opened 0).1 fd 0) fd g,
      file_at-dup2 (dup opened 0).1 fd 0 x g copied_fd,
      copied g,
      opened_lem g,
      fd-ne-zero,
      save_free,
      open_free t x,
    )

    restored :
        (g : ℕ)
        → file_at (restore (redirect opened fd).1 save) g ≡ (if g == 0 then some x else file_at t g)
    unfolding restore
    restored g =
        let after = file_at-dup2 (redirect opened fd).1 0 save x g (redirected 0) in
        ground (
          arith,
          file_at-close (dup2 (redirect opened fd).1 0 save) save g,
          after,
          redirected g,
          save_free,
        )

  wrapper_main_opens :
      (t : Table) (argc x : ℕ) (exec_ok : Bool)
      → 2 ≤ argc
      → wrapper_main t argc (some x) exec_ok ≡ (
          if exec_ok
          then becomes (redirect (open_file t x).1 (open_file t x).0).1
          else ends (pos 0) (
              restore (redirect (open_file t x).1 (open_file t x).0).1 (dup (open_file t x).1 0).0))
  unfolding wrapper_main
  wrapper_main_opens t argc x exec_ok h = let e : ltb argc 2 ≡ false = ground arith in simp e

  -- With a file that opens and a standard input that is open: if `execl` succeeds, the new program
  -- has the file as its standard input, the old input at one descriptor that was free, and all else
  -- as it was. If it fails, the wrapper means to take its input back but copies the wrong way: it
  -- ends with the file as its standard input, and all else as it was.
  pub wrapper_main_redirects :
      (t : Table) (argc x tty : ℕ)
      → 2 ≤ argc
      → file_at t 0 ≡ some tty
      → ((u : Table) × (wrapper_main t argc (some x) true ≡ becomes u)
          × (save_fd : ℕ) × (file_at t save_fd ≡ none)
          × ((g : ℕ)
              → file_at u g
                ≡ (if g == 0 then some x else if g == save_fd then some tty else file_at t g)))
        × ((u : Table) × (wrapper_main t argc (some x) false ≡ ends (pos 0) u)
            × ((g : ℕ) → file_at u g ≡ (if g == 0 then some x else file_at t g)))
  wrapper_main_redirects t argc x tty h stdin_open = (
    (
      _,
      wrapper_main_opens t argc x true h,
      save t x tty stdin_open,
      (save_free t x tty stdin_open).2,
      redirected t x tty stdin_open,
    ),
    (_, wrapper_main_opens t argc x false h, restored t x tty stdin_open),
  )

  -- What the program that the wrapper becomes shows; `contents` are the bytes of a file.
  abbrev pub shown : (ℕ → ℕ) → (ℕ → List ℕ) → Wrapped → Option (List ℕ)
  shown toupper contents (becomes u) =
      Option.map (λ x. upper_main toupper (contents x)) (file_at u 0)
  shown toupper contents (ends n u) = none

-- What follows the part that is shown: nothing, or the byte 255 and more.
abbrev pub EndsInput : List ℕ → Type 0
EndsInput [] = Unit
EndsInput (b ∷ bs) = b ≡ eof_char

upper_main-cut :
    (toupper : ℕ → ℕ) (bs rest : List ℕ)
    → NoEof bs
    → EndsInput rest
    → upper_main toupper (bs ++ rest) ≡ map toupper bs
unfolding upper_main
upper_main-cut toupper [] [] h e = refl
upper_main-cut toupper [] (b ∷ rest) h e =
    let same : (b == eof_char) ≡ true = ground arith in simp same
upper_main-cut toupper (b ∷ bs) rest (ne, h) e =
    let differs : (b == eof_char) ≡ false = ground arith in
    simp (differs, upper_main-cut toupper bs rest h e)

-- The two programs together, when the wrapper has a file that opens, its standard input is open
-- and `execl` succeeds: a file is shown in upper case, up to its end or to the first byte 255,
-- which 06upper.c takes for the end since it keeps the answer of `getchar` in a `char`.
pub wrapper_shows_upper :
    (k : Kernel) (toupper : ℕ → ℕ) (contents : ℕ → List ℕ) (t : Kernel.Table k) (argc x tty : ℕ)
    (bs rest : List ℕ)
    → 2 ≤ argc
    → Kernel.file_at k t 0 ≡ some tty
    → contents x ≡ bs ++ rest
    → NoEof bs
    → EndsInput rest
    → shown k toupper contents (wrapper_main k t argc (some x) true) ≡ some (map toupper bs)
wrapper_shows_upper k toupper contents t argc x tty bs rest h stdin_open e clean ends_there =
    let (u, runs, save_fd, free, at) = (wrapper_main_redirects k t argc x tty h stdin_open).0 in
    let stdin : Kernel.file_at k u 0 ≡ some x = at 0 in
    ap (shown k toupper contents) runs
    ∙ ap (Option.map (λ y. upper_main toupper (contents y))) stdin
    ∙ ap some (ap (upper_main toupper) e ∙ upper_main-cut toupper bs rest clean ends_there)
