-- ===== src/Files/Copy.antt =====
-- 002_file/05myCopyFileProgram.c: the copy of a file. How many bytes a `read` returns, of those
-- that are left, and how many a `write` takes, of those that it is given, are the kernel's and
-- parameters; so is whether `open` succeeds. A `write` that fails takes none.
use linux_c_program_exercris.Prelude.{
  ℕ, zero, suc, ◌≤◌, ◌<◌, ◌≡◌, Bool, Option, none, some, List, [], ◌++◌, ltb, ◌==◌, if◌then◌else◌,
  ℤ, pos, negsuc, length, take, drop,
}

-- `8*1048`
abbrev pub buf_size : ℕ
buf_size = 8384

-- The exit status, `none` where the fuel ran out, and the contents of the destination, `none` where
-- it was not opened.
pub record Copied : Type 0 where
  pub status : Option ℤ
  pub dest : Option (List ℕ)

module _ (chunk : ℕ → ℕ) (takes : List ℕ → ℕ → ℕ) where
  -- The `while`, with fuel; the destination grows at its end by what the `write` takes, which the
  -- loop does not look at. `none` means that the fuel ran out.
  unfoldable pub copy_loop : ℕ → List ℕ → List ℕ → Option (List ℕ)
  copy_loop zero src dest = none
  copy_loop (suc fuel) src dest =
      let n = chunk (length src) in
      let rest = copy_loop fuel (drop n src) (dest ++ take (takes dest n) (take n src)) in
      if n == 0 then some dest else rest

  abbrev copied : Bool → Option (List ℕ) → Copied
  copied opened none = record { status = none; dest = none }
  copied opened (some dest) = record {
    status = some (pos 0);
    dest = if opened then some dest else none;
  }

  -- `argc`, the source as `open` finds it, and whether the destination opens: a write to -1 is lost,
  -- and the loop reads on.
  unfoldable pub copy_file : ℕ → Option (List ℕ) → Bool → Copied
  unfolding copy_loop
  copy_file argc source opened =
      if ltb argc 3 then record { status = some (negsuc 0); dest = none } else elim source [
        | none ↦ record { status = some (negsuc 1); dest = none }
        | some src ↦ copied opened (copy_loop (suc (length src)) src [])
      ]

  -- What `read` of a regular file promises: something, up to the buffer, while bytes are left.
  pub record IsRead : Type 0 where
    pub progress : (left : ℕ) → 0 < left → 0 < chunk left
    pub within : (left : ℕ) → chunk left ≤ left
    pub fits : (left : ℕ) → chunk left ≤ buf_size

  -- Every `write` takes all that it is given.
  abbrev pub IsWrite : Type 0
  IsWrite = (dest : List ℕ) (n : ℕ) → takes dest n ≡ n
