-- ===== src/Files/Stat.antt =====
-- 003_fileSystem/01stat.c: the text that shows the type and the rights of a file. A mode is a
-- number, a character its code.
use linux_c_program_exercris.Prelude.{
  ℕ, ◌*◌, ◌/◌, ◌%◌, zero, suc, ◌+◌, ◌≤◌, ◌<◌, ◌≡◌, false, Option, none, some, List, [], ◌∷◌, arith,
  ltb, ◌==◌, if◌then◌else◌, ℤ, pos, negsuc,
}

-- `m & S_IFMT`, in units of its lowest bit, and `m & S_IRWXU`.
unfoldable pub file_type : ℕ → ℕ
file_type m = (m / 4096) % 16

unfoldable pub user_bits : ℕ → ℕ
user_bits m = (m / 64) % 8 * 64

-- `x | b`, for a `b` that is one bit.
unfoldable pub or_bit : ℕ → ℕ → ℕ
or_bit x b = if (x / b) % 2 == 1 then x else x + b

abbrev pub s_irusr : ℕ
s_irusr = 256

abbrev pub s_iwusr : ℕ
s_iwusr = 128

abbrev pub s_ixusr : ℕ
s_ixusr = 64

-- The `switch`: b c d F l - s, and u for any other.
unfoldable pub type_char : ℕ → ℕ
type_char t =
    if t == 6
    then 98
    else if t == 2
    then 99
    else if t == 4
    then 100
    else if t == 1
    then 70
    else if t == 10
    then 108
    else if t == 8
    then 45
    else if t == 12
    then 115
    else 117

-- `if(m & S_IRWXU | b)`: `&` binds stronger, and the test is whether the result is not 0.
unfoldable pub right_char : ℕ → ℕ → ℕ → ℕ
unfolding user_bits or_bit
right_char m b c = if or_bit (user_bits m) b == 0 then 45 else c

unfoldable pub access_text : ℕ → List ℕ
unfolding file_type type_char right_char
access_text m =
    58
    ∷ type_char (file_type m)
    ∷ right_char m s_irusr 114
    ∷ right_char m s_iwusr 119
    ∷ right_char m s_ixusr 120
    ∷ []

-- The exit status, and what is shown. `none` is a `stat` that fails.
unfoldable pub stat_main : ℕ → Option ℕ → ℤ × Option (List ℕ)
unfolding access_text
stat_main argc found =
    if ltb argc 2
    then (negsuc 0, none)
    else elim found [ none ↦ (negsuc 1, none) | some m ↦ (pos 0, some (access_text m)) ]

or_bit-nonzero : (x b : ℕ) → 0 < b → (or_bit x b == 0) ≡ false
unfolding or_bit
or_bit-nonzero zero b h = ground arith
or_bit-nonzero (suc x) b h = ground arith

-- Whatever the rights of the file are, the program shows r, w and x, after the letter of its type:
-- the mask is joined with the bit of the right where it was to be intersected with it.
pub stat_main_shows_rwx :
    (argc m : ℕ)
    → 2 ≤ argc
    → stat_main argc (some m) ≡ (pos 0, some (58 ∷ type_char (file_type m) ∷ 114 ∷ 119 ∷ 120 ∷ []))
unfolding stat_main
stat_main_shows_rwx argc m h =
    let enough : ltb argc 2 ≡ false = ground arith in
    simp (
      enough,
      or_bit-nonzero (user_bits m) s_irusr (omega arith),
      or_bit-nonzero (user_bits m) s_iwusr (omega arith),
      or_bit-nonzero (user_bits m) s_ixusr (omega arith),
    )
