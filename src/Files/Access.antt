-- ===== src/Files/Access.antt =====
-- 002_file/01myOpen.c, 02myWrite.c, 04myRead.c and 08lseek.c, 005_process_IPC/03fifo_read.c and
-- 03fifo_write.c: programs that open a file, use it and close it. What `open` answers is a number,
-- negative where it fails; `write_ok` tells whether a `write` succeeds.
use linux_c_program_exercris.Prelude.{
  ℕ, ℤ, ◌≡◌, refl, inl, inr, Bool, true, false, List, [], ◌∷◌, ◌++◌, arith, ltb, ◌==◌,
  if◌then◌else◌, Bool-cases, pos, negsuc, replicate,
}
use linux_c_program_exercris.Echo.{Read, received, read_error}
use linux_c_program_exercris.Sockets.Client.{text_of, over}

pub data FileCall : Type 0 where
  opens closes : ℤ → FileCall
  writes shows_text : List ℕ → FileCall
  seeks shows_size : ℕ → FileCall

pub record Ran : Type 0 where
  pub calls : List FileCall
  pub status : ℤ

-- `if( -1 == 0)`: an `open` that fails is not noticed, here and in the next two.
unfoldable pub my_open : ℕ → ℤ → Ran
my_open argc fd =
    if ltb argc 2
    then record { calls = []; status = negsuc 1 }
    else record { calls = opens fd ∷ closes fd ∷ []; status = pos 0 }

unfoldable pub my_write : ℕ → ℤ → List ℕ → Bool → Ran
my_write argc fd text write_ok =
    if ltb argc 2
    then record { calls = []; status = negsuc 1 }
    else if write_ok
    then record { calls = opens fd ∷ writes text ∷ closes fd ∷ []; status = pos 0 }
    else record { calls = opens fd ∷ closes fd ∷ []; status = negsuc 2 }

-- The buffer is zeros and then the bytes read; `printf` shows it up to a zero.
unfoldable pub after_read : ℕ → ℤ → Read → ℤ → Ran
unfolding text_of over
after_read size fd (received bs) failed = record {
  calls = opens fd ∷ shows_text (text_of (over bs (replicate size 0))) ∷ closes fd ∷ [];
  status = pos 0;
}
after_read size fd (read_error e) failed = record {
  calls = opens fd ∷ closes fd ∷ [];
  status = failed;
}

unfoldable pub my_read : ℕ → ℤ → Read → Ran
unfolding after_read
my_read argc fd answer =
    if ltb argc 2
    then record { calls = []; status = negsuc 1 }
    else after_read 4096 fd answer (negsuc 2)

unfoldable pub size_of_abc : List FileCall → ℤ → ℕ → Ran
size_of_abc calls (negsuc k) size = record { calls = calls; status = negsuc 3 }
size_of_abc calls (pos fd) size = record {
  calls = calls ++ (opens (pos fd) ∷ shows_size size ∷ closes (pos fd) ∷ []);
  status = pos 0;
}

-- `hello`, and the position that it goes to.
unfoldable pub extend : ℤ → Bool → ℤ → ℕ → Ran
unfolding size_of_abc
extend (negsuc k) write_ok abc size = record {
  calls = opens (negsuc k) ∷ closes (negsuc k) ∷ [];
  status = negsuc 1;
}
extend (pos fd) false abc size = record {
  calls = opens (pos fd) ∷ seeks 4096 ∷ closes (pos fd) ∷ [];
  status = negsuc 2;
}
extend (pos fd) true abc size =
    size_of_abc
      (opens (pos fd)
        ∷ seeks 4096
        ∷ writes (104 ∷ 101 ∷ 108 ∷ 108 ∷ 111 ∷ 0 ∷ [])
        ∷ closes (pos fd)
        ∷ [])
      abc size

-- `abc` and `size` are the answers to the second `open` and to the `lseek` on it.
unfoldable pub lseek_main : ℕ → ℤ → Bool → ℤ → ℕ → Ran
unfolding extend
lseek_main argc fd write_ok abc size =
    if ltb argc 1 then record { calls = []; status = negsuc 0 } else extend fd write_ok abc size

unfoldable pub fifo_read_from : ℤ → Read → Ran
unfolding after_read
fifo_read_from (negsuc k) answer = record { calls = []; status = negsuc 1 }
fifo_read_from (pos fd) answer = after_read 4096 (pos fd) answer (negsuc 2)

unfoldable pub fifo_read : ℕ → ℤ → Read → Ran
unfolding fifo_read_from
fifo_read argc fd answer =
    if ltb argc 2 then record { calls = []; status = negsuc 0 } else fifo_read_from fd answer

unfoldable pub fifo_write_to : ℤ → List ℕ → Bool → Ran
fifo_write_to (negsuc k) text write_ok = record { calls = []; status = negsuc 1 }
fifo_write_to (pos fd) text write_ok =
    if write_ok
    then record {
      calls = opens (pos fd) ∷ writes (text ++ (0 ∷ [])) ∷ closes (pos fd) ∷ [];
      status = pos 0;
    }
    else record { calls = opens (pos fd) ∷ closes (pos fd) ∷ []; status = negsuc 2 }

unfoldable pub fifo_write : ℕ → ℤ → List ℕ → Bool → Ran
unfolding fifo_write_to
fifo_write argc fd text write_ok =
    if ltb argc 2 then record { calls = []; status = negsuc 0 } else fifo_write_to fd text write_ok

-- The descriptors that are open after the calls, the last opened first; a `close` of another number
-- is an error of the kernel and changes nothing.
abbrev pub remove : ℕ → List ℕ → List ℕ
remove f [] = []
remove f (g ∷ gs) = if f == g then gs else g ∷ remove f gs

abbrev pub still_open : List ℕ → List FileCall → List ℕ
still_open fs [] = fs
still_open fs (opens (pos f) ∷ cs) = still_open (f ∷ fs) cs
still_open fs (opens (negsuc k) ∷ cs) = still_open fs cs
still_open fs (closes (pos f) ∷ cs) = still_open (remove f fs) cs
still_open fs (closes (negsuc k) ∷ cs) = still_open fs cs
still_open fs (writes bs ∷ cs) = still_open fs cs
still_open fs (shows_text bs ∷ cs) = still_open fs cs
still_open fs (seeks n ∷ cs) = still_open fs cs
still_open fs (shows_size n ∷ cs) = still_open fs cs

-- A program leaves no descriptor open.
abbrev pub IsClean : Ran → Type 0
IsClean r = still_open [] r.calls ≡ []

once : (f : ℕ) → remove f (f ∷ []) ≡ []
once f = ground arith

my_open-IsClean : (argc : ℕ) (fd : ℤ) → IsClean (my_open argc fd)
unfolding my_open
my_open-IsClean argc (pos f) = ground (arith, once f)
my_open-IsClean argc (negsuc k) = ground arith

my_write-IsClean :
    (argc : ℕ) (fd : ℤ) (text : List ℕ) (b : Bool) → IsClean (my_write argc fd text b)
unfolding my_write
my_write-IsClean argc (pos f) text b = ground arith
my_write-IsClean argc (negsuc k) text b = ground arith

after_read-IsClean :
    (size : ℕ) (fd : ℤ) (answer : Read) (failed : ℤ) → IsClean (after_read size fd answer failed)
unfolding after_read
after_read-IsClean size (pos f) (received bs) failed = once f
after_read-IsClean size (negsuc k) (received bs) failed = refl
after_read-IsClean size (pos f) (read_error e) failed = once f
after_read-IsClean size (negsuc k) (read_error e) failed = refl

my_read-IsClean : (argc : ℕ) (fd : ℤ) (answer : Read) → IsClean (my_read argc fd answer)
unfolding my_read
my_read-IsClean argc fd answer = elim (Bool-cases (ltb argc 2)) [
  | inl few ↦ simp few
  | inr enough ↦ simp enough (after_read-IsClean 4096 fd answer (negsuc 2))
]

extend-IsClean : (fd : ℤ) (b : Bool) (abc : ℤ) (size : ℕ) → IsClean (extend fd b abc size)
unfolding extend
extend-IsClean (negsuc k) b abc size = refl
extend-IsClean (pos f) false abc size = once f
extend-IsClean (pos f) true (negsuc k) size = once f
extend-IsClean (pos f) true (pos g) size = ground (arith, once f, once g)

lseek_main-IsClean :
    (argc : ℕ) (fd : ℤ) (b : Bool) (abc : ℤ) (size : ℕ) → IsClean (lseek_main argc fd b abc size)
unfolding lseek_main
lseek_main-IsClean argc fd b abc size = elim (Bool-cases (ltb argc 1)) [
  | inl few ↦ simp few
  | inr enough ↦ simp enough (extend-IsClean fd b abc size)
]

fifo_read-IsClean : (argc : ℕ) (fd : ℤ) (answer : Read) → IsClean (fifo_read argc fd answer)
unfolding fifo_read
fifo_read-IsClean argc (negsuc k) answer = ground arith
fifo_read-IsClean argc (pos f) answer = elim (Bool-cases (ltb argc 2)) [
  | inl few ↦ simp few
  | inr enough ↦ simp enough (after_read-IsClean 4096 (pos f) answer (negsuc 2))
]

fifo_write-IsClean :
    (argc : ℕ) (fd : ℤ) (text : List ℕ) (b : Bool) → IsClean (fifo_write argc fd text b)
unfolding fifo_write
fifo_write-IsClean argc (negsuc k) text b = ground arith
fifo_write-IsClean argc (pos f) text b = ground arith

-- Whatever the arguments are and whichever calls fail, each of the six programs ends with no
-- descriptor open that it opened.
pub programs_close :
    (argc : ℕ) (fd abc : ℤ) (text : List ℕ) (answer : Read) (write_ok : Bool) (size : ℕ)
    → IsClean (my_open argc fd)
      × IsClean (my_write argc fd text write_ok)
      × IsClean (my_read argc fd answer)
      × IsClean (lseek_main argc fd write_ok abc size)
      × IsClean (fifo_read argc fd answer)
      × IsClean (fifo_write argc fd text write_ok)
programs_close argc fd abc text answer write_ok size = (
  my_open-IsClean argc fd,
  my_write-IsClean argc fd text write_ok,
  my_read-IsClean argc fd answer,
  lseek_main-IsClean argc fd write_ok abc size,
  fifo_read-IsClean argc fd answer,
  fifo_write-IsClean argc fd text write_ok,
)
