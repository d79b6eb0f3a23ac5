-- ===== src/Sockets/Client.antt =====
-- 012_network_IO/05unix_socket_domain/src/client.c: `main` of the client, around `cli_conn`. The
-- lines of the standard input and the answers of `read` come as lists; a line is its bytes.
use linux_c_program_exercris.Prelude.{
  ℤ, ℕ, zero, suc, ◌≡◌, refl, ap, ap₂, ◌∙◌, List, [], ◌∷◌, ◌++◌, arith, pos, negsuc, length, drop,
  append_assoc,
}
use linux_c_program_exercris.Sockets.Unix.{Answers, cli_conn}

-- The names that `perror` is given.
pub data Blamed : Type 0 where
  connect listen bind socket : Blamed

unfoldable pub report_conn : ℤ → List Blamed
report_conn (negsuc zero) = socket ∷ []
report_conn (negsuc (suc zero)) = bind ∷ []
report_conn (negsuc (suc (suc zero))) = listen ∷ []
report_conn (negsuc (suc (suc (suc zero)))) = connect ∷ []
report_conn _ = []

pub data ClientCall : Type 0 where
  writes : ℕ → List ℕ → ClientCall
  reads : ℕ → ClientCall
  prints : List ℕ → ClientCall
  closes : ℕ → ClientCall

-- What `buf` holds up to its first zero.
unfoldable pub text_of : List ℕ → List ℕ
text_of [] = []
text_of (zero ∷ bs) = []
text_of (suc b ∷ bs) = suc b ∷ text_of bs

-- What a call writes at the front of the buffer, whose rest stays.
unfoldable pub over : List ℕ → List ℕ → List ℕ
over bs buf = bs ++ drop (length bs) buf

-- The `while`, as far as the answers go; nothing clears the buffer. `fgets` ends its line with a
-- zero.
unfoldable pub talk : ℕ → List ℕ → List (List ℕ) → List (List ℕ) → List ClientCall
unfolding text_of over
talk fd buf [] answers = closes fd ∷ []
talk fd buf (l ∷ ls) [] = writes fd (text_of (over (l ++ (0 ∷ [])) buf)) ∷ reads fd ∷ []
talk fd buf (l ∷ ls) (r ∷ rs) =
    let line = over (l ++ (0 ∷ [])) buf in
    writes fd (text_of line)
    ∷ reads fd
    ∷ prints (text_of (over r line))
    ∷ talk fd (over r line) ls rs

-- The exit status is -1 where the connection fails. The buffer starts with what the stack holds.
unfoldable pub client_main :
    Answers → List ℕ → List (List ℕ) → List (List ℕ) → List Blamed × List ClientCall × ℤ
unfolding cli_conn talk report_conn
client_main a stack lines answers = elim (cli_conn a).value [
  | negsuc k ↦ (report_conn (negsuc k), [], negsuc 0)
  | pos fd ↦ ([], talk fd stack lines answers, pos 0)
]

abbrev pub all_written : List ClientCall → List (List ℕ)
all_written [] = []
all_written (writes fd bs ∷ cs) = bs ∷ all_written cs
all_written (reads fd ∷ cs) = all_written cs
all_written (prints bs ∷ cs) = all_written cs
all_written (closes fd ∷ cs) = all_written cs

abbrev pub all_printed : List ClientCall → List (List ℕ)
all_printed [] = []
all_printed (writes fd bs ∷ cs) = all_printed cs
all_printed (reads fd ∷ cs) = all_printed cs
all_printed (prints bs ∷ cs) = bs ∷ all_printed cs
all_printed (closes fd ∷ cs) = all_printed cs

-- The lines have no zero inside, and each answer is as long as the line it answers.
abbrev pub Answered : List (List ℕ) → List (List ℕ) → Type 0
Answered [] [] = Unit
Answered (l ∷ ls) (r ∷ rs) =
    (text_of l ≡ l) × (text_of r ≡ r) × (length r ≡ length l) × Answered ls rs
Answered _ _ = ⊥

drop_line :
    (r l rest : List ℕ) → length r ≡ length l → drop (length r) ((l ++ (0 ∷ [])) ++ rest) ≡ 0 ∷ rest
drop_line [] [] rest e = refl
drop_line [] (b ∷ l) rest e = absurd (omega arith)
drop_line (b ∷ r) [] rest e = absurd (omega arith)
drop_line (b ∷ r) (c ∷ l) rest e = drop_line r l rest (omega arith)

pub text_of-append : (r rest : List ℕ) → text_of (r ++ (0 ∷ rest)) ≡ text_of r
unfolding text_of
text_of-append [] rest = refl
text_of-append (zero ∷ r) rest = refl
text_of-append (suc b ∷ r) rest = ap (◌∷◌ (suc b)) (text_of-append r rest)

-- A server that answers each line with as many bytes, none of them zero, as the echo servers do:
-- the client sends every line, prints every answer and nothing else, in order, whatever the
-- buffer held before.
pub talk_prints_answers :
    (fd : ℕ) (buf : List ℕ) (ls rs : List (List ℕ))
    → Answered ls rs
    → (all_written (talk fd buf ls rs) ≡ ls) × (all_printed (talk fd buf ls rs) ≡ rs)
unfolding talk over
talk_prints_answers fd buf [] [] h = (refl, refl)
talk_prints_answers fd buf [] (r ∷ rs) h = elim h [ ]
talk_prints_answers fd buf (l ∷ ls) [] h = elim h [ ]
talk_prints_answers fd buf (l ∷ ls) (r ∷ rs) (el, er, len, h) =
    let (w, p) = talk_prints_answers fd (over r (over (l ++ (0 ∷ [])) buf)) ls rs h in
    let rest = drop (length (l ++ (0 ∷ []))) buf in
    (
      ap₂ ◌∷◌ (ap text_of (append_assoc l (0 ∷ []) rest) ∙ text_of-append l rest ∙ el) w,
      ap₂ ◌∷◌ (rw (drop_line r l rest len) (text_of-append r rest ∙ er)) p,
    )
