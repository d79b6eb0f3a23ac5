-- ===== src/Files/Shared.antt =====
-- 005_process_IPC/08mmap_process: what the reader shows while the writer is at work. The two have
-- no lock: a round of the writer is a list of stores, and the reader may look between any two.
use linux_c_program_exercris.Prelude.{
  ℕ, zero, suc, ◌+◌, ◌≤◌, ◌≡◌, refl, ap, ◌∙◌, true, List, [], ◌∷◌, ◌++◌, append_assoc, arith, ltb,
  ◌==◌, if◌then◌else◌, length, set, take, drop, length-append, length-set, sym, ◌≢◌, inl, inr,
  Bool-cases, take_all,
}
use linux_c_program_exercris.Files.Mapped.{Student, write_student}
use linux_c_program_exercris.Sockets.Client.{text_of, text_of-append}

-- `char name[20]`, with `sex` behind it.
abbrev pub name_size : ℕ
name_size = 20

pub data Store : Type 0 where
  put_id : ℕ → Store
  put_name : ℕ → ℕ → Store  -- index and byte
  put_sex : ℕ → Store

-- A byte past the name goes into `sex`, one further into the padding.
unfoldable pub store : Store → Student → Student
store (put_id n) m = record m { id = n }
store (put_name i b) m =
    if ltb i name_size
    then record m { name = set m.name i b }
    else if i == name_size
    then record m { sex = b }
    else m
store (put_sex c) m = record m { sex = c }

unfoldable pub stores : List Store → Student → Student
unfolding store
stores [] m = m
stores (s ∷ ss) m = stores ss (store s m)

-- `sprintf` into the name, from an index on.
unfoldable pub put_bytes : ℕ → List ℕ → List Store
put_bytes i [] = []
put_bytes i (b ∷ bs) = put_name i b ∷ put_bytes (i + 1) bs

-- `printf` of the structure: the name up to its zero.
unfoldable pub show_student : Student → Student
show_student m = record m { name = text_of m.name }

module _ (format : ℕ → List ℕ) where
  abbrev pub name_bytes : ℕ → List ℕ
  name_bytes index = (write_student format index).name ++ (0 ∷ [])

  -- A round of the writer, and all rounds before the one with number `n`.
  unfoldable pub round_stores : ℕ → List Store
  unfolding put_bytes write_student
  round_stores index =
      put_id index ∷ put_bytes 0 (name_bytes index)
      ++ (put_sex (write_student format index).sex ∷ [])

  unfoldable pub writer_stores : ℕ → List Store
  unfolding round_stores
  writer_stores zero = []
  writer_stores (suc n) = writer_stores n ++ round_stores n

set-append :
    (pre : List ℕ) (i b c : ℕ) (rest : List ℕ)
    → i ≡ length pre
    → set (pre ++ (c ∷ rest)) i b ≡ (pre ++ (b ∷ [])) ++ rest
set-append [] zero b c rest e = refl
set-append [] (suc i) b c rest e = absurd (omega arith)
set-append (p ∷ pre) zero b c rest e = absurd (omega arith)
set-append (p ∷ pre) (suc i) b c rest e = ap (◌∷◌ p) (set-append pre i b c rest (omega arith))

-- The first `k` bytes of a text that fits: they stand in front of what was there.
stores-put_bytes :
    (k i : ℕ) (l pre rest : List ℕ) (m : Student)
    → m.name ≡ pre ++ rest
    → i ≡ length pre
    → i + length l ≤ name_size
    → length m.name ≡ name_size
    → k ≤ length l
    → stores (take k (put_bytes i l)) m ≡ record m { name = pre ++ (take k l ++ drop k rest) }
unfolding stores put_bytes
stores-put_bytes zero i l pre rest m e p fits size h = ap (λ n. record m { name = n }) e
stores-put_bytes (suc k) i [] pre rest m e p fits size h = absurd (omega arith)
stores-put_bytes (suc k) i (b ∷ l) pre [] m e p fits size h =
    absurd (omega (arith, ap length e, length-append pre []))
stores-put_bytes (suc k) i (b ∷ l) pre (c ∷ rest) m e p fits size h =
    let below : ltb i name_size ≡ true = ground arith in
    let written : set m.name i b ≡ (pre ++ (b ∷ [])) ++ rest = rw e (set-append pre i b c rest p) in
    rw below (
      stores-put_bytes k (i + 1) l (pre ++ (b ∷ [])) rest (record m { name = set m.name i b })
        written (omega (arith, p, length-append pre (b ∷ []))) (omega arith)
        (length-set m.name i b ∙ size) (omega arith)
      ∙ ap (λ n. record m { name = n }) (append_assoc pre (b ∷ []) (take k l ++ drop k rest)))

length-put_bytes : (i : ℕ) (l : List ℕ) → length (put_bytes i l) ≡ length l
unfolding put_bytes
length-put_bytes i [] = refl
length-put_bytes i (b ∷ l) = ap suc (length-put_bytes (i + 1) l)

take-append_le : {A : Type 0} (k : ℕ) (a b : List A) → k ≤ length a → take k (a ++ b) ≡ take k a
take-append_le zero a b h = refl
take-append_le (suc k) [] b h = absurd (omega arith)
take-append_le (suc k) (x ∷ a) b h = ap (◌∷◌ x) (take-append_le k a b (omega arith))

stores-append : (a b : List Store) (m : Student) → stores (a ++ b) m ≡ stores b (stores a m)
unfolding stores
stores-append [] b m = refl
stores-append (s ∷ a) b m = stores-append a b (store s m)

store-size : (s : Store) (m : Student) → length (store s m).name ≡ length m.name
unfolding store
store-size (put_id n) m = refl
store-size (put_name i b) m = elim (Bool-cases (ltb i name_size)) [
  | inl inside ↦ simp inside (length-set m.name i b)
  | inr past ↦ simp past (ground arith)
]
store-size (put_sex c) m = refl

stores-size : (ss : List Store) (m : Student) → length (stores ss m).name ≡ length m.name
unfolding stores
stores-size [] m = refl
stores-size (s ∷ ss) m = stores-size ss (store s m) ∙ store-size s m

module _ (format : ℕ → List ℕ) where
  -- A number that leaves room for the zero.
  abbrev pub Fits : ℕ → Type 0
  Fits n = length (name_bytes format n) ≤ name_size

  -- A round begun: the number, and `k` bytes of the name.
  begun :
      (n k : ℕ) (m : Student)
      → Fits n
      → length m.name ≡ name_size
      → k ≤ length (name_bytes format n)
      → stores (put_id n ∷ take k (put_bytes 0 (name_bytes format n))) m
        ≡ record { id = n; name = take k (name_bytes format n) ++ drop k m.name; sex = m.sex }
  unfolding stores
  begun n k m fits size h =
      stores-put_bytes k 0 (name_bytes format n) [] m.name (record m { id = n }) refl refl
        (omega (arith, fits)) size h

  -- A whole round.
  round-stores :
      (n : ℕ) (m : Student)
      → Fits n
      → length m.name ≡ name_size
      → stores (round_stores format n) m ≡ record {
        id = n;
        name = name_bytes format n ++ drop (length (name_bytes format n)) m.name;
        sex = (write_student format n).sex;
      }
  unfolding round_stores
  round-stores n m fits size =
      let l = name_bytes format n in
      let all : take (length l) (put_bytes 0 l) ≡ put_bytes 0 l =
        take_all (length l) (put_bytes 0 l) (omega (arith, length-put_bytes 0 l)) in
      let written = begun n (length l) m fits size (omega arith) in
      stores-append (put_id n ∷ put_bytes 0 l) (put_sex (write_student format n).sex ∷ []) m
      ∙ ap (stores (put_sex (write_student format n).sex ∷ []))
          (ap (λ ss. stores (put_id n ∷ ss) m) (sym all) ∙ written)
      ∙ unfold stores in
        ap
          (λ t. record {
            id = n;
            name = t ++ drop (length l) m.name;
            sex = (write_student format n).sex;
          })
          (take_all (length l) l (omega arith))

  name-text :
      (n : ℕ) (rest : List ℕ)
      → text_of (format n) ≡ format n
      → text_of (name_bytes format n ++ rest) ≡ (write_student format n).name
  unfolding write_student text_of
  name-text n rest h =
      ap (λ l. 122 ∷ 104 ∷ 97 ∷ 110 ∷ 103 ∷ 45 ∷ l)
        (ap text_of (append_assoc (format n) (0 ∷ []) rest) ∙ text_of-append (format n) rest ∙ h)

  -- A prefix of a round that has not got to the sex.
  begun_round :
      (n k : ℕ)
      → k ≤ length (name_bytes format n)
      → take (suc k) (round_stores format n) ≡ put_id n ∷ take k (put_bytes 0 (name_bytes format n))
  unfolding round_stores
  begun_round n k h = ap (◌∷◌ (put_id n)) (
      take-append_le k (put_bytes 0 (name_bytes format n)) _
        (omega (arith, length-put_bytes 0 (name_bytes format n))))

  sex-alternates : (n : ℕ) → (write_student format n).sex ≢ (write_student format (suc n)).sex
  unfolding write_student
  sex-alternates n e = ground arith

  -- Between two rounds the reader shows the structure of the last one, whole, if the text of its
  -- number has no zero byte and leaves room for one in the 20 bytes of the name. Within a round it
  -- may show a mixture: after its first store and `k` more, the new number, the first bytes of the new name with the old name behind
  -- them, and still the old sex, which is never that of the new number.
  pub student_whole_or_torn :
      (m : Student) (n k : ℕ)
      → length m.name ≡ name_size
      → text_of (format n) ≡ format n
      → Fits n
      → Fits (suc n)
      → k ≤ length (name_bytes format (suc n))
      → let whole = stores (writer_stores format (suc n)) m in
        let torn = stores (take (suc k) (round_stores format (suc n))) whole in
        (show_student whole ≡ write_student format n)
        × (torn.id ≡ suc n)
        × (torn.name ≡ take k (name_bytes format (suc n)) ++ drop k whole.name)
        × (torn.sex ≡ (write_student format n).sex)
        × (torn.sex ≢ (write_student format (suc n)).sex)
  unfolding show_student writer_stores
  student_whole_or_torn m n k size text fits next h =
      let before = stores (writer_stores format n) m in
      let sized = stores-size (writer_stores format n) m ∙ size in
      let e =
        stores-append (writer_stores format n) (round_stores format n) m
        ∙ round-stores n before fits sized in
      let whole = stores (writer_stores format (suc n)) m in
      let t =
        ap (λ ss. stores ss whole) (begun_round (suc n) k h)
        ∙ begun (suc n) k whole next (stores-size (writer_stores format (suc n)) m ∙ size) h in
      let old : whole.sex ≡ (write_student format n).sex = ap (λ (u : Student). u.sex) e in
      let now = ap (λ (u : Student). u.sex) t ∙ old in
      (
        ap (λ (u : Student). record u { name = text_of u.name }) e
            ∙ unfold write_student in
              ap (λ l. record { id = n; name = l; sex = (write_student format n).sex })
                (name-text n _ text),
        ap (λ (u : Student). u.id) t,
        ap (λ (u : Student). u.name) t,
        now,
        λ same. sex-alternates n (sym now ∙ same),
      )
