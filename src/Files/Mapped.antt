-- ===== src/Files/Mapped.antt =====
-- 005_process_IPC/08mmap_process: process_mmap_write.c and process_mmap_read.c, two programs that
-- share a structure in a mapped file. The answers of the system calls are a record, and the text
-- that `sprintf` makes of a number is a parameter.
use linux_c_program_exercris.Prelude.{
  ℕ, ◌+◌, ◌-◌, ◌%◌, ◌≡◌, refl, ◌↔◌, inl, inr, Bool, true, ◌&&◌, Option, none, some, List, [], ◌∷◌,
  ltb, ◌==◌, if◌then◌else◌, Bool-cases, ℤ, negsuc,
}

-- `struct struct_stu`.
pub record Student : Type 0 where
  pub id : ℕ
  pub name : List ℕ
  pub sex : ℕ

abbrev pub def_mmap_file_len : ℕ
def_mmap_file_len = 1280

pub data MapCall : Type 0 where
  opens closes_file : MapCall
  writes_at : ℕ → MapCall
  maps : ℕ → MapCall
  unlinks : MapCall

-- `true` where a call succeeds; `file_len` is the length of the file that `open` finds.
pub record MapAnswers : Type 0 where
  pub open_ok : Bool
  pub mmap_ok : Bool
  pub unlink_ok : Bool
  pub file_len : ℕ

-- The calls, and the exit status; `none` where the endless loop is reached.
pub record Mapped : Type 0 where
  pub calls : List MapCall
  pub status : Option ℤ

-- `lseek(fd, offset, whence)`, with SEEK_SET as 0 and SEEK_END as 2.
abbrev pub seek_end : ℕ
seek_end = 2

unfoldable pub lseek : ℕ → ℕ → ℕ → ℕ
lseek len offset whence = if whence == seek_end then len + offset else offset

unfoldable pub writer_setup : MapAnswers → Mapped
writer_setup a =
    if a.open_ok
    then record {
      calls = opens ∷ writes_at (def_mmap_file_len - 1) ∷ maps def_mmap_file_len ∷ closes_file ∷ [];
      status = if a.mmap_ok then none else some (negsuc 1);
    }
    else record { calls = []; status = some (negsuc 0) }

-- `lseek(fd_mmap_shared,SEEK_END,0)`: the two arguments as the program has them.
unfoldable pub reader_size : MapAnswers → ℕ
unfolding lseek
reader_size a = lseek a.file_len seek_end 0

-- The status of the reader once the file is mapped and closed: `unlink` is tested before the
-- mapping.
unfoldable pub reader_status : MapAnswers → Option ℤ
reader_status a =
    if a.unlink_ok then (if a.mmap_ok then none else some (negsuc 1)) else some (negsuc 2)

unfoldable pub reader_setup : MapAnswers → Mapped
unfolding reader_size reader_status
reader_setup a =
    if a.open_ok
    then (if ltb (reader_size a) 1
        then record { calls = opens ∷ closes_file ∷ []; status = some (negsuc 1) }
        else record {
          calls =
              opens
              ∷ maps (reader_size a)
              ∷ closes_file
              ∷ (if a.unlink_ok then unlinks ∷ [] else []);
          status = reader_status a;
        })
    else record { calls = []; status = some (negsuc 0) }

module _ (format : ℕ → List ℕ) where
  -- One round of the writer, at `Index`: "zhang-" and the number, then w or m.
  unfoldable pub write_student : ℕ → Student
  write_student index = record {
    id = index;
    name = 122 ∷ 104 ∷ 97 ∷ 110 ∷ 103 ∷ 45 ∷ format index;
    sex = if index % 2 == 0 then 109 else 119;
  }

-- The reader passes its arguments to `lseek` in the wrong order: if it can open the file it asks
-- for a mapping of two bytes, whatever the length of the file, an empty one included, and closes
-- the file; it then shows the structure exactly if the file can be unlinked and the mapping has
-- succeeded.
pub reader_maps_two :
    (a : MapAnswers)
    → a.open_ok ≡ true
    → ((reader_setup a).calls
        ≡ opens ∷ maps 2 ∷ closes_file ∷ (if a.unlink_ok then unlinks ∷ [] else []))
      × (((reader_setup a).status ≡ none) ↔ ((a.unlink_ok && a.mmap_ok) ≡ true))
unfolding reader_setup
reader_maps_two a h = simp h (refl, shown)
  where
    shown : (reader_status a ≡ none) ↔ ((a.unlink_ok && a.mmap_ok) ≡ true)
    shown = elim (Bool-cases a.unlink_ok) [
      | inr u ↦ simp u ((λ e. cc), (λ e. cc))
      | inl u ↦ elim (Bool-cases a.mmap_ok) [
        | inr k ↦ simp (u, k) ((λ e. cc), (λ e. cc))
        | inl k ↦ simp (u, k) ((λ e. refl), (λ e. refl))
      ]
    ]
