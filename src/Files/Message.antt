-- ===== src/Files/Message.antt =====
-- 005_process_IPC/07mmap_IPC: process_mmap_write.c and process_mmap_read.c, which share a text in a
-- mapped file. The setups are those of 08mmap_process but for the `unlink`.
use linux_c_program_exercris.Prelude.{
  ℕ, zero, suc, ◌-◌, ◌≡◌, ap, ◌∙◌, true, none, some, List, [], ◌∷◌, ◌++◌, append_assoc, ltb,
  if◌then◌else◌, negsuc,
}
use linux_c_program_exercris.Files.Mapped.{
  opens, closes_file, writes_at, maps, MapAnswers, Mapped, def_mmap_file_len, seek_end, lseek,
}
use linux_c_program_exercris.Sockets.Client.{text_of, over, text_of-append}

unfoldable pub writer_setup : MapAnswers → Mapped
writer_setup a =
    if a.open_ok
    then record {
      calls = opens ∷ writes_at (def_mmap_file_len - 1) ∷ maps def_mmap_file_len ∷ closes_file ∷ [];
      status = if a.mmap_ok then none else some (negsuc 1);
    }
    else record { calls = []; status = some (negsuc 0) }

unfoldable pub map_file : MapAnswers → ℕ → Mapped
map_file a size =
    if ltb size 1
    then record { calls = opens ∷ closes_file ∷ []; status = some (negsuc 1) }
    else record {
      calls = opens ∷ maps size ∷ closes_file ∷ [];
      status = if a.mmap_ok then none else some (negsuc 1);
    }

-- `lseek(fd_mmap_shared,SEEK_END,0)`, with its arguments as they stand.
unfoldable pub reader_setup : MapAnswers → Mapped
unfolding map_file lseek
reader_setup a =
    if a.open_ok
    then map_file a (lseek a.file_len seek_end 0)
    else record { calls = []; status = some (negsuc 0) }

module _ (format : ℕ → List ℕ) where
  -- "mmap_%d ".
  unfoldable pub message : ℕ → List ℕ
  message index = 109 ∷ 109 ∷ 97 ∷ 112 ∷ 95 ∷ format index ++ (32 ∷ [])

  -- The mapping after the first `n` rounds of the writer.
  unfoldable pub write_messages : ℕ → List ℕ → List ℕ
  unfolding message over
  write_messages zero buf = buf
  write_messages (suc n) buf = over (message n ++ (0 ∷ [])) (write_messages n buf)

  -- What the reader shows after each round is the whole message of that round, whatever the file
  -- held before, if the text of its number has no zero byte; and although the reader asks for two
  -- bytes only, whatever the file holds, it has both setups succeed when the calls do.
  pub message_shown :
      (n : ℕ) (buf : List ℕ) (a : MapAnswers)
      → text_of (message n) ≡ message n
      → a.open_ok ≡ true
      → a.mmap_ok ≡ true
      → (text_of (write_messages (suc n) buf) ≡ message n)
        × ((writer_setup a).status ≡ none)
        × ((reader_setup a).calls ≡ opens ∷ maps 2 ∷ closes_file ∷ [])
        × ((reader_setup a).status ≡ none)
  unfolding write_messages writer_setup reader_setup
  message_shown n buf a h o m = (
    ap text_of (append_assoc (message n) (0 ∷ []) _) ∙ text_of-append (message n) _ ∙ h,
    simp (o, m),
    simp (o, m),
    simp (o, m),
  )
