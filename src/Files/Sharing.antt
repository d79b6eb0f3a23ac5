-- ===== src/Files/Sharing.antt =====
-- 005_process_IPC/06mmap_map_private.c and 06mmap_map_shared.c: a number stored through a mapping
-- of a file. Bytes are little-endian. What becomes of the file, by its bytes and those in memory, is
-- a parameter.
use linux_c_program_exercris.Prelude.{
  ℕ, ◌/◌, ◌%◌, Bool, true, false, Option, none, some, List, [], ◌∷◌, ◌++◌, ℤ, pos, negsuc, length,
  drop,
}

pub data Sharing : Type 0 where
  map_private map_shared : Sharing

-- The length printed, the file afterwards, `none` if it did not open, and the status.
pub record Stored : Type 0 where
  pub file_len : ℤ
  pub file : Option (List ℕ)
  pub status : ℤ

abbrev pub number : ℕ
number = 808530483

-- The four bytes of an `int`.
unfoldable pub int_bytes : ℕ → List ℕ
int_bytes n = n % 256 ∷ n / 256 % 256 ∷ n / 65536 % 256 ∷ n / 16777216 % 256 ∷ []

-- `p[0] = n` in memory.
unfoldable pub store_int : ℕ → List ℕ → List ℕ
unfolding int_bytes
store_int n memory = int_bytes n ++ drop 4 memory

module _ (back : Sharing → List ℕ → List ℕ → List ℕ) where
  -- `opened` is the file, if it opens; the last argument is whether `mmap` succeeds.
  unfoldable pub mmap_main : Sharing → Option (List ℕ) → Bool → Stored
  unfolding store_int
  mmap_main sharing opened false = record {
    file_len = elim opened [ none ↦ negsuc 0 | some bs ↦ pos (length bs) ];
    file = opened;
    status = negsuc 1;
  }
  mmap_main sharing none true = record { file_len = negsuc 0; file = none; status = pos 0 }
  mmap_main sharing (some bs) true = record {
    file_len = pos (length bs);
    file = some (back sharing bs (store_int number bs));
    status = pos 0;
  }
