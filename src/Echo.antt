-- ===== src/Echo.antt =====
-- The byte loop that the servers share, as 012_network_IO/01select/server.c has it: clear the
-- buffer, read, make upper case, write back. `toupper` of the C library is a parameter.
use linux_c_program_exercris.Prelude.{
  ℕ, zero, suc, ◌≡◌, refl, ap, List, [], ◌∷◌, ◌++◌, map, length, take, drop, replicate,
}

-- What `read` answers: the bytes (none at the end of the stream), or -1 with an error number.
pub data Read : Type 0 where
  received : List ℕ → Read
  read_error : ℕ → Read

-- Calls of a server on a descriptor. `write_failed` is a `write` with the length -1.
pub data Effect : Type 0 where
  wrote : ℕ → List ℕ → Effect
  write_failed : ℕ → Effect
  closed : ℕ → Effect

abbrev pub maxline : ℕ
maxline = 80

module _ (toupper : ℕ → ℕ) where
  -- `for (j = 0; j < n; j++) buf[j] = toupper(buf[j]);`
  unfoldable pub upper_loop : ℕ → List ℕ → List ℕ
  upper_loop zero buf = buf
  upper_loop (suc n) [] = []
  upper_loop (suc n) (b ∷ buf) = toupper b ∷ upper_loop n buf

  -- `bzero`, then `read` of `bytes` into the front of the buffer, the loop, and what `write` sends.
  unfoldable pub echo : ℕ → List ℕ → List ℕ
  unfolding upper_loop
  echo size bytes =
      take (length bytes)
        (upper_loop (length bytes) (bytes ++ drop (length bytes) (replicate size 0)))

  upper_loop-append :
      (bytes rest : List ℕ)
      → take (length bytes) (upper_loop (length bytes) (bytes ++ rest)) ≡ map toupper bytes
  unfolding upper_loop
  upper_loop-append [] rest = refl
  upper_loop-append (b ∷ bytes) rest = ap (◌∷◌ (toupper b)) (upper_loop-append bytes rest)

  -- What goes back is what came, in upper case, byte for byte.
  pub echo-map : (size : ℕ) (bytes : List ℕ) → echo size bytes ≡ map toupper bytes
  unfolding echo
  echo-map size bytes = upper_loop-append bytes _
