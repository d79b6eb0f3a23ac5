-- ===== src/Sockets/Names.antt =====
-- 012_network_IO/06other_network_function: 01gethostbyname.c and 02gethostbyaddr.c. A name is a
-- number here; what the resolver answers is a parameter, `none` for NULL.
use linux_c_program_exercris.Prelude.{
  ℕ, Option, none, some, List, [], ◌∷◌, ◌++◌, ltb, ◌==◌, if◌then◌else◌, ℤ, pos, negsuc,
}

pub record Host : Type 0 where
  pub h_name : ℕ
  pub h_aliases : List ℕ
  pub h_addrtype : ℕ
  pub h_addr_list : List ℕ

abbrev pub af_inet : ℕ
af_inet = 2

pub data Line : Type 0 where
  official alias address : ℕ → Line
  asks_argument unknown_type : Line

-- What is printed, and the value that `main` returns; `crashes` follows a NULL pointer.
pub data Looked : Type 0 where
  returns : List Line → ℤ → Looked
  crashes : Looked

-- `while (*list != NULL) printf(…, *list++)`.
unfoldable pub print_all : (ℕ → Line) → List ℕ → List Line
print_all line [] = []
print_all line (x ∷ xs) = line x ∷ print_all line xs

unfoldable pub print_addresses : Host → List Line
unfolding print_all
print_addresses h =
    if h.h_addrtype == af_inet then print_all address h.h_addr_list else unknown_type ∷ []

unfoldable pub print_host : Option Host → Looked
unfolding print_addresses
print_host none = crashes
print_host (some h) =
    returns (official h.h_name ∷ print_all alias h.h_aliases ++ print_addresses h) (pos 0)

-- `argc` and what the resolver answers to the name.
unfoldable pub by_name : ℕ → Option Host → Looked
unfolding print_host
by_name argc host = if ltb argc 2 then returns (asks_argument ∷ []) (negsuc 0) else print_host host

-- `inet_pton` makes an address of the argument, and the resolver looks that up.
unfoldable pub by_addr : ℕ → ℕ → (ℕ → ℕ) → (ℕ → Option Host) → Looked
unfolding print_host
by_addr argc text inet_pton resolve =
    if ltb argc 2
    then returns (asks_argument ∷ []) (negsuc 0)
    else print_host (resolve (inet_pton text))
