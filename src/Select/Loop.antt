-- ===== src/Select/Loop.antt =====
-- 012_network_IO/01select/server.c: the endless loop, along any list of rounds.
use linux_c_program_exercris.Prelude.{ℕ, ◌≡◌, ◌⊎◌, List, [], ◌∷◌, ◌++◌, pos, negsuc, ◌≤◌, length}
use linux_c_program_exercris.Select.Defs.{
  Server, Round, Outcome, running, exits, fault, round, fd_setsize,
}
use linux_c_program_exercris.Select.Serve.{IsWatched, Answers}
use linux_c_program_exercris.Echo.{Effect}

abbrev pub with_calls : List Effect → Outcome → Outcome
with_calls calls (running s more) = running s (calls ++ more)
with_calls calls (exits n) = exits n
with_calls calls fault = fault

-- The next rounds, after one.
abbrev pub go_on : Outcome → (Server → Outcome) → Outcome
go_on (running t calls) next = with_calls calls (next t)
go_on (exits n) next = exits n
go_on fault next = fault

-- `accept` failed, or gave a descriptor that the set has no room for.
abbrev pub Overruns : Round → Type 0
Overruns r =
    ((k : ℕ) × (r.connfd ≡ negsuc k)) ⊎ ((fd : ℕ) × (r.connfd ≡ pos fd) × (fd_setsize ≤ fd))

abbrev pub SomeOverruns : List Round → Type 0
SomeOverruns [] = ⊥
SomeOverruns (r ∷ rs) = Overruns r ⊎ SomeOverruns rs

-- A well-formed table, of which the loop visits only slots that there are.
pub record InBounds (s : Server) : Type 0 where
  pub table : IsWatched s
  pub visited : s.maxi ≤ length s.client

-- A server goes on with a well-formed table, exits with -2, or leaves the set.
abbrev pub GoesOn : List Round → Outcome → Type 0
GoesOn rs (running t calls) = InBounds t
GoesOn rs (exits n) = n ≡ negsuc 1
GoesOn rs fault = SomeOverruns rs

module _ (toupper : ℕ → ℕ) where
  -- `while(1)`, as far as the answers of the kernel go.
  unfoldable pub serve : Server → List Round → Outcome
  serve s [] = running s []
  serve s (r ∷ rs) = go_on (round toupper r s) (λ t. serve t rs)

  -- What the kernel promises in a round.
  pub record Promised (s : Server) (r : Round) : Type 0 where
    pub nready : ℕ
    pub answers : Answers toupper s r nready

  -- The kernel keeps its promise in every round that is reached.
  abbrev pub AllPromised : Server → List Round → Type 0
  AllPromised s [] = Unit
  AllPromised s (r ∷ rs) =
      Promised s r
      × ((t : Server) (calls : List Effect)
          → round toupper r s ≡ running t calls
          → AllPromised t rs)

  -- A round raises the number of slots to visit no further than to the slot that it has given.
  abbrev Visits : ℕ → Outcome → Type 0
  Visits m (running t calls) = t.maxi ≤ m
  Visits m (exits n) = Unit
  Visits m fault = Unit
