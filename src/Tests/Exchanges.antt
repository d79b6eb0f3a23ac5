-- ===== src/Tests/Exchanges.antt =====
-- A client of the select server.
use linux_c_program_exercris.Prelude.{
  ℕ, ◌≡◌, some, false, List, [], ◌∷◌, ◌++◌, map, arith, pos, Bool,
}
use linux_c_program_exercris.Tests.Network.{upper}
use linux_c_program_exercris.Echo.{received}
use linux_c_program_exercris.Sockets.Client.{text_of}
use linux_c_program_exercris.Sockets.Clients.{arriving, shown}
use linux_c_program_exercris.Select.Client.{line_client, replies, sends, select_exchange}
use linux_c_program_exercris.Tests.Select.{bytes}

abbrev hi : List ℕ
hi = 104 ∷ 105 ∷ []

-- A line with a zero inside.
abbrev lines : List (List ℕ)
lines = hi ∷ (97 ∷ 0 ∷ 98 ∷ []) ∷ []

abbrev nothing_watched : ℕ → Bool
nothing_watched f = false

select_exchange_example :
    let answers = arriving 5 (replies upper bytes 5 nothing_watched (sends lines)) in
    (shown (line_client 4 [] lines answers).0 ≡ map (λ l. map upper (text_of l)) lines)
    × (arriving 4 (line_client 4 [] lines answers).0 ≡ sends lines ++ (received [] ∷ []))
    × ((line_client 4 [] lines answers).1 ≡ some (pos 0))
unfolding text_of
select_exchange_example =
    select_exchange upper bytes 4 5 nothing_watched [] lines (λ e. omega arith)
      (λ e. cc, (λ e. cc, tt))
