-- ===== src/Sockets/Multicast.antt =====
-- 012_network_IO/04udp_broadcast: the sender src/01server.c and the receiver src/01client.c, from
-- their loops on. `none` is an `fgets` at the end of the input.
use linux_c_program_exercris.Prelude.{
  ℕ, zero, suc, ◌<◌, ◌≡◌, refl, ap, ap₂, ◌∙◌, Option, none, some, List, [], ◌∷◌, ◌++◌, map,
  append_assoc, arith, length, take, take_all, replicate,
}
use linux_c_program_exercris.Echo.{received, Effect, wrote}
use linux_c_program_exercris.Sockets.Client.{text_of, over, text_of-append}
use linux_c_program_exercris.Sockets.Clients.{show_answer, stdout}

abbrev pub buf_size : ℕ
buf_size = 1024

abbrev pub receive_size : ℕ
receive_size = 1500

-- The buffer after `bzero` and `fgets`, which ends its line with a zero.
unfoldable pub line_buffer : Option (List ℕ) → List ℕ
unfolding over
line_buffer none = replicate buf_size 0
line_buffer (some l) = over (l ++ (0 ∷ [])) (replicate buf_size 0)

-- A round sends what stands in the buffer up to its zero, at the end of the input as well.
unfoldable pub multicast : List (Option (List ℕ)) → List (List ℕ)
unfolding line_buffer text_of
multicast [] = []
multicast (l ∷ ls) = text_of (line_buffer l) ∷ multicast ls

-- The receiver shows each datagram, as much of it as its buffer takes.
unfoldable pub receive : List (List ℕ) → List Effect
unfolding show_answer
receive [] = []
receive (d ∷ ds) = show_answer (received (take receive_size d)) ∷ receive ds

-- Lines as `fgets` leaves them: no zero inside, and room for one behind.
abbrev pub AreLines : List (List ℕ) → Type 0
AreLines [] = Unit
AreLines (l ∷ ls) = (text_of l ≡ l) × (length l < buf_size) × AreLines ls

line_text : (l : List ℕ) → text_of l ≡ l → text_of (line_buffer (some l)) ≡ l
unfolding line_buffer
line_text l e = ap text_of (append_assoc l (0 ∷ []) _) ∙ text_of-append l _ ∙ e

-- If every datagram arrives, in order, the receiver shows the lines as they were typed; and after
-- the end of the input the sender does not stop but sends empty datagrams, one a round.
pub multicast_shows :
    (ls : List (List ℕ)) (rounds : ℕ)
    → AreLines ls
    → receive (multicast (map some ls ++ replicate rounds none))
      ≡ map (wrote stdout) ls ++ replicate rounds (wrote stdout [])
unfolding multicast receive
multicast_shows [] zero h = refl
multicast_shows [] (suc n) h = ap (◌∷◌ (wrote stdout [])) (multicast_shows [] n h)
multicast_shows (l ∷ ls) n (e, short, h) =
    ap₂ ◌∷◌
      (ap (wrote stdout)
        (ap (take receive_size) (line_text l e) ∙ take_all receive_size l (omega arith)))
      (multicast_shows ls n h)
