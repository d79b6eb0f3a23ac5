-- ===== src/Signals/Tokens.antt =====
-- 007singnal/07mystrtok_r.c: a text is printed without its spaces. `strtok_r` is a parameter; the
-- text is one as well.
use linux_c_program_exercris.Prelude.{
  ℕ, zero, suc, ◌<◌, ◌≡◌, refl, sym, ap, ◌∙◌, Bool, true, false, ◌||◌, Option, none, some, List, [],
  ◌∷◌, ◌++◌, append-nil, arith, ◌==◌, if◌then◌else◌, length, replicate, length-append,
}

abbrev pub space : ℕ
space = 32

-- The printed text, and whether the loop has ended.
pub record Printed : Type 0 where
  pub text : List ℕ
  pub ended : Bool

abbrev pub without_spaces : List ℕ → List ℕ
without_spaces [] = []
without_spaces (b ∷ bs) = if b == space then without_spaces bs else b ∷ without_spaces bs

abbrev pub has_space : List ℕ → Bool
has_space [] = false
has_space (b ∷ bs) = b == space || has_space bs

-- The token, and where the next call goes on.
abbrev pub Strtok : Type 0
Strtok = List ℕ → Option (List ℕ × List ℕ)

-- `strtok_r` skips spaces; it is at the end if nothing else is left; else it gives the bytes up to
-- the next space or the end, and goes on behind them.
pub data Cuts (text : List ℕ) : Option (List ℕ × List ℕ) → Type 0 where
  at_end : (n : ℕ) → text ≡ replicate n space → Cuts text none
  up_to_end :
      (n b : ℕ) (bs : List ℕ)
      → has_space (b ∷ bs) ≡ false
      → text ≡ replicate n space ++ (b ∷ bs)
      → Cuts text (some (b ∷ bs, []))
  up_to_space :
      (n b : ℕ) (bs rest : List ℕ)
      → has_space (b ∷ bs) ≡ false
      → text ≡ replicate n space ++ ((b ∷ bs) ++ (space ∷ rest))
      → Cuts text (some (b ∷ bs, rest))

-- The loop, on fuel.
unfoldable pub print_tokens : Strtok → ℕ → List ℕ → Printed
print_tokens strtok_r zero text = record { text = []; ended = false }
print_tokens strtok_r (suc fuel) text = elim (strtok_r text) [
  | none ↦ record { text = []; ended = true }
  | some (token, rest) ↦
      let more = print_tokens strtok_r fuel rest in record more { text = token ++ more.text }
]

spaces-gone : (n : ℕ) (bs : List ℕ) → without_spaces (replicate n space ++ bs) ≡ without_spaces bs
spaces-gone zero bs = refl
spaces-gone (suc n) bs = spaces-gone n bs

token-kept :
    (token rest : List ℕ)
    → has_space token ≡ false
    → without_spaces (token ++ rest) ≡ token ++ without_spaces rest
token-kept [] rest h = refl
token-kept (b ∷ bs) rest h =
    let here : (b == space) ≡ false = ground arith in
    let later : has_space bs ≡ false = ground arith in
    simp here (ap (◌∷◌ b) (token-kept bs rest later))

-- What is printed by a run that ends.
abbrev Prints : List ℕ → Printed → Type 0
Prints text p = (p.text ≡ without_spaces text) × (p.ended ≡ true)

-- With more tries than the text has bytes, the loop ends; it has printed the text without its
-- spaces, the rest in the same order.
pub tokens_without_spaces :
    (strtok_r : Strtok) (fuel : ℕ) (text : List ℕ)
    → ((t : List ℕ) → Cuts t (strtok_r t))
    → length text < fuel
    → ((print_tokens strtok_r fuel text).text ≡ without_spaces text)
      × ((print_tokens strtok_r fuel text).ended ≡ true)
unfolding print_tokens
tokens_without_spaces strtok_r zero text cuts h = absurd (omega arith)
tokens_without_spaces strtok_r (suc fuel) text cuts h =
    after (λ rest l. tokens_without_spaces strtok_r fuel rest cuts l) (strtok_r text) (cuts text)
  where
    after :
        ((rest : List ℕ) → length rest < fuel → Prints rest (print_tokens strtok_r fuel rest))
        → (o : Option (List ℕ × List ℕ)) → Cuts text o
        → Prints text (elim o [
          | none ↦ record { text = []; ended = true }
          | some (token, rest) ↦
              let more = print_tokens strtok_r fuel rest in
              record more { text = token ++ more.text }
        ])
    after next none (at_end n e) =
        (sym (ap without_spaces (e ∙ sym (append-nil _)) ∙ spaces-gone n []), refl)
    after next (some p) (up_to_end n b bs s e) =
        let size = ap length e in
        let more = next [] (omega (arith, length-append (replicate n space) (b ∷ bs))) in
        let left =
          ap without_spaces (e ∙ ap (λ l. replicate n space ++ l) (sym (append-nil (b ∷ bs))))
          ∙ spaces-gone n ((b ∷ bs) ++ [])
          ∙ token-kept (b ∷ bs) [] s in
        (ap (λ l. (b ∷ bs) ++ l) more.0 ∙ sym left, more.1)
    after next (some p) (up_to_space n b bs rest s e) =
        let size = ap length e in
        let more = next rest (
          omega (
            arith,
            length-append (replicate n space) ((b ∷ bs) ++ (space ∷ rest)),
            length-append (b ∷ bs) (space ∷ rest),
          )) in
        let left =
          ap without_spaces e
          ∙ spaces-gone n ((b ∷ bs) ++ (space ∷ rest))
          ∙ token-kept (b ∷ bs) (space ∷ rest) s in
        (ap (λ l. (b ∷ bs) ++ l) more.0 ∙ sym left, more.1)
