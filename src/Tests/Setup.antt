-- ===== src/Tests/Setup.antt =====
-- 007singnal/07mystrtok_r.c, with a `strtok_r` for one byte.
use linux_c_program_exercris.Signals.Tokens.{
  space, Strtok, Cuts, at_end, up_to_end, up_to_space, has_space, print_tokens,
  tokens_without_spaces,
}
use linux_c_program_exercris.Prelude.{
  ℕ, ◌≡◌, refl, true, false, some, List, [], ◌∷◌, arith, ◌==◌, if◌then◌else◌, suc, sym, ap, subst,
  ◌⊎◌, inl, inr, Option, none, ◌++◌, Bool-cases,
}

-- A `strtok_r` for the space.
unfoldable word : List ℕ → List ℕ
word [] = []
word (b ∷ bs) = if b == space then [] else b ∷ word bs

unfoldable behind : List ℕ → List ℕ
behind [] = []
behind (b ∷ bs) = if b == space then bs else behind bs

unfoldable strtok : Strtok
unfolding word behind
strtok [] = none
strtok (b ∷ bs) = if b == space then strtok bs else some (b ∷ word bs, behind bs)

longer : (text : List ℕ) (o : Option (List ℕ × List ℕ)) → Cuts text o → Cuts (space ∷ text) o
longer text none (at_end n e) = at_end (suc n) (ap (◌∷◌ space) e)
longer text (some p) (up_to_end n b bs h e) = up_to_end (suc n) b bs h (ap (◌∷◌ space) e)
longer text (some p) (up_to_space n b bs rest h e) =
    up_to_space (suc n) b bs rest h (ap (◌∷◌ space) e)

no_space_in-word : (bs : List ℕ) → has_space (word bs) ≡ false
unfolding word
no_space_in-word [] = refl
no_space_in-word (b ∷ bs) = elim (Bool-cases (b == space)) [
  | inl h ↦ simp h refl
  | inr h ↦ simp h (no_space_in-word bs)
]

word-behind :
    (bs : List ℕ) → ((bs ≡ word bs) × (behind bs ≡ [])) ⊎ (bs ≡ word bs ++ (space ∷ behind bs))
unfolding word behind
word-behind [] = inl (refl, refl)
word-behind (b ∷ bs) = elim (Bool-cases (b == space)) [
  | inl h ↦ let is_space : b ≡ space = ground arith in simp h (inr (ap (λ x. x ∷ bs) is_space))
  | inr h ↦ elim (word-behind bs) [
    | inl (e, z) ↦ simp h (inl (ap (◌∷◌ b) e, z))
    | inr e ↦ simp h (inr (ap (◌∷◌ b) e))
  ]
]

strtok-Cuts : (text : List ℕ) → Cuts text (strtok text)
unfolding strtok
strtok-Cuts [] = at_end 0 refl
strtok-Cuts (b ∷ bs) = elim (Bool-cases (b == space)) [
  | inl h ↦
      let is_space : b ≡ space = ground arith in
      simp h (subst (λ x. Cuts (x ∷ bs) (strtok bs)) (sym is_space) (longer bs _ (strtok-Cuts bs)))
  | inr h ↦
      let clean : has_space (b ∷ word bs) ≡ false = simp h (no_space_in-word bs) in
      elim (word-behind bs) [
        | inl (e, z) ↦ simp h (
            subst (λ r. Cuts (b ∷ bs) (some (b ∷ word bs, r))) (sym z)
              (up_to_end 0 b (word bs) clean (ap (◌∷◌ b) e)))
        | inr e ↦ simp h (up_to_space 0 b (word bs) (behind bs) clean (ap (◌∷◌ b) e))
      ]
]

-- "  a bc ".
abbrev spaced : List ℕ
spaced = 32 ∷ 32 ∷ 97 ∷ 32 ∷ 98 ∷ 99 ∷ 32 ∷ []

tokens_without_spaces_example :
    ((print_tokens strtok 8 spaced).text ≡ 97 ∷ 98 ∷ 99 ∷ [])
    × ((print_tokens strtok 8 spaced).ended ≡ true)
tokens_without_spaces_example = tokens_without_spaces strtok 8 spaced strtok-Cuts (omega arith)
