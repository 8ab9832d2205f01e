-- ===== src/CommandGate/Words.antt =====
-- The first word of a message and the two sets of commands in src/command-gate.ts.
use pocketclaw_telegram.Prelude.{
  ℕ, String, true, false, List, [], ◌∷◌, ◌++◌, ◌≡◌, refl, ap, ◌∙◌, inl, inr, arith, Bool-cases, sym,
  All,
}
use pocketclaw_telegram.CommandGate.{
  codes, is_space, first_word, lower, same_codes, filtered_commands, admin_commands, has_command,
  starts_with_slash,
}

-- A word has no space, and ends where the text does or at a space.
abbrev pub IsWord : List ℕ → Type 0
IsWord = All (λ c. is_space c ≡ false)

abbrev pub EndsWord : List ℕ → Type 0
EndsWord [] = Unit
EndsWord (c ∷ s) = is_space c ≡ true

pub first_word-append : (w rest : List ℕ) → IsWord w → EndsWord rest → first_word (w ++ rest) ≡ w
first_word-append [] [] hw hr = refl
first_word-append [] (c ∷ s) hw hr = rw hr
first_word-append (c ∷ w) rest hw hr = rw hw.0 (ap (◌∷◌ c) (first_word-append w rest hw.1 hr))

pub same_codes→eq : (s t : List ℕ) → same_codes s t ≡ true → s ≡ t
same_codes→eq [] [] h = refl
same_codes→eq [] (b ∷ t) h = cc
same_codes→eq (a ∷ s) [] h = cc
same_codes→eq (a ∷ s) (b ∷ t) h = ground (arith, same_codes→eq s t)

slash_lower : (s : List ℕ) → starts_with_slash (lower s) ≡ starts_with_slash s
slash_lower [] = refl
slash_lower (c ∷ s) = ground arith

-- A listed command begins with a slash.
slash_of_name :
    (names : List String) (c : List ℕ)
    → All (λ n. starts_with_slash (codes n) ≡ true) names
    → has_command names c ≡ true
    → starts_with_slash c ≡ true
unfolding has_command
slash_of_name [] c hs h = cc
slash_of_name (n ∷ names) c hs h = elim (Bool-cases (same_codes (codes n) c)) [
  | inl e ↦ rw (← same_codes→eq (codes n) c e) hs.0
  | inr e ↦ slash_of_name names c hs.1 (rw e at h)
]

pub slash_of_filtered :
    (w : List ℕ) → has_command filtered_commands (lower w) ≡ true → starts_with_slash w ≡ true
slash_of_filtered w h =
    sym (slash_lower w)
    ∙ slash_of_name filtered_commands (lower w) (refl, (refl, (refl, (refl, (refl, (refl, tt)))))) h

pub slash_of_admin :
    (w : List ℕ) → has_command admin_commands (lower w) ≡ true → starts_with_slash w ≡ true
slash_of_admin w h =
    sym (slash_lower w)
    ∙ slash_of_name admin_commands (lower w) (refl, (refl, (refl, (refl, (refl, (refl, tt)))))) h

disjoint_from :
    (names : List String) (c : List ℕ)
    → All (λ n. has_command filtered_commands (codes n) ≡ false) names
    → has_command names c ≡ true
    → has_command filtered_commands c ≡ false
unfolding has_command
disjoint_from [] c hs h = cc
disjoint_from (n ∷ names) c hs h = elim (Bool-cases (same_codes (codes n) c)) [
  | inl e ↦ rw (← same_codes→eq (codes n) c e) hs.0
  | inr e ↦ disjoint_from names c hs.1 (rw e at h)
]

-- No command is in both sets.
pub admin-ne-filtered :
    (c : List ℕ) → has_command admin_commands c ≡ true → has_command filtered_commands c ≡ false
unfolding has_command
admin-ne-filtered c h =
    disjoint_from admin_commands c (refl, (refl, (refl, (refl, (refl, (refl, tt)))))) h
