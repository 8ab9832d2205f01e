-- ===== src/GroupFolder/Names.antt =====
-- Which folder names src/group-folder.ts accepts.
use mathlib.Core.List.{reverse-reverse, reverse}
use pocketclaw_telegram.GroupFolder.{
  matches_pattern, is_valid_group_folder, is_name_char, has_dots, reserved_folders,
}
use pocketclaw_telegram.Prelude.{
  ℕ, List, ◌≡◌, all, String, true, ◌∷◌, ap, eqb, ◌&&◌, arith, false, not, ◌∙◌, any, [], all-reverse,
  refl, Bool-cases, inl, inr, ◌==◌, sym, eq_iff,
}
use pocketclaw_telegram.CommandGate.{
  trim, same_codes, codes, is_space, drop_spaces, has_command, lower,
}
use mathlib.Core.Bool.{false≢true}

matches-all : (s : List ℕ) → matches_pattern s ≡ true → all is_name_char s ≡ true
unfolding matches_pattern
matches-all [] h = cc
matches-all (c ∷ s) h = ground arith

name_char-plain :
    (c : ℕ)
    → is_name_char c ≡ true
    → (is_space c ≡ false) × (eqb c 47 ≡ false) × (eqb c 92 ≡ false) × (eqb c 46 ≡ false)
name_char-plain c h = (ground arith, ground arith, ground arith, ground arith)

drop_none : (s : List ℕ) → all is_name_char s ≡ true → drop_spaces s ≡ s
drop_none [] h = refl
drop_none (c ∷ s) h = ground (arith, name_char-plain c (ground arith))

trim-names : (s : List ℕ) → all is_name_char s ≡ true → trim s ≡ s
unfolding trim
trim-names s h =
    ap (λ t. reverse (drop_spaces (reverse t))) (drop_none s h)
    ∙ (ap reverse (drop_none (reverse s) (all-reverse is_name_char s h)) ∙ reverse-reverse s)

pub same_codes_refl : (s : List ℕ) → same_codes s s ≡ true
same_codes_refl [] = refl
same_codes_refl (c ∷ s) = ground (arith, same_codes_refl s)

absent :
    (k : ℕ)
    → ((c : ℕ) → is_name_char c ≡ true → eqb c k ≡ false)
    → (s : List ℕ) → all is_name_char s ≡ true
    → any (λ c. eqb c k) s ≡ false
absent k out [] h = refl
absent k out (c ∷ s) h = ground (arith, out c (ground arith), absent k out s (ground arith))

no_dots : (s : List ℕ) → all is_name_char s ≡ true → has_dots s ≡ false
no_dots [] h = refl
no_dots (c ∷ []) h = refl
no_dots (c ∷ d ∷ s) h =
    ground (arith, name_char-plain c (ground arith), no_dots (d ∷ s) (ground arith))

not_empty : (folder : String) → matches_pattern (codes folder) ≡ true → (folder == "") ≡ false
unfolding matches_pattern
not_empty folder h = elim (Bool-cases (folder == "")) [
  | inl e ↦
      absurd (false≢true (sym (ap (λ t. matches_pattern (codes t)) ((eq_iff folder "").0 e)) ∙ h))
  | inr e ↦ e
]

-- A folder name is valid exactly when it matches the pattern and is no reserved word in any case: the
-- checks for spaces around it, separators and two dots refuse nothing that the pattern accepts.
pub is_valid_group_folder_lem :
    (folder : String)
    → is_valid_group_folder folder ≡ (
        matches_pattern (codes folder) && not (has_command reserved_folders (lower (codes folder))))
unfolding is_valid_group_folder
is_valid_group_folder_lem folder = elim (Bool-cases (matches_pattern (codes folder))) [
  | inl e ↦
      let names : all is_name_char (codes folder) ≡ true = matches-all (codes folder) e in
      let plain : same_codes (codes folder) (trim (codes folder)) ≡ true =
        ap (same_codes (codes folder)) (trim-names (codes folder) names)
        ∙ same_codes_refl (codes folder) in
      let slash : any (λ c. eqb c 47) (codes folder) ≡ false =
        absent 47 (λ c h. (name_char-plain c h).1) (codes folder) names in
      let backslash : any (λ c. eqb c 92) (codes folder) ≡ false =
        absent 92 (λ c h. (name_char-plain c h).2) (codes folder) names in
      let dots : has_dots (codes folder) ≡ false = no_dots (codes folder) names in
      let named : (folder == "") ≡ false = not_empty folder e in ground arith
  | inr e ↦ ground arith
]
