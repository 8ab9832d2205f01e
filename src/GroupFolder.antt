-- ===== src/GroupFolder.antt =====
-- src/group-folder.ts: the folder names of agent groups.
pub mod Names
use pocketclaw_telegram.Prelude.{
  ℕ, List, String, Bool, ◌∷◌, leb, ◌||◌, false, [], if◌then◌else◌, ◌&&◌, eqb, ◌==◌, all, not,
  length, any, true,
}
use pocketclaw_telegram.CommandGate.{same_codes, codes, trim, has_command, lower}

abbrev pub is_alphanumeric : ℕ → Bool
is_alphanumeric c = (leb 65 c && leb c 90) || (leb 97 c && leb c 122) || (leb 48 c && leb c 57)

abbrev pub is_name_char : ℕ → Bool
is_name_char c = is_alphanumeric c || eqb c 95 || eqb c 45

-- `/^[A-Za-z0-9][A-Za-z0-9_-]{0,63}$/`
unfoldable pub matches_pattern : List ℕ → Bool
matches_pattern [] = false
matches_pattern (c ∷ s) = is_alphanumeric c && all is_name_char s && leb (length s) 63

-- `folder.includes('..')`
abbrev pub has_dots : List ℕ → Bool
has_dots [] = false
has_dots (c ∷ []) = false
has_dots (c ∷ d ∷ s) = (eqb c 46 && eqb d 46) || has_dots (d ∷ s)

abbrev pub reserved_folders : List String
reserved_folders = "global" ∷ []

unfoldable pub is_valid_group_folder : String → Bool
is_valid_group_folder folder =
    if folder == ""
    then false
    else if not (same_codes (codes folder) (trim (codes folder)))
    then false
    else if not (matches_pattern (codes folder))
    then false
    else if any (λ c. eqb c 47) (codes folder) || any (λ c. eqb c 92) (codes folder)
    then false
    else if has_dots (codes folder)
    then false
    else if has_command reserved_folders (lower (codes folder))
    then false
    else true
