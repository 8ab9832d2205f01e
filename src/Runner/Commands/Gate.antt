-- ===== src/Runner/Commands/Gate.antt =====
-- How the runner's command test compares with the gate of src/command-gate.ts.
use pocketclaw_telegram.Prelude.{
  List, ℕ, String, ◌≡◌, ◌++◌, true, ◌∷◌, arith, ap, [], refl, false, All, Bool-cases, inl, inr, eqb,
  ◌&&◌, Bool, ◌↔◌, Option, sym, ◌⊎◌, ◌≢◌, ◌∙◌,
}
use pocketclaw_telegram.Runner.Commands.{has_prefix, is_clear_text}
use pocketclaw_telegram.CommandGate.{
  lower, to_lower, codes, has_command, same_codes, filtered_commands, admin_commands, pass,
  parsed_text, deny, gate_command, is_admin,
}
use pocketclaw_telegram.CommandGate.Words.{IsWord, EndsWord, same_codes→eq}
use pocketclaw_telegram.CommandGate.Verdicts.{verdict, gate_command_lem}
use pocketclaw_telegram.Json.{Json}
use pocketclaw_telegram.Permissions.{Permissions}

-- A prefix without spaces lies within the first word.
has_prefix_word : (p s t : List ℕ) → IsWord p → EndsWord t → has_prefix p (s ++ t) ≡ has_prefix p s
has_prefix_word [] s t hp ht = refl
has_prefix_word (c ∷ p) [] [] hp ht = refl
has_prefix_word (c ∷ p) [] (d ∷ t) hp ht = ground (arith, hp.0)
has_prefix_word (c ∷ p) (d ∷ s) t hp ht = ap (λ b. eqb c d && b) (has_prefix_word p s t hp.1 ht)

lower-append : (s t : List ℕ) → lower (s ++ t) ≡ lower s ++ lower t
lower-append [] t = refl
lower-append (c ∷ s) t = ap (◌∷◌ (to_lower c)) (lower-append s t)

lower-EndsWord : (s : List ℕ) → EndsWord s → EndsWord (lower s)
lower-EndsWord [] h = tt
lower-EndsWord (c ∷ s) h = ground arith

-- A text with the prefix is none of the commands without it.
has_command-prefix :
    (names : List String) (p c : List ℕ)
    → All (λ n. has_prefix p (codes n) ≡ false) names
    → has_prefix p c ≡ true
    → has_command names c ≡ false
unfolding has_command
has_command-prefix [] p c hs h = refl
has_command-prefix (n ∷ names) p c hs h = elim (Bool-cases (same_codes (codes n) c)) [
  | inl e ↦ absurd (ground (arith, hs.0, ap (has_prefix p) (same_codes→eq (codes n) c e)))
  | inr e ↦ ground (arith, has_command-prefix names p c hs.1 h)
]

abbrev clear : List ℕ
clear = codes "/clear"

-- Of the words with the prefix, the gate filters none.
clear-unfiltered :
    (c : List ℕ) → has_prefix clear c ≡ true → has_command filtered_commands c ≡ false
clear-unfiltered c h =
    has_command-prefix filtered_commands clear c (refl, (refl, (refl, (refl, (refl, (refl, tt))))))
      h

-- And it keeps one for admins: the command itself.
clear-admin :
    (c : List ℕ) → has_prefix clear c ≡ true → (has_command admin_commands c ≡ true) ↔ (c ≡ clear)
unfolding has_command
clear-admin c h = (
  λ e. elim (Bool-cases (same_codes clear c)) [
    | inl same ↦ sym (same_codes→eq clear c same)
    | inr other ↦
        let none_else =
          has_command-prefix ("/compact" ∷ "/context" ∷ "/cost" ∷ "/files" ∷ "/upload-trace" ∷ [])
            clear c (refl, (refl, (refl, (refl, (refl, tt))))) h in
        absurd (ground arith)
  ],
  λ same. ap (has_command admin_commands) same,
)

-- The verdict on a word with the prefix.
clear-verdict :
    (c : List ℕ) (admin_here : Bool)
    → has_prefix clear c ≡ true
    → (verdict c admin_here ≡ pass) ↔ ((admin_here ≡ true) ⊎ (c ≢ clear))
clear-verdict c true h = (
  λ e. inl refl,
  λ e. elim (Bool-cases (has_command admin_commands c)) [
    | inl kept ↦ rw (clear-unfiltered c h, kept) refl
    | inr free ↦ rw (clear-unfiltered c h, free) refl
  ],
)
clear-verdict c false h = elim (Bool-cases (has_command admin_commands c)) [
  | inl kept ↦ (
    λ e. absurd (denied (sym (rw (clear-unfiltered c h, kept) refl) ∙ e)),
    λ e. elim e [ inl never ↦ absurd (cc) | inr other ↦ absurd (other ((clear-admin c h).0 kept)) ],
  )
  | inr free ↦ (
    λ e. inr λ same. absurd (ground (arith, (clear-admin c h).1 same)),
    λ e. rw (clear-unfiltered c h, free) refl,
  )
]
  where
    denied : deny c ≡ pass → ⊥
    denied e = cc

-- A message whose trimmed text is a word with nothing, or a space, behind it both passes the host's
-- gate and clears the session in the container exactly if its lowered word begins with `/clear` and
-- the sender is an admin or the word is not `/clear` itself: so `/clearly` clears it for anyone.
pub clear_passes_gate :
    (parse_json : String → Option Json) (p : Permissions) (roles_table : Bool) (content : String)
    (user_id : Option String) (group : String) (w rest : List ℕ)
    → parsed_text (parse_json content) content ≡ w ++ rest
    → IsWord w
    → EndsWord rest
    → ((gate_command parse_json p roles_table content user_id group ≡ pass)
        × (is_clear_text (parsed_text (parse_json content) content) ≡ true))
      ↔ ((has_prefix (codes "/clear") (lower w) ≡ true)
          × ((is_admin p roles_table user_id group ≡ true) ⊎ (lower w ≢ codes "/clear")))
unfolding is_clear_text
clear_passes_gate parse_json p roles_table content user_id group w rest e hw hr = (
  λ (passed, cleared).
      let begins = sym prefixed ∙ cleared in
      (begins, (clear-verdict (lower w) admin_here begins).0 (sym judged ∙ passed)),
  λ (begins, allowed).
      (judged ∙ (clear-verdict (lower w) admin_here begins).1 allowed, prefixed ∙ begins),
)
  where
    admin_here : Bool
    admin_here = is_admin p roles_table user_id group

    judged :
        gate_command parse_json p roles_table content user_id group ≡ verdict (lower w) admin_here
    judged = gate_command_lem parse_json p roles_table content user_id group w rest e hw hr

    prefixed :
        has_prefix clear (lower (parsed_text (parse_json content) content))
        ≡ has_prefix clear (lower w)
    prefixed =
        ap (λ s. has_prefix clear (lower s)) e
        ∙ (ap (has_prefix clear) (lower-append w rest)
            ∙ has_prefix_word clear (lower w) (lower rest)
                (refl, (refl, (refl, (refl, (refl, (refl, tt)))))) (lower-EndsWord rest hr))
