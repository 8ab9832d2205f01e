-- ===== src/AgentToAgent/Attachments.antt =====
-- Which files a message between agents carries: src/attachment-safety.ts and `forwardAttachedFiles` of
-- src/modules/agent-to-agent/agent-route.ts.
use pocketclaw_telegram.Prelude.{
  eqb, ◌||◌, List, String, ℕ, ◌≡◌, Bool, all, any, not, select, ◌==◌, ◌&&◌, true, false, map,
  if◌then◌else◌, ◌∷◌, Bool-cases, [], arith, ◌++◌, inl, all-reverse, inr, refl, ap, ◌∙◌, sym,
  append_none,
}
use pocketclaw_telegram.AgentToAgent.Files.{
  is_safe_attachment_name, forward_each, forward_attached_files, is_separator, drop_slashes,
  until_slash, basename, forwarded_attachment, ForwardedAttachment,
}
use pocketclaw_telegram.World.{World, file_copied, Effect}
use pocketclaw_telegram.CommandGate.{codes, same_codes}
use mathlib.Core.List.{reverse, reverse-reverse, append_assoc}
use pocketclaw_telegram.GroupFolder.Names.{same_codes_refl}

drop_slashes_none : (s : List ℕ) → all (λ c. not (is_separator c)) s ≡ true → drop_slashes s ≡ s
drop_slashes_none [] h = refl
drop_slashes_none (c ∷ s) h = ground arith

until_slash-all : (s : List ℕ) → all (λ c. not (is_separator c)) s ≡ true → until_slash s ≡ s
until_slash-all [] h = refl
until_slash-all (c ∷ s) h = ground (arith, until_slash-all s (ground arith))

none_all : (s : List ℕ) → any is_separator s ≡ false → all (λ c. not (is_separator c)) s ≡ true
none_all [] h = refl
none_all (c ∷ s) h = ground (arith, none_all s (ground arith))

basename_plain : (s : List ℕ) → any is_separator s ≡ false → basename s ≡ s
basename_plain s h =
    let plain : all (λ c. not (is_separator c)) (reverse s) ≡ true =
      all-reverse (λ c. not (is_separator c)) s (none_all s h) in
    ap (λ t. reverse (until_slash t)) (drop_slashes_none (reverse s) plain)
    ∙ (ap reverse (until_slash-all (reverse s) plain) ∙ reverse-reverse s)

-- A name that is not empty, is neither `.` nor `..`, and has no separator and no NUL: joined to a
-- directory it names an entry of that directory.
abbrev pub is_plain : String → Bool
is_plain name =
    not (name == "")
    && not (name == ".")
    && not (name == "..")
    && not (any (λ c. eqb c b'/' || eqb c 92 || eqb c 0) (codes name))

pub is_safe_attachment_name_lem : (name : String) → is_safe_attachment_name name ≡ is_plain name
unfolding is_safe_attachment_name
is_safe_attachment_name_lem name = elim (Bool-cases (any is_separator (codes name))) [
  | inl e ↦ ground arith
  | inr e ↦
      let plain : same_codes (basename (codes name)) (codes name) ≡ true =
        ap (λ t. same_codes t (codes name)) (basename_plain (codes name) e)
        ∙ same_codes_refl (codes name) in
      ground arith
]

module _ (outbox_dir : String → String → Bool) (readable : String → String → String → Bool) where
  -- The names that the loop takes.
  abbrev pub taken : String → String → List String → List String
  taken source message names =
      select (λ name. is_safe_attachment_name name && readable source message name) names

  -- The names of plain files that can be read.
  abbrev pub plain_files : String → String → List String → List String
  plain_files source message names =
      select (λ name. is_plain name && readable source message name) names

  taken-plain_files :
      (source message : String) (names : List String)
      → taken source message names ≡ plain_files source message names
  taken-plain_files source message [] = refl
  taken-plain_files source message (name ∷ rest) =
      rw (is_safe_attachment_name_lem name, taken-plain_files source message rest) refl

  each_lem :
      (source message target : String) (names : List String) (w : World)
      → forward_each outbox_dir readable source message target names w ≡ (
        map (forwarded_attachment target) (taken source message names),
        record w {
          effects = w.effects ++ map (file_copied source message) (taken source message names);
        },
      )
  unfolding forward_each
  each_lem source message target [] w =
      ap (λ (es : List Effect). ([], record w { effects = es })) (sym (append_none w.effects))
  each_lem source message target (name ∷ rest) w =
      by_test (is_safe_attachment_name name && readable source message name)
        (each_lem source message target rest)
    where
      names_if : Bool → List String
      names_if b = if b then name ∷ taken source message rest else taken source message rest

      noted : World
      noted = record w { effects = w.effects ++ file_copied source message name ∷ [] }

      by_test :
          (b : Bool)
          → ((v : World)
              → forward_each outbox_dir readable source message target rest v ≡ (
                map (forwarded_attachment target) (taken source message rest),
                record v {
                  effects =
                      v.effects ++ map (file_copied source message) (taken source message rest);
                },
              ))
          → (if b
              then (
                forwarded_attachment target name
                    ∷ (forward_each outbox_dir readable source message target rest noted).0,
                (forward_each outbox_dir readable source message target rest noted).1,
              )
              else forward_each outbox_dir readable source message target rest w)
            ≡ (
              map (forwarded_attachment target) (names_if b),
              record w { effects = w.effects ++ map (file_copied source message) (names_if b) },
            )
      by_test true ih =
          ap
            (λ (p : List ForwardedAttachment × World).
              (forwarded_attachment target name ∷ p.0, p.1))
            (ih noted)
          ∙ ap
              (λ (es : List Effect). (
                forwarded_attachment target name
                    ∷ map (forwarded_attachment target) (taken source message rest),
                record w { effects = es },
              ))
              (append_assoc w.effects (file_copied source message name ∷ [])
                (map (file_copied source message) (taken source message rest)))
      by_test false ih = ih w

  abbrev pub carried : String → String → List String → List String
  carried source message names =
      if is_plain message && outbox_dir source message then plain_files source message names else []

  -- Forwarding copies a file exactly for each name that is plain (not empty, not `.` or `..`, without
  -- separator or NUL) and can be read, once and in the order of the names, and returns the attachments
  -- of these files alone; a message whose own id is not plain, or whose outbox is not there, copies none.
  pub forward_attached_files_lem :
      (source message target : String) (names : List String) (w : World)
      → forward_attached_files outbox_dir readable source message target names w ≡ (
        map (forwarded_attachment target) (carried source message names),
        record w {
          effects = w.effects ++ map (file_copied source message) (carried source message names);
        },
      )
  unfolding forward_attached_files
  forward_attached_files_lem source message target names w =
      by_safe (is_safe_attachment_name message) (is_safe_attachment_name_lem message)
        (outbox_dir source message)
    where
      names_if : Bool → List String
      names_if b = if b then plain_files source message names else []

      copied : List String → List ForwardedAttachment × World
      copied ns = (
        map (forwarded_attachment target) ns,
        record w { effects = w.effects ++ map (file_copied source message) ns },
      )

      by_test :
          (b : Bool)
          → (if b then forward_each outbox_dir readable source message target names w else ([], w))
            ≡ copied (names_if b)
      by_test true =
          each_lem source message target names w
          ∙ ap copied (taken-plain_files source message names)
      by_test false =
          ap (λ (es : List Effect). ([], record w { effects = es })) (sym (append_none w.effects))

      by_safe :
          (safe : Bool)
          → safe ≡ is_plain message
          → (there : Bool)
          → (if safe && there
              then forward_each outbox_dir readable source message target names w
              else ([], w))
            ≡ copied (names_if (is_plain message && there))
      by_safe safe e there = by_test (safe && there) ∙ ap (λ b. copied (names_if (b && there))) e
