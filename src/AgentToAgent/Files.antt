-- ===== src/AgentToAgent/Files.antt =====
-- src/attachment-safety.ts, and how src/modules/agent-to-agent/agent-route.ts forwards the files of a
-- message. `readable` says of a session, a message and a name whether that file of the outbox is
-- there, regular and inside its directory; `outbox_dir` says so of the directory.
use Prim.Native.String
use pocketclaw_telegram.Prelude.{
  List, ℕ, String, ◌∷◌, Bool, [], if◌then◌else◌, eqb, ◌||◌, ◌==◌, ◌++◌, ◌&&◌, false, any,
}
use pocketclaw_telegram.Json.{
  Items, Property, Json, obj, value, field, cons, arr, text, nil, get, end,
}
use pocketclaw_telegram.World.{World, file_copied}
use pocketclaw_telegram.Scheduling.{set_field}
use mathlib.Core.List.{reverse}
use pocketclaw_telegram.CommandGate.{codes, same_codes}

-- `path.basename` of a POSIX path: the text after the last separator that is not trailing.
abbrev pub drop_slashes : List ℕ → List ℕ
drop_slashes [] = []
drop_slashes (c ∷ s) = if eqb c 47 then drop_slashes s else c ∷ s

abbrev pub until_slash : List ℕ → List ℕ
until_slash [] = []
until_slash (c ∷ s) = if eqb c 47 then [] else c ∷ until_slash s

abbrev pub basename : List ℕ → List ℕ
basename s = reverse (until_slash (drop_slashes (reverse s)))

-- The class `[\\/\0]`.
abbrev pub is_separator : ℕ → Bool
is_separator c = eqb c 92 || eqb c 47 || eqb c 0

unfoldable pub is_safe_attachment_name : String → Bool
is_safe_attachment_name name =
    if name == ""
    then false
    else if name == "." || name == ".."
    then false
    else if any is_separator (codes name)
    then false
    else same_codes (basename (codes name)) (codes name)

pub record ForwardedAttachment : Type 0 where
  pub name : String
  pub filename : String
  pub local_path : String

abbrev pub forwarded_attachment : String → String → ForwardedAttachment
forwarded_attachment message_id name = record {
  name = name;
  filename = name;
  local_path = String.◌++◌ "inbox/" (String.◌++◌ message_id (String.◌++◌ "/" name));
}

module _ (outbox_dir : String → String → Bool) (readable : String → String → String → Bool) where
  -- The loop over the names: a name that is unsafe or whose file is not there is skipped.
  unfoldable pub forward_each :
      String → String → String → List String → World → List ForwardedAttachment × World
  forward_each source message target [] w = ([], w)
  forward_each source message target (name ∷ rest) w =
      let copied =
        forward_each source message target rest
          (record w { effects = w.effects ++ file_copied source message name ∷ [] }) in
      let skipped = forward_each source message target rest w in
      if is_safe_attachment_name name && readable source message name
      then (forwarded_attachment target name ∷ (copied).0, (copied).1)
      else skipped

  unfoldable pub forward_attached_files :
      String → String → String → List String → World → List ForwardedAttachment × World
  forward_attached_files source message target names w =
      if is_safe_attachment_name message && outbox_dir source message
      then forward_each source message target names w
      else ([], w)

abbrev pub text_items : Items → List String
text_items nil = []
text_items (cons (text s) xs) = s ∷ text_items xs
text_items (cons _ xs) = text_items xs

-- The names in `files`, where that is an array.
abbrev pub names_in : Property → List String
names_in (value (arr xs)) = text_items xs
names_in _ = []

abbrev pub attachment_json : ForwardedAttachment → Json
attachment_json a = obj (
    field "name" (text a.name) (
      field "filename" (text a.filename)
        (field "type" (text "file") (field "localPath" (text a.local_path) end))))

-- `[...existing, ...attachments]`
abbrev pub append_items : Items → List ForwardedAttachment → Items
append_items nil [] = nil
append_items nil (a ∷ rest) = cons (attachment_json a) (append_items nil rest)
append_items (cons x xs) added = cons x (append_items xs added)

abbrev pub existing_items : Property → Items
existing_items (value (arr xs)) = xs
existing_items _ = nil

abbrev pub with_attachments : Json → List ForwardedAttachment → Json
with_attachments (obj fs) added = obj (
    set_field "attachments" (arr (append_items (existing_items (get (obj fs) "attachments")) added))
      fs)
with_attachments v added = v
