-- ===== src/CommandGate/Examples.antt =====
-- The command gate at concrete messages: tests, and the theorems at inputs that meet their hypotheses.
use pocketclaw_telegram.Prelude.{
  ℕ, String, true, Option, none, some, List, [], ◌∷◌, ◌≡◌, refl, ◌≢◌, arith, eq_iff,
}
use pocketclaw_telegram.Types.{admin}
use pocketclaw_telegram.Json.{Json, text, obj, field, end}
use pocketclaw_telegram.Permissions.{Permissions}
use pocketclaw_telegram.CommandGate.{
  pass, filter, deny, codes, lower, gate_command, is_admin, trim, gate_text, has_command,
}
use pocketclaw_telegram.CommandGate.Verdicts.{verdict, gate_command_lem}

-- A parser that reads one message.
abbrev one_message : String → Option Json
one_message content = some (obj (field "text" (text "  /Clear now ") end))

abbrev staff : Permissions
staff = record {
  users = [];
  user_roles =
      record {
        user_id = "tg:1";
        role = admin;
        agent_group_id = some "ag-1";
        granted_by = none;
        granted_at = 5;
      }
      ∷ [];
  members = [];
  agent_group_ids = "ag-1" ∷ [];
}

admin_passes : gate_command one_message staff true "{}" (some "tg:1") "ag-1" ≡ pass
unfolding gate_command gate_text is_admin trim has_command
admin_passes = refl

stranger_denied :
    gate_command one_message staff true "{}" (some "tg:2") "ag-1" ≡ deny (codes "/clear")
unfolding gate_command gate_text is_admin trim has_command
stranger_denied = refl

help_filtered : gate_text (codes "/help me") true ≡ filter
unfolding gate_text has_command
help_filtered = refl

named : ◌≢◌ {A = String} "tg:1" ""
named e = ground (arith, eq_iff "tg:1" "")

abbrev clear_word : List ℕ
clear_word = codes "/Clear"

gate_command_lem_example :
    gate_command one_message staff true "{}" (some "tg:2") "ag-1"
    ≡ verdict (lower clear_word) (is_admin staff true (some "tg:2") "ag-1")
unfolding trim
gate_command_lem_example =
    gate_command_lem one_message staff true "{}" (some "tg:2") "ag-1" clear_word (codes " now") refl
      (refl, (refl, (refl, (refl, (refl, (refl, tt)))))) refl
