-- ===== src/Cli/Examples.antt =====
-- Frames of an agent whose scope is its group, over two commands and a list of the groups that were
-- asked for as the state.
use pocketclaw_telegram.Cli.{
  AgentCaller, CommandDef, RequestFrame, Args, normalize_args, agent_caller, ◌++◌, open_access,
  needs_approval, lookup, done,
}
use pocketclaw_telegram.Json.{Json, arr, number, text, cons, obj, field, end, null, nil}
use pocketclaw_telegram.Cli.Checks.{check_group, check_scope, passed}
use pocketclaw_telegram.Cli.Dispatch.{Cli, dispatch, resolve_command, execute, filter_data}
use pocketclaw_telegram.Cli.Dispatch.Scope.{Guarded, dispatch-Guarded}
use pocketclaw_telegram.World.{lookup_db}
use pocketclaw_telegram.Prelude.{
  List, [], some, ◌∷◌, ◌≡◌, true, false, if◌then◌else◌, String, refl, ◌==◌, none,
}
use pocketclaw_telegram.Fixtures.{session_a}
use pocketclaw_telegram.Cli.Dispatch.Rows.{OwnData, dispatch-OwnData}

abbrev agent_a_caller : AgentCaller
agent_a_caller = record { session_id = "s-a"; agent_group_id = "ag-1"; messaging_group_id = "mg-1" }

abbrev two_rows : Json
two_rows = arr (
    cons (obj (field "agent_group_id" (text "ag-1") end))
      (cons (obj (field "agent_group_id" (text "ag-2") end)) nil))

abbrev sessions_list : CommandDef (List Args)
sessions_list = record {
  name = "sessions-list";
  access = open_access;
  resource = some "sessions";
  generic = true;
  parse_args = λ raw. done (normalize_args raw);
  handler = λ args caller s. (done two_rows, args ∷ s);
}

abbrev members_add : CommandDef (List Args)
members_add = record {
  name = "members-add";
  access = needs_approval;
  resource = some "members";
  generic = false;
  parse_args = λ raw. done (normalize_args raw);
  handler = λ args caller s. (done null, args ∷ s);
}

abbrev cli : Cli (List Args)
cli = record {
  registry = sessions_list ∷ members_add ∷ [];
  scope_field = λ r. some "agent_group_id";
  cli_scope = λ s g. if g == "ag-9" then some "disabled" else none;
  sessions = λ s. session_a ∷ [];
  agent_name = λ s g. some "A";
  request_approval = λ session name frame s. frame.args ∷ s;
}

abbrev list_frame : RequestFrame
list_frame = record { id = "r-1"; command = "sessions-list"; args = ("limit", number 5) ∷ [] }

dispatch-Guarded_example :
    Guarded cli agent_a_caller [] (dispatch cli list_frame (agent_caller agent_a_caller) []).1
dispatch-Guarded_example = dispatch-Guarded cli agent_a_caller list_frame [] refl

dispatch-OwnData_example :
    (f : String) × (some "agent_group_id" ≡ some f)
    × OwnData f "ag-1" (arr (cons (obj (field "agent_group_id" (text "ag-1") end)) nil))
unfolding dispatch resolve_command lookup check_scope check_group execute filter_data normalize_args
dispatch-OwnData_example =
    dispatch-OwnData cli agent_a_caller list_frame []
      (dispatch cli list_frame (agent_caller agent_a_caller) []).1 sessions_list "r-1"
      (arr (cons (obj (field "agent_group_id" (text "ag-1") end)) nil))
      (list_frame, refl, refl, refl) refl refl

-- A frame that names the own group, and another one under a name with dashes.
abbrev twin_args : Args
twin_args = ("agent_group_id", text "ag-1") ∷ ("agent-group-id", text "ag-2") ∷ []

-- The check lets it pass, and the handler reads the other group.
twin_passes :
    check_group "ag-1"
      (some "sessions")
      []
      (record { id = "r-2"; command = "sessions-list"; args = twin_args })
    ≡ passed (record {
      id = "r-2";
      command = "sessions-list";
      args = twin_args ++ ("group", text "ag-1") ∷ [];
    })
unfolding check_group
twin_passes = refl

twin_reaches_other_group :
    lookup_db "agent_group_id" (normalize_args (twin_args ++ ("group", text "ag-1") ∷ []))
    ≡ some (text "ag-2")
unfolding normalize_args
twin_reaches_other_group = refl
