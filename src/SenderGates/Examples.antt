-- ===== src/SenderGates/Examples.antt =====
-- A member of the agent group writes to a chat that is not public.
use pocketclaw_telegram.Permissions.{
  Permissions, can_access_agent_group, get_user, is_owner, is_global_admin, is_admin_of_agent_group,
  is_member, has_membership_row, has_global_role,
}
use pocketclaw_telegram.World.{World, Ran, open_session, write_session_message}
use pocketclaw_telegram.Router.Agents.{
  consider_agent, deliver_to_agent, effective_session_mode, gate_result, message_id_for_agent,
  wake_session,
}
use pocketclaw_telegram.Fixtures.{nobody, world, env, hooks, chat, event, wiring}
use pocketclaw_telegram.Router.Event.{Outcome, evaluate_engage, parsed_sender}
use pocketclaw_telegram.Prelude.{none, Bool, ◌∷◌, [], some, false, refl}
use pocketclaw_telegram.SenderGates.{access_gate, sender_scope_gate, handle_unknown_sender}
use pocketclaw_telegram.SenderGates.Admission.{gated, PassesAccess, PassesScope, engaged_has_access}
use pocketclaw_telegram.Delivery.Attempts.{world_of}
use pocketclaw_telegram.Sessions.{
  resolve_session, existing_session, find_session_for_agent, get_session, touch_session,
}
use pocketclaw_telegram.CommandGate.{gate_command, gate_text, has_command, is_admin, trim}
use pocketclaw_telegram.SessionDb.{insert_message, insert_row, max_seq, next_even_seq}

abbrev member : Permissions
member = record nobody {
  users = record { id = "tg:2"; kind = "telegram"; display_name = none; created_at = 1 } ∷ [];
  members =
      record { user_id = "tg:2"; agent_group_id = "ag-1"; added_by = none; added_at = 1 } ∷ [];
}

abbrev joined : World
joined = record world { permissions = member }

abbrev round : Ran (Outcome × Bool)
round = consider_agent env (gated env hooks) none chat event (some "tg:2") "hi" false wiring joined

engaged_has_access_example :
    PassesAccess joined chat (some "tg:2") "ag-1" × PassesScope joined wiring (some "tg:2")
unfolding consider_agent evaluate_engage access_gate sender_scope_gate can_access_agent_group
    get_user is_owner is_global_admin is_admin_of_agent_group is_member has_membership_row
    deliver_to_agent open_session resolve_session existing_session effective_session_mode
    find_session_for_agent gate_result gate_command gate_text write_session_message has_command
    is_admin trim has_global_role message_id_for_agent wake_session parsed_sender
    handle_unknown_sender insert_message insert_row max_seq next_even_seq get_session touch_session
engaged_has_access_example =
    engaged_has_access env hooks none chat event (some "tg:2") "hi" false false wiring joined
      (world_of round) refl
