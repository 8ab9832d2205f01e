-- ===== src/SenderGates.antt =====
-- The hooks that src/modules/permissions/index.ts registers with the router: who the sender is, and
-- whether he may talk to an agent.
pub mod Admission
mod Examples
use Prim.Native.String
use pocketclaw_telegram.Json.{type_error, Property, Json, get, value, text, undefined, null}
use pocketclaw_telegram.Prelude.{
  Option, String, if◌then◌else◌, ◌++◌, Bool, some, any, ◌∷◌, is_some, ◌==◌, true, false, none, eqb,
  [],
}
use pocketclaw_telegram.Types.{
  User, UnknownSenderPolicy, SenderScope, MessagingGroup, strict, MessagingGroupAgent,
  request_approval, public, all_senders, known_senders,
}
use pocketclaw_telegram.World.{
  Env, World, M, ok, record_dropped, ◌>>◌, threw, approval_requested, return, ◌>>=◌,
}
use pocketclaw_telegram.Permissions.{
  AccessDecision, allowed, get_user, can_access_agent_group, denied,
}
use pocketclaw_telegram.Router.Event.{Event, or_throw, parsed_sender}
use pocketclaw_telegram.Router.Inbound.{dropped_row}
use pocketclaw_telegram.CommandGate.{codes}

-- A property that is a text.
abbrev pub text_of_property : Property → Option String
text_of_property (value (text s)) = some s
text_of_property _ = none

-- `a ?? b`
abbrev pub first_of : Option String → Option String → Option String
first_of none b = b
first_of (some a) b = some a

-- A text inside `content.author`.
abbrev pub author_text : Json → String → Option String
author_text content key = elim (get content "author") [
  | type_error ↦ none
  | undefined ↦ none
  | value author ↦ text_of_property (get author key)
]

abbrev pub raw_handle : Json → Option String
raw_handle content =
    first_of (text_of_property (get content "senderId"))
      (first_of (text_of_property (get content "sender")) (author_text content "userId"))

abbrev pub sender_name_of : Json → Option String
sender_name_of content =
    first_of (text_of_property (get content "senderName"))
      (first_of (author_text content "fullName") (author_text content "userName"))

-- `handle.includes(':') ? handle : channelType + ':' + handle`
abbrev pub namespaced : String → String → String
namespaced channel_type handle =
    if any (λ c. eqb c 58) (codes handle)
    then handle
    else String.◌++◌ channel_type (String.◌++◌ ":" handle)

-- The insert of `upsertUser`, for an id that the table does not have.
unfoldable pub insert_user : User → World → World
insert_user u w = record w {
  permissions = record w.permissions { users = w.permissions.users ++ u ∷ [] };
}

abbrev pub known_user : Env → Event → Json → String → M (Option String)
known_user env e content id w =
    if is_some (get_user w.permissions id)
    then ok (some id) w
    else ok (some id) (
        insert_user
          (record {
            id = id;
            kind = e.channel_type;
            display_name = sender_name_of content;
            created_at = env.now;
          })
          w)

abbrev pub user_of_handle : Env → Event → Json → Option String → M (Option String)
user_of_handle env e content none w = ok none w
user_of_handle env e content (some handle) w =
    if handle == ""
    then ok none w
    else known_user env e content (namespaced e.channel_type handle) w

abbrev pub user_of_content : Env → Event → Option Json → M (Option String)
user_of_content env e none w = ok none w
user_of_content env e (some null) w = threw w
user_of_content env e (some content) w = user_of_handle env e content (raw_handle content) w

unfoldable pub extract_and_upsert_user : Env → Event → M (Option String)
extract_and_upsert_user env e w = user_of_content env e (env.parse_json e.content) w

abbrev pub policy_reason : UnknownSenderPolicy → String
policy_reason strict = "unknown_sender_strict"
policy_reason request_approval = "unknown_sender_request_approval"
policy_reason public = "unknown_sender_public"

abbrev pub drop_sender :
    Env → Event → MessagingGroup → Option String → String → Option String → World → World
drop_sender env e mg user group sender w = record w {
  dropped =
      record_dropped
        (record (dropped_row env e user sender (policy_reason mg.unknown_sender_policy) mg) {
          agent_group_id = some group;
        })
        w.dropped;
}

-- The approval flow starts for a sender that is known by an id; its card is an effect.
abbrev pub ask_approval : Option String → String → World → World
ask_approval none group w = w
ask_approval (some id) group w =
    if id == "" then w else record w { effects = w.effects ++ approval_requested group id ∷ [] }

abbrev pub by_policy :
    Env
    → Event
    → MessagingGroup
    → Option String
    → String
    → Option String
    → UnknownSenderPolicy
    → World
    → World
by_policy env e mg user group sender strict w = drop_sender env e mg user group sender w
by_policy env e mg user group sender request_approval w =
    ask_approval user group (drop_sender env e mg user group sender w)
by_policy env e mg user group sender public w = w

unfoldable pub handle_unknown_sender :
    Env → MessagingGroup → Option String → String → Event → M (Unit {0})
handle_unknown_sender env mg user group e = or_throw (parsed_sender env e.content) >>= λ sender.
    λ w. ok tt (by_policy env e mg user group sender mg.unknown_sender_policy w)

abbrev pub refuse : Env → MessagingGroup → Option String → String → Event → M Bool
refuse env mg user group e = handle_unknown_sender env mg user group e >> return false

abbrev pub is_public : UnknownSenderPolicy → Bool
is_public public = true
is_public strict = false
is_public request_approval = false

abbrev pub allows : AccessDecision → Bool
allows (allowed reason) = true
allows (denied reason) = false

abbrev pub admit_user : Env → Event → Option String → MessagingGroup → String → M Bool
admit_user env e none mg group w = refuse env mg none group e w
admit_user env e (some id) mg group w =
    if id == ""
    then refuse env mg none group e w
    else if allows (can_access_agent_group w.permissions id group)
    then ok true w
    else refuse env mg (some id) group e w

unfoldable pub access_gate : Env → Event → Option String → MessagingGroup → String → M Bool
access_gate env e user mg group w =
    if is_public mg.unknown_sender_policy then ok true w else admit_user env e user mg group w

abbrev pub is_all : SenderScope → Bool
is_all all_senders = true
is_all known_senders = false

abbrev pub in_scope : World → Option String → String → Bool
in_scope w none group = false
in_scope w (some id) group =
    if id == "" then false else allows (can_access_agent_group w.permissions id group)

unfoldable pub sender_scope_gate :
    Event → Option String → MessagingGroup → MessagingGroupAgent → M Bool
sender_scope_gate e user mg agent w =
    ok (if is_all agent.sender_scope then true else in_scope w user agent.agent_group_id) w
