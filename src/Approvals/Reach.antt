-- ===== src/Approvals/Reach.antt =====
-- How an approver is reached: src/modules/permissions/user-dm.ts, the statements of
-- permissions/db/user-dms.ts, and `pickApprovalDelivery` of src/modules/approvals/primitive.ts.
pub mod Quiet
use Prim.Native.Char.{code}
use pocketclaw_telegram.Approvals.{ended, Office, UserDm, P, then_do, lifted}
use pocketclaw_telegram.Delivery.Message.{get_messaging_group_by_platform}
use pocketclaw_telegram.Router.Inbound.{create_group}
use pocketclaw_telegram.Prelude.{
  Option, String, none, Bool, some, find, List, ℕ, if◌then◌else◌, is_some, ◌==◌, ◌∷◌, select, eqb,
  ◌||◌, ◌&&◌, [], not,
}
use pocketclaw_telegram.World.{Env, get_messaging_group}
use pocketclaw_telegram.Types.{User, MessagingGroup, strict}
use pocketclaw_telegram.Permissions.{get_user}

-- What a channel's adapter can do: `open_dm` is its `openDM`, where it has one, and `none` of a
-- handle is a throw.
pub record DmAdapter : Type 0 where
  pub open_dm : Option (String → Option String)

-- What precedes the first colon, and what follows it.
abbrev pub split_colon : String → Option (String × String)
split_colon String.[] = none
split_colon (String.◌∷◌ c s) = elim (split_colon s) [
  | none ↦ if eqb (code c) b':' then some (String.[], s) else none
  | some (prefix, handle) ↦
      if eqb (code c) b':' then some (String.[], s) else some (String.◌∷◌ c prefix, handle)
]

unfoldable pub channel_type_of : String → String
channel_type_of user_id = elim (split_colon user_id) [ none ↦ "" | some (prefix, handle) ↦ prefix ]

abbrev pub has_adapter : (String → Option DmAdapter) → String → Bool
has_adapter adapters type = is_some (adapters type)

abbrev pub namespaced_parts :
    (String → Option DmAdapter) → User → String × String → Option (String × String)
namespaced_parts adapters user (prefix, handle) =
    if prefix == "" || handle == ""
    then none
    else if not (has_adapter adapters prefix)
        && not (user.kind == "")
        && has_adapter adapters user.kind
    then some (user.kind, user.id)
    else some (prefix, handle)

-- The channel and the handle; `none` where the id has no namespace.
unfoldable pub parse_user_id : (String → Option DmAdapter) → User → Option (String × String)
parse_user_id adapters user = elim (split_colon user.id) [
  | none ↦ none
  | some parts ↦ namespaced_parts adapters user parts
]

abbrev pub opened_dm : Option (String → Option String) → String → Option String
opened_dm none handle = some handle
opened_dm (some f) handle = f handle

unfoldable pub resolve_dm_platform_id :
    (String → Option DmAdapter) → String → String → Option String
resolve_dm_platform_id adapters type handle = elim (adapters type) [
  | none ↦ none
  | some a ↦ opened_dm a.open_dm handle
]

unfoldable pub get_user_dm : Office → String → String → Option UserDm
get_user_dm o user type = find (λ d. d.user_id == user && d.channel_type == type) o.user_dms

abbrev pub put_dm : UserDm → List UserDm → List UserDm
put_dm row [] = row ∷ []
put_dm row (d ∷ ds) =
    if d.user_id == row.user_id && d.channel_type == row.channel_type
    then record d { messaging_group_id = row.messaging_group_id; resolved_at = row.resolved_at }
      ∷ ds
    else d ∷ put_dm row ds

unfoldable pub upsert_user_dm : UserDm → Office → Office
upsert_user_dm row o = record o { user_dms = put_dm row o.user_dms }

abbrev pub cached_group : Office → Option UserDm → Option MessagingGroup
cached_group o none = none
cached_group o (some d) = get_messaging_group o.world d.messaging_group_id

abbrev pub dm_group : Env → ℕ → User → String → String → MessagingGroup
dm_group env n user type platform = record {
  id = env.fresh "mg" n;
  channel_type = type;
  platform_id = platform;
  instance_name = type;
  name = user.display_name;
  is_group = 0;
  unknown_sender_policy = strict;
  denied_at = none;
  created_at = env.now;
}

abbrev pub remembered : Env → String → String → MessagingGroup → P (Option MessagingGroup)
remembered env user_id type mg o = ended (some mg) (
    upsert_user_dm
      (record {
        user_id = user_id;
        channel_type = type;
        messaging_group_id = mg.id;
        resolved_at = env.now;
      })
      o)

abbrev pub found_or_created :
    Env → User → String → String → Option MessagingGroup → P (Option MessagingGroup)
found_or_created env user type platform (some mg) o = remembered env user.id type mg o
found_or_created env user type platform none o =
    let mg = dm_group env o.world.draws user type platform in
    then_do (lifted o (create_group mg o.world)) (λ u. remembered env user.id type mg)

abbrev pub at_platform : Env → User → String → Option String → P (Option MessagingGroup)
at_platform env user type none o = ended none o
at_platform env user type (some platform) o =
    if platform == ""
    then ended none o
    else found_or_created env user type platform
        (get_messaging_group_by_platform env o.world type platform) o

module _ (env : Env) (adapters : String → Option DmAdapter) where
  abbrev pub uncached : User → String → String → Option MessagingGroup → P (Option MessagingGroup)
  uncached user type handle (some mg) o = ended (some mg) o
  uncached user type handle none o =
      at_platform env user type (resolve_dm_platform_id adapters type handle) o

  abbrev pub at_handle : User → Option (String × String) → P (Option MessagingGroup)
  at_handle user none o = ended none o
  at_handle user (some (type, handle)) o =
      uncached user type handle (cached_group o (get_user_dm o user.id type)) o

  abbrev pub for_user : Option User → P (Option MessagingGroup)
  for_user none o = ended none o
  for_user (some user) o = at_handle user (parse_user_id adapters user) o

  -- `none` where the user cannot be reached.
  unfoldable pub ensure_user_dm : String → P (Option MessagingGroup)
  ensure_user_dm user_id o = for_user (get_user o.world.permissions user_id) o

  abbrev pub or_next :
      String
      → P (Option (String × MessagingGroup))
      → Option MessagingGroup
      → P (Option (String × MessagingGroup))
  or_next user next none o = next o
  or_next user next (some mg) o = ended (some (user, mg)) o

  -- The first of the users that can be reached; and of those on the channel.
  unfoldable pub first_reachable : List String → P (Option (String × MessagingGroup))
  first_reachable [] o = ended none o
  first_reachable (user ∷ users) o =
      then_do (ensure_user_dm user o) (or_next user (first_reachable users))

  abbrev pub on_channel : String → List String → List String
  on_channel type = select (λ u. channel_type_of u == type)

  abbrev pub or_any :
      List String → Option (String × MessagingGroup) → P (Option (String × MessagingGroup))
  or_any approvers (some target) o = ended (some target) o
  or_any approvers none o = first_reachable approvers o

  unfoldable pub pick_approval_delivery :
      List String → String → P (Option (String × MessagingGroup))
  pick_approval_delivery approvers origin o =
      if origin == ""
      then first_reachable approvers o
      else then_do (first_reachable (on_channel origin approvers) o) (or_any approvers)
