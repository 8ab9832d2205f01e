-- ===== src/Router/Inbound.antt =====
-- `routeInbound` of src/router.ts.
use pocketclaw_telegram.Prelude.{
  ℕ, ◌+◌, String, ◌==◌, Bool, false, not, ◌&&◌, Option, none, some, List, [], ◌∷◌, ◌++◌, any, find,
  select, length, leb, eqb, if◌then◌else◌, is_some,
}
use pocketclaw_telegram.Types.{MessagingGroup, request_approval, MessagingGroupAgent}
use pocketclaw_telegram.World.{
  World, Env, ok, threw, M, ◌>>=◌, ◌>>◌, return, effect, channel_requested, Dropped, record_dropped,
  Ran,
}
use pocketclaw_telegram.Router.Event.{
  Event, Hooks, Adapter, or_text, or_throw, parsed_sender, parsed_message_text,
}
use pocketclaw_telegram.Router.Agents.{fan_out}

-- `ORDER BY priority DESC`
abbrev pub insert_by_priority :
    MessagingGroupAgent → List MessagingGroupAgent → List MessagingGroupAgent
insert_by_priority a [] = a ∷ []
insert_by_priority a (b ∷ bs) =
    if leb b.priority a.priority then a ∷ b ∷ bs else b ∷ insert_by_priority a bs

abbrev pub by_priority : List MessagingGroupAgent → List MessagingGroupAgent
by_priority [] = []
by_priority (a ∷ bs) = insert_by_priority a (by_priority bs)

unfoldable pub get_messaging_group_agents : World → String → List MessagingGroupAgent
get_messaging_group_agents w id = by_priority (select (λ a. a.messaging_group_id == id) w.wirings)

abbrev pub instance_of : Event → String
instance_of e = or_text e.instance_name e.channel_type

abbrev pub dropped_row :
    Env → Event → Option String → Option String → String → MessagingGroup → Dropped
dropped_row env e user sender reason mg = record {
  channel_type = e.channel_type;
  platform_id = e.platform_id;
  user_id = user;
  sender_name = sender;
  reason = reason;
  messaging_group_id = some mg.id;
  agent_group_id = none;
  message_count = 1;
  first_seen = env.now;
  last_seen = env.now;
}

unfoldable pub drop_message : Env → Event → Option String → String → MessagingGroup → M (Unit {0})
drop_message env e user reason mg = do
  sender ← or_throw (parsed_sender env e.content)
  λ w.
      ok tt
        (record w { dropped = record_dropped (dropped_row env e user sender reason mg) w.dropped })

-- `void promise.catch(…)`: an error is logged.
abbrev pub caught : M (Unit {0}) → M (Unit {0})
caught m w = returned (m w)
  where
    returned : Ran (Unit {0}) → Ran (Unit {0})
    returned (ok a v) = ok tt v
    returned (threw v) = ok tt v

-- Branch 1b, for a chat without wirings.
unfoldable pub route_unwired : Env → Hooks → Event → MessagingGroup → M (Unit {0})
route_unwired env hooks e mg w =
    if not e.is_mention
    then ok tt w
    else if is_some mg.denied_at
    then ok tt w
    else (drop_message env e none "no_agent_wired" mg >> (elim hooks.channel_request_gate [
      | none ↦ return tt
      | some gate ↦ effect (channel_requested mg.id) >> caught (gate mg e)
    ]))
        w

abbrev pub resolve_sender : Hooks → Event → M (Option String)
resolve_sender hooks e = elim hooks.sender_resolver [ none ↦ return none | some f ↦ f e ]

abbrev pub report_dropped : Env → Event → Option String → MessagingGroup → ℕ → M (Unit {0})
report_dropped env e user mg n =
    if eqb n 0 then drop_message env e user "no_agent_engaged" mg else return tt

-- Steps 2 to 4, for a chat with wirings.
unfoldable pub route_wired : Env → Hooks → Option Adapter → Event → MessagingGroup → M (Unit {0})
route_wired env hooks adapter e mg = do
  user ← resolve_sender hooks e
  message ← or_throw (parsed_message_text env e.content)
  n ← (λ w.
      fan_out env hooks adapter mg e user (or_text message "") 0 false
        (get_messaging_group_agents w mg.id) w)
  report_dropped env e user mg n

abbrev pub is_group_of : Event → MessagingGroup → Bool
is_group_of e g =
    g.channel_type == e.channel_type
    && g.platform_id == e.platform_id
    && g.instance_name == instance_of e

abbrev pub new_group : Env → ℕ → Event → MessagingGroup
new_group env n e = record {
  id = env.fresh "mg" n;
  channel_type = e.channel_type;
  platform_id = e.platform_id;
  instance_name = instance_of e;
  name = none;
  is_group = if e.is_group then 1 else 0;
  unknown_sender_policy = request_approval;
  denied_at = none;
  created_at = env.now;
}

abbrev pub create_group : MessagingGroup → M (Unit {0})
create_group g w =
    if any (λ h. h.id == g.id) w.messaging_groups
    then threw w
    else ok tt (record w { messaging_groups = w.messaging_groups ++ g ∷ []; draws = w.draws + 1 })

unfoldable pub route_found : Env → Hooks → Option Adapter → Event → MessagingGroup → M (Unit {0})
route_found env hooks adapter e mg w =
    if eqb (length (select (λ a. a.messaging_group_id == mg.id) w.wirings)) 0
    then route_unwired env hooks e mg w
    else route_wired env hooks adapter e mg w

unfoldable pub route_event : Env → Hooks → Option Adapter → Event → M (Unit {0})
route_event env hooks adapter e w = elim (find (is_group_of e) w.messaging_groups) [
  | some mg ↦ route_found env hooks adapter e mg w
  | none ↦
      if not e.is_mention
      then ok tt w
      else (create_group (new_group env w.draws e)
            >> route_unwired env hooks e (new_group env w.draws e))
          w
]

abbrev pub without_thread : Option Adapter → Event → Event
without_thread none e = e
without_thread (some a) e = if a.supports_threads then e else record e { thread_id = none }

abbrev pub intercepted : Hooks → Event → M Bool
intercepted hooks e = elim hooks.interceptor [ none ↦ return false | some f ↦ f e ]

unfoldable pub route_inbound : Env → Hooks → (String → Option Adapter) → Event → M (Unit {0})
route_inbound env hooks adapter_of e = do
  consumed ← intercepted hooks e
  if consumed
      then return tt
      else route_event env hooks (adapter_of (instance_of e))
          (without_thread (adapter_of (instance_of e)) e)
