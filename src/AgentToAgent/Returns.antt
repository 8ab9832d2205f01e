-- ===== src/AgentToAgent/Returns.antt =====
-- Which session of the target receives a message between agents: `resolveTargetSession` of
-- src/modules/agent-to-agent/agent-route.ts.
use pocketclaw_telegram.Prelude.{
  String, Option, List, ◌≡◌, some, false, Bool-cases, ◌==◌, Option-cases, find, inl, arith, ◌++◌,
  ap, subst, ◌∷◌, true, inr, sym, [], none, ◌∙◌, eq_iff, refl,
}
use pocketclaw_telegram.AgentToAgent.Route.{
  return_session, resolve_target_session, origin_session_id, if_serving, agent_message,
  is_target_session, returned_or_opened,
}
use pocketclaw_telegram.World.{Env, World, ok, lookup_db}
use pocketclaw_telegram.SessionDb.{
  insert_message, MessageOut, MessageIn, insert_row, get_inbound_source_session_id, InboundDb,
  has_id, message_row, next_even_seq,
}
use pocketclaw_telegram.Types.{Session, active, agent_shared}
use pocketclaw_telegram.Sessions.{get_session}
use pocketclaw_telegram.Router.Engage.{open_session_cases}
use pocketclaw_telegram.Sessions.Resolve.{resolve_session-Owned, is_active_iff}

serving-Owned :
    (target : String) (o : Option Session) (s : Session)
    → if_serving target o ≡ some s
    → (s.agent_group_id ≡ target) × (s.status ≡ active)
serving-Owned target none s h = cc
serving-Owned target (some t) s h = elim (Bool-cases (is_target_session target t)) [
  | inl e ↦
      let same : t ≡ s = ground arith in
      (
        ap (λ (q : Session). q.agent_group_id) (sym same)
            ∙ ground (arith, eq_iff t.agent_group_id target),
        ap (λ (q : Session). q.status) (sym same) ∙ ground (arith, is_active_iff t.status),
      )
  | inr e ↦ absurd (ground arith)
]

return_session-Owned :
    (w : World) (target : String) (id : Option String) (s : Session)
    → return_session w target id ≡ some s
    → (s.agent_group_id ≡ target) × (s.status ≡ active)
unfolding return_session
return_session-Owned w target none s h = cc
return_session-Owned w target (some id) s h = elim (Bool-cases (id == "")) [
  | inl e ↦ absurd (ground arith)
  | inr e ↦ serving-Owned target (get_session w.sessions id) s (ground arith)
]

opened-Owned :
    (env : Env) (target : String) (o : Option Session) (w w' : World) (s : Session)
    → ((t : Session) → o ≡ some t → (t.agent_group_id ≡ target) × (t.status ≡ active))
    → returned_or_opened env target o w ≡ ok s w'
    → (s.agent_group_id ≡ target) × (s.status ≡ active)
opened-Owned env target (some t) w w' s owned h =
    let same : t ≡ s = ground arith in
    subst (λ (q : Session). (q.agent_group_id ≡ target) × (q.status ≡ active)) same (owned t refl)
opened-Owned env target none w w' s owned h =
    let (r, resolved, same, after) =
      open_session_cases env w w' target none none agent_shared s h in
    subst (λ (q : Session). (q.agent_group_id ≡ target) × (q.status ≡ active)) same
      (resolve_session-Owned env.now (env.fresh "sess" w.draws) w.sessions target none none
        agent_shared r resolved)

-- A message between agents is delivered to an active session of the target's agent group, whichever of
-- the three lookups chose it.
pub resolve_target_session-Owned :
    (env : Env) (msg : MessageOut) (source : Session) (target : String) (w w' : World) (s : Session)
    → resolve_target_session env msg source target w ≡ ok s w'
    → (s.agent_group_id ≡ target) × (s.status ≡ active)
unfolding resolve_target_session
resolve_target_session-Owned env msg source target w w' s h =
    elim (Option-cases (lookup_db source.id w.inboxes)) [
      | inl e ↦ absurd (ground arith)
      | inr (db, e) ↦
          opened-Owned env target (return_session w target (origin_session_id db msg target)) w w' s
            (return_session-Owned w target (origin_session_id db msg target)) (ground arith)
    ]

find_appended :
    (id : String) (row : MessageIn) (ms : List MessageIn)
    → row.id ≡ id
    → has_id id ms ≡ false
    → find (λ m. m.id == id) (ms ++ row ∷ []) ≡ some row
find_appended id row [] same new = ground (arith, eq_iff row.id id)
find_appended id row (m ∷ ms) same new = ground (arith, find_appended id row ms same)

-- The row that a message between agents leaves names the session that sent it.
source_of_insert :
    (env : Env) (id content : String) (source : Session) (db db' : InboundDb)
    → insert_message db (agent_message env id source content) ≡ some db'
    → get_inbound_source_session_id db' id ≡ some source.id
unfolding insert_message insert_row get_inbound_source_session_id
source_of_insert env id content source db db' h = elim (Bool-cases (has_id id db.messages_in)) [
  | inl e ↦ absurd (ground arith)
  | inr e ↦
      let row : MessageIn = message_row (agent_message env id source content) (next_even_seq db) in
      let after : db' ≡ record db { messages_in = db.messages_in ++ row ∷ [] } = ground arith in
      subst (λ (q : InboundDb). get_inbound_source_session_id q id ≡ some source.id) (sym after)
        (rw (get_inbound_source_session_id, find_appended id row db.messages_in refl e) refl)
]

-- A reply to a message between agents goes back to the session that sent the message, when that
-- session is still active in the replier's target, and the two identifiers are not empty.
pub reply_returns :
    (env : Env) (id content : String) (source replier s : Session) (db db' : InboundDb)
    (reply : MessageOut) (w : World)
    → insert_message db (agent_message env id source content) ≡ some db'
    → lookup_db replier.id w.inboxes ≡ some db'
    → reply.in_reply_to ≡ some id
    → (id == "") ≡ false
    → (source.id == "") ≡ false
    → get_session w.sessions source.id ≡ some s
    → is_target_session source.agent_group_id s ≡ true
    → resolve_target_session env reply replier source.agent_group_id w ≡ ok s w
unfolding resolve_target_session origin_session_id return_session
reply_returns env id content source replier s db db' reply w sent inbox replied named known live
      serving =
    let origin : get_inbound_source_session_id db' id ≡ some source.id =
      source_of_insert env id content source db db' sent in
    ground (arith, origin)
