-- ===== src/Sessions.antt =====
-- src/db/sessions.ts and `resolveSession` of src/session-manager.ts. The table of sessions is a list
-- of rows, oldest insert first. Its foreign keys hold at every call, since the callers have read the
-- two rows that a new session refers to.
pub mod Lookup
pub mod Resolve
mod Examples
use pocketclaw_telegram.Prelude.{
  ℕ, String, ◌==◌, Bool, true, false, not, ◌&&◌, Option, none, some, List, [], ◌∷◌, ◌++◌, any, find,
  select, update, ltb, if◌then◌else◌, is_some, is_none, is_text,
}
use pocketclaw_telegram.Types.{
  Session, SessionStatus, active, closed, ContainerStatus, stopped, SessionMode, shared, per_thread,
  agent_shared,
}

abbrev pub is_active : SessionStatus → Bool
is_active active = true
is_active closed = false

-- `if (text)` on a nullable text.
abbrev pub is_truthy : Option String → Bool
is_truthy none = false
is_truthy (some s) = not (s == "")

unfoldable pub get_session : List Session → String → Option Session
get_session db id = find (λ s. s.id == id) db

-- `if (threadId)`: a falsy thread id asks for a session without thread.
abbrev pub matches_thread : Option String → Option String → Bool
matches_thread none stored = is_none stored
matches_thread (some t) stored = if t == "" then is_none stored else is_text stored t

-- The WHERE clause of `findSessionForAgent`.
abbrev pub is_session_for : String → String → Option String → Session → Bool
is_session_for group mg thread s =
    s.agent_group_id == group
    && is_text s.messaging_group_id mg
    && matches_thread thread s.thread_id
    && is_active s.status

unfoldable pub find_session_for_agent :
    List Session → String → String → Option String → Option Session
find_session_for_agent db group mg thread = find (is_session_for group mg thread) db

-- `ORDER BY created_at DESC LIMIT 1`; of two rows of one instant the older insert.
abbrev pub newest : List Session → Option Session
newest [] = none
newest (s ∷ ss) = elim (newest ss) [
  | none ↦ some s
  | some t ↦ if ltb s.created_at t.created_at then some t else some s
]

unfoldable pub find_session_by_agent_group : List Session → String → Option Session
find_session_by_agent_group db group =
    newest (select (λ s. s.agent_group_id == group && is_active s.status) db)

-- `updateSession(id, { last_active })`
unfoldable pub touch_session : ℕ → List Session → String → List Session
touch_session now db id = update (λ s. s.id == id) (λ s. record s { last_active = some now }) db

abbrev pub is_shared : SessionMode → Bool
is_shared shared = true
is_shared _ = false

-- The session that `resolveSession` looks for before it makes one.
unfoldable pub existing_session :
    List Session → String → Option String → Option String → SessionMode → Option Session
existing_session db group mg thread agent_shared = find_session_by_agent_group db group
existing_session db group none thread mode = none
existing_session db group (some m) thread mode =
    if m == ""
    then none
    else find_session_for_agent db group m (if is_shared mode then none else thread)

abbrev pub stored_thread : SessionMode → Option String → Option String
stored_thread per_thread thread = thread
stored_thread _ thread = none

abbrev pub new_session : ℕ → String → String → Option String → Option String → SessionMode → Session
new_session now id group mg thread mode = record {
  id = id;
  agent_group_id = group;
  messaging_group_id = mg;
  thread_id = stored_thread mode thread;
  agent_provider = none;
  status = active;
  container_status = stopped;
  last_active = none;
  created_at = now;
}

pub record Resolved : Type 0 where
  pub session : Session
  pub created : Bool
  pub sessions : List Session

-- `id` is the random id that the call would give a new session; `none` is the throw on a taken one.
unfoldable pub resolve_session :
    ℕ
    → String
    → List Session
    → String
    → Option String
    → Option String
    → SessionMode
    → Option Resolved
resolve_session now id db group mg thread mode = elim (existing_session db group mg thread mode) [
  | some s ↦ some (record { session = s; created = false; sessions = db })
  | none ↦
      if any (λ s. s.id == id) db
      then none
      else some (record {
        session = new_session now id group mg thread mode;
        created = true;
        sessions = db ++ new_session now id group mg thread mode ∷ [];
      })
]
