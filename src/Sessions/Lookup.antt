-- ===== src/Sessions/Lookup.antt =====
-- Which session `findSessionForAgent` of src/db/sessions.ts finds, as rows of the table.
use pocketclaw_telegram.Sessions.{find_session_for_agent, is_session_for, matches_thread, is_active}
use mathlib.Core.List.{Memᴰ}
use pocketclaw_telegram.Types.{Session, SessionStatus, active, closed}
use pocketclaw_telegram.Permissions.Roles.{is_text_iff, is_none_iff}
use pocketclaw_telegram.Prelude.{
  String, Option, List, ◌≡◌, ◌≢◌, ◌⊎◌, ◌↔◌, some, none, find→Memᴰ, Memᴰ→any, is_some-find, eq_iff,
  ◌==◌, arith, true, Bool-cases, inl, inr, Option-cases, refl, any, find,
}

-- An empty thread id asks for a session without thread.
abbrev pub InThread : Option String → Option String → Type 0
InThread none stored = stored ≡ none
InThread (some t) stored = ((t ≡ "") × (stored ≡ none)) ⊎ ((t ≢ "") × (stored ≡ some t))

-- An active session of the agent group in the chat, for the thread.
abbrev pub HasSession : List Session → String → String → Option String → Type 0
HasSession db group mg thread =
    (s : Session) × Memᴰ s db
    × (s.agent_group_id ≡ group)
    × (s.messaging_group_id ≡ some mg)
    × InThread thread s.thread_id
    × (s.status ≡ active)

is_active_iff : (status : SessionStatus) → (is_active status ≡ true) ↔ (status ≡ active)
is_active_iff active = (λ h. refl, λ h. refl)
is_active_iff closed = (λ h. cc, λ h. cc)

matches_thread_iff :
    (thread stored : Option String) → (matches_thread thread stored ≡ true) ↔ InThread thread stored
matches_thread_iff none stored = is_none_iff stored
matches_thread_iff (some t) stored = elim (Bool-cases (t == "")) [
  | inl e ↦ (
    λ h. inl ((eq_iff t "").0 e, ground (arith, is_none_iff stored)),
    λ m. elim m [
      | inl (_, gone) ↦ ground (arith, is_none_iff stored)
      | inr (named, _) ↦ absurd (named ((eq_iff t "").0 e))
    ],
  )
  | inr e ↦ (
    λ h. inr (λ empty. ground (arith, (eq_iff t "").1 empty), ground (arith, is_text_iff stored t)),
    λ m. elim m [
      | inl (empty, _) ↦ absurd (ground (arith, (eq_iff t "").1 empty))
      | inr (_, there) ↦ ground (arith, is_text_iff stored t)
    ],
  )
]

module _ (db : List Session) (group mg : String) (thread : Option String) where
  pub find_session_for_agent-HasSession :
      (s : Session)
      → find_session_for_agent db group mg thread ≡ some s
      → HasSession db group mg thread
  unfolding find_session_for_agent
  find_session_for_agent-HasSession s h =
      let (m, e) = find→Memᴰ (is_session_for group mg thread) db {x = s} h in
      (
        s,
        m,
        ground (arith, eq_iff s.agent_group_id group),
        ground (arith, is_text_iff s.messaging_group_id mg),
        ground (arith, matches_thread_iff thread s.thread_id),
        ground (arith, is_active_iff s.status),
      )

  pub HasSession-find_session_for_agent :
      HasSession db group mg thread
      → (s : Session) × (find_session_for_agent db group mg thread ≡ some s)
  unfolding find_session_for_agent
  HasSession-find_session_for_agent (s, m, eg, em, et, ea) =
      elim (Option-cases (find (is_session_for group mg thread) db)) [
        | inr found ↦ found
        | inl missing ↦
            let there : any (is_session_for group mg thread) db ≡ true =
              Memᴰ→any (is_session_for group mg thread) m (
                ground (
                  arith,
                  eq_iff s.agent_group_id group,
                  is_text_iff s.messaging_group_id mg,
                  matches_thread_iff thread s.thread_id,
                  is_active_iff s.status,
                )) in
            absurd (ground (arith, is_some-find (is_session_for group mg thread) db))
      ]
