-- ===== src/Router/Engage.antt =====
-- When a wiring engages: `evaluateEngage` of src/router.ts and the session it leaves behind.
use pocketclaw_telegram.Prelude.{
  String, ◌==◌, eq_iff, Bool, true, false, Option, none, some, List, ◌≡◌, refl, ap, sym, ◌∙◌, ◌≢◌,
  ◌⊎◌, inl, inr, arith, Option-cases, Bool-cases, subst, ◌↔◌,
}
use pocketclaw_telegram.Types.{
  MessagingGroup, MessagingGroupAgent, EngageMode, pattern_mode, mention, mention_sticky, Session,
  SessionMode, per_thread,
}
use pocketclaw_telegram.Sessions.{
  find_session_for_agent, existing_session, Resolved, resolve_session,
}
use pocketclaw_telegram.Sessions.Lookup.{
  HasSession, find_session_for_agent-HasSession, HasSession-find_session_for_agent,
}
use pocketclaw_telegram.Sessions.Resolve.{Addressable, resolve_cases, made_again}
use pocketclaw_telegram.World.{World, Env, ok, open_session, opened}
use pocketclaw_telegram.Router.Event.{evaluate_engage, or_text}

-- A pattern matches a text if it is the sentinel ".", if the engine says so, or if it is no pattern.
abbrev pub PatternFires : Env → String → String → Type 0
PatternFires env pat message =
    (pat ≡ ".") ⊎ ((env.regex_test pat message ≡ some true) ⊎ (env.regex_test pat message ≡ none))

-- The condition of each engage mode. A mention counts only as the platform reports it, and the name
-- of the agent group plays no part; a sticky wiring also follows up in a group chat where a session
-- of this agent for the thread is active.
abbrev pub Engages :
    Env
    → World
    → EngageMode
    → MessagingGroupAgent
    → String
    → Bool
    → MessagingGroup
    → Option String
    → Type 0
Engages env w pattern_mode agent message is_mention mg thread =
    PatternFires env (or_text agent.engage_pattern ".") message
Engages env w mention agent message is_mention mg thread = is_mention ≡ true
Engages env w mention_sticky agent message is_mention mg thread =
    (is_mention ≡ true)
    ⊎ ((mg.is_group ≢ 0) × HasSession w.sessions agent.agent_group_id mg.id thread)

module _ (env : Env) (w : World) (agent : MessagingGroupAgent) (message : String)
    (is_mention : Bool) (mg : MessagingGroup) (thread : Option String) where
  Engages-to :
      (mode : EngageMode)
      → agent.engage_mode ≡ mode
      → evaluate_engage env w agent message is_mention mg thread ≡ true
      → Engages env w mode agent message is_mention mg thread
  unfolding evaluate_engage
  Engages-to pattern_mode e h = elim (Bool-cases (or_text agent.engage_pattern "." == ".")) [
    | inl dot ↦ inl ((eq_iff _ ".").0 dot)
    | inr other ↦ elim (Option-cases (env.regex_test (or_text agent.engage_pattern ".") message)) [
      | inl bad ↦ inr (inr bad)
      | inr (b, run) ↦ inr (inl (run ∙ ap some (ground arith)))
    ]
  ]
  Engages-to mention e h = ground arith
  Engages-to mention_sticky e h = elim (Bool-cases is_mention) [
    | inl m ↦ inl m
    | inr m ↦
        elim (Option-cases (find_session_for_agent w.sessions agent.agent_group_id mg.id thread)) [
          | inl missing ↦ absurd (ground arith)
          | inr (s, found) ↦ inr (
            ground arith,
            find_session_for_agent-HasSession w.sessions agent.agent_group_id mg.id thread s found,
          )
        ]
  ]

  Engages-from :
      (mode : EngageMode)
      → agent.engage_mode ≡ mode
      → Engages env w mode agent message is_mention mg thread
      → evaluate_engage env w agent message is_mention mg thread ≡ true
  unfolding evaluate_engage
  Engages-from pattern_mode e (inl dot) =
      ground (arith, (eq_iff (or_text agent.engage_pattern ".") ".").1 dot)
  Engages-from pattern_mode e (inr (inl fires)) = ground arith
  Engages-from pattern_mode e (inr (inr bad)) = ground arith
  Engages-from mention e h = ground arith
  Engages-from mention_sticky e (inl m) = ground arith
  Engages-from mention_sticky e (inr (g, there)) =
      let (s, found) =
        HasSession-find_session_for_agent w.sessions agent.agent_group_id mg.id thread there in
      ground arith

-- A wiring engages exactly on the condition of its mode: for 'pattern' a match, the sentinel "." or
-- a pattern that is no regular expression; for 'mention' the platform's mention signal alone; for
-- 'mention-sticky' that signal, or, in a group chat, a row of the sessions that is active and is of
-- this agent, this chat and this thread (of no thread, where the event has none or an empty one).
pub evaluate_engage_iff :
    (env : Env) (w : World) (agent : MessagingGroupAgent) (message : String) (is_mention : Bool)
    (mg : MessagingGroup) (thread : Option String)
    → (evaluate_engage env w agent message is_mention mg thread ≡ true)
      ↔ Engages env w agent.engage_mode agent message is_mention mg thread
evaluate_engage_iff env w agent message is_mention mg thread = (
  Engages-to env w agent message is_mention mg thread agent.engage_mode refl,
  Engages-from env w agent message is_mention mg thread agent.engage_mode refl,
)

-- The parts of a session that was opened.
pub open_session_cases :
    (env : Env) (w w' : World) (group : String) (mg thread : Option String) (mode : SessionMode)
    (s : Session)
    → open_session env group mg thread mode w ≡ ok s w'
    → (r : Resolved) × (resolve_session env.now
          (env.fresh "sess" w.draws)
          w.sessions
          group
          mg
          thread
          mode
        ≡ some r)
      × (r.session ≡ s)
      × (w' ≡ opened r w)
unfolding open_session
open_session_cases env w w' group mg thread mode s h =
    elim (Option-cases
      (resolve_session env.now (env.fresh "sess" w.draws) w.sessions group mg thread mode)) [
        | inl e ↦ absurd (ground arith)
        | inr (r, e) ↦ (r, e, ground arith, ground arith)
      ]

opened-sessions : (r : Resolved) (w : World) → (opened r w).sessions ≡ r.sessions
opened-sessions r w = ground arith

find_of_existing :
    (db : List Session) (group m : String) (thread : Option String) (s : Session)
    → existing_session db group (some m) thread per_thread ≡ some s
    → find_session_for_agent db group m thread ≡ some s
unfolding existing_session
find_of_existing db group m thread s h = ground arith

-- Once a thread of a group chat has its session with an agent, later messages in the thread engage a
-- mention-sticky wiring of that agent without a mention, for a thread id that is not empty.
pub sticky_follow_up :
    (env : Env) (w w' : World) (agent : MessagingGroupAgent) (mg : MessagingGroup)
    (thread : Option String) (s : Session) (message : String)
    → agent.engage_mode ≡ mention_sticky
    → mg.is_group ≢ 0
    → Addressable (some mg.id) thread per_thread
    → open_session env agent.agent_group_id (some mg.id) thread per_thread w ≡ ok s w'
    → evaluate_engage env w' agent message false mg thread ≡ true
sticky_follow_up env w w' agent mg thread s message sticky grouped a h =
    let (r, resolved, same, after) =
      open_session_cases env w w' agent.agent_group_id (some mg.id) thread per_thread s h in
    let stored : w'.sessions ≡ r.sessions =
      ap (λ (q : World). q.sessions) after ∙ opened-sessions r w in
    Engages-from env w' agent message false mg thread mention_sticky sticky (
      inr (
        grouped,
        find_session_for_agent-HasSession w'.sessions agent.agent_group_id mg.id thread r.session (
            ap (λ db. find_session_for_agent db agent.agent_group_id mg.id thread) stored
            ∙ find_of_existing r.sessions agent.agent_group_id mg.id thread r.session
                (again env w agent mg thread r a resolved)),
      ))
  where
    again :
        (env : Env) (w : World) (agent : MessagingGroupAgent) (mg : MessagingGroup)
        (thread : Option String) (r : Resolved)
        → Addressable (some mg.id) thread per_thread
        → resolve_session env.now
            (env.fresh "sess" w.draws)
            w.sessions
            agent.agent_group_id
            (some mg.id)
            thread
            per_thread
          ≡ some r
        → existing_session r.sessions agent.agent_group_id (some mg.id) thread per_thread
          ≡ some r.session
    again env w agent mg thread r a h =
        elim (resolve_cases env.now (env.fresh "sess" w.draws) w.sessions agent.agent_group_id
          (some mg.id) thread per_thread r h) [
            | inl (s, e, shape) ↦
                subst
                  (λ (q : Resolved).
                    existing_session q.sessions agent.agent_group_id (some mg.id) thread per_thread
                    ≡ some q.session)
                  (sym shape) e
            | inr (e, _, shape) ↦
                subst
                  (λ (q : Resolved).
                    existing_session q.sessions agent.agent_group_id (some mg.id) thread per_thread
                    ≡ some q.session)
                  (sym shape)
                  (made_again env.now (env.fresh "sess" w.draws) w.sessions agent.agent_group_id
                    (some mg.id) thread per_thread a e)
          ]
