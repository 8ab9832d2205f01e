-- ===== src/Sessions/Resolve.antt =====
-- One call of `resolveSession` of src/session-manager.ts after another.
use pocketclaw_telegram.Prelude.{
  ℕ, String, ◌==◌, eq_iff, eq_refl, Bool, true, false, ◌&&◌, Option, none, some, List, [], ◌∷◌,
  ◌++◌, any, find, select, ◌≡◌, refl, ap, sym, ◌∙◌, ◌≢◌, ◌⊎◌, inl, inr, arith, Option-cases,
  Bool-cases, find→Memᴰ, subst, All,
}
use pocketclaw_telegram.Types.{
  Session, SessionStatus, active, closed, SessionMode, shared, per_thread, agent_shared,
}
use pocketclaw_telegram.Sessions.{
  is_active, find_session_for_agent, find_session_by_agent_group, newest, is_session_for,
  existing_session, new_session, Resolved, resolve_session, matches_thread,
}

module _ {ℓ} {A : Type ℓ} where
  find-append_last :
      (p : A → Bool) (xs : List A) (x : A)
      → find p xs ≡ none
      → p x ≡ true
      → find p (xs ++ x ∷ []) ≡ some x
  find-append_last p [] x h e = rw e
  find-append_last p (y ∷ xs) x h e = ground (arith, find-append_last p xs x)

  select-append : (p : A → Bool) (xs ys : List A) → select p (xs ++ ys) ≡ select p xs ++ select p ys
  select-append p [] ys = refl
  select-append p (x ∷ xs) ys = ground (arith, select-append p xs ys)

newest-none : (ss : List Session) → newest ss ≡ none → ss ≡ []
newest-none [] h = refl
newest-none (s ∷ ss) h = ground arith

-- What a later call can look up again: an `agent-shared` session, or one of a chat, whose id is not
-- empty, and whose thread id is not the empty text.
abbrev pub Addressable : Option String → Option String → SessionMode → Type 0
Addressable mg thread agent_shared = Unit
Addressable none thread mode = ⊥
Addressable (some m) thread mode = (m ≢ "") × (thread ≢ some "")

made_shared :
    (now : ℕ) (id : String) (db : List Session) (group : String) (mg thread : Option String)
    → find_session_by_agent_group db group ≡ none
    → find_session_by_agent_group (db ++ new_session now id group mg thread agent_shared ∷ []) group
      ≡ some (new_session now id group mg thread agent_shared)
unfolding find_session_by_agent_group
made_shared now id db group mg thread h =
    let made : Session = new_session now id group mg thread agent_shared in
    ap newest (
      select-append (λ s. s.agent_group_id == group && is_active s.status) db (made ∷ [])
      ∙ ap (λ l. l ++ select (λ s. s.agent_group_id == group && is_active s.status) (made ∷ []))
          (newest-none _ h))
    ∙ rw (eq_refl group) refl

thread_match : (thread : Option String) → thread ≢ some "" → matches_thread thread thread ≡ true
thread_match none h = refl
thread_match (some t) h = elim (Bool-cases (t == "")) [
  | inl e ↦ absurd (h (ap some ((eq_iff t "").0 e)))
  | inr e ↦ rw (e, eq_refl t) refl
]

-- A session that was just made is one that the same lookup finds.
fits :
    (now : ℕ) (id group m : String) (thread : Option String)
    → thread ≢ some ""
    → is_session_for group m thread (new_session now id group (some m) thread per_thread) ≡ true
fits now id group m thread h = rw (eq_refl group, eq_refl m, thread_match thread h) refl

fits_shared :
    (now : ℕ) (id group m : String) (thread : Option String)
    → is_session_for group m none (new_session now id group (some m) thread shared) ≡ true
fits_shared now id group m thread = rw (eq_refl group, eq_refl m) refl

pub made_again :
    (now : ℕ) (id : String) (db : List Session) (group : String) (mg thread : Option String)
    (mode : SessionMode)
    → Addressable mg thread mode
    → existing_session db group mg thread mode ≡ none
    → existing_session (db ++ new_session now id group mg thread mode ∷ []) group mg thread mode
      ≡ some (new_session now id group mg thread mode)
unfolding existing_session find_session_for_agent
made_again now id db group mg thread agent_shared a h = made_shared now id db group mg thread h
made_again now id db group none thread shared a h = absurd a
made_again now id db group none thread per_thread a h = absurd a
made_again now id db group (some m) thread shared a h = ground (
  arith,
  eq_iff m "",
  find-append_last (is_session_for group m none) db
      (new_session now id group (some m) thread shared),
  fits_shared now id group m thread,
)
made_again now id db group (some m) thread per_thread a h = ground (
  arith,
  eq_iff m "",
  find-append_last (is_session_for group m thread) db
      (new_session now id group (some m) thread per_thread),
  fits now id group m thread a.1,
)

found_again : (r : Resolved) → Resolved
found_again r = record { session = r.session; created = false; sessions = r.sessions }

-- What the two branches of `resolveSession` return.
pub resolve_cases :
    (now : ℕ) (id : String) (db : List Session) (group : String) (mg thread : Option String)
    (mode : SessionMode) (r : Resolved)
    → resolve_session now id db group mg thread mode ≡ some r
    → ((s : Session) × (existing_session db group mg thread mode ≡ some s)
        × (r ≡ record { session = s; created = false; sessions = db }))
      ⊎ ((existing_session db group mg thread mode ≡ none)
          × (any (λ s. s.id == id) db ≡ false)
          × (r ≡ record {
            session = new_session now id group mg thread mode;
            created = true;
            sessions = db ++ new_session now id group mg thread mode ∷ [];
          }))
unfolding resolve_session
resolve_cases now id db group mg thread mode r h =
    elim (Option-cases (existing_session db group mg thread mode)) [
      | inl e ↦ inr (e, ground arith, ground arith)
      | inr (s, e) ↦ inl (s, e, ground arith)
    ]

resolve_existing :
    (now : ℕ) (id : String) (db : List Session) (group : String) (mg thread : Option String)
    (mode : SessionMode) (s : Session)
    → existing_session db group mg thread mode ≡ some s
    → resolve_session now id db group mg thread mode
      ≡ some (record { session = s; created = false; sessions = db })
unfolding resolve_session
resolve_existing now id db group mg thread mode s e = rw (e, resolve_session) refl

-- Resolving the same address again, at any later time and with any fresh id, returns the same
-- session, creates nothing and leaves the table as it was, for every address that can be looked up:
-- an agent-shared one, or that of a chat whose id is not empty with a thread id that is not the
-- empty text.
pub resolve_session_again :
    (now later : ℕ) (id id' : String) (db : List Session) (group : String)
    (mg thread : Option String) (mode : SessionMode) (r : Resolved)
    → Addressable mg thread mode
    → resolve_session now id db group mg thread mode ≡ some r
    → resolve_session later id' r.sessions group mg thread mode
      ≡ some (record { session = r.session; created = false; sessions = r.sessions })
resolve_session_again now later id id' db group mg thread mode r a h =
    elim (resolve_cases now id db group mg thread mode r h) [
      | inl (s, e, shape) ↦
          subst
            (λ (q : Resolved).
              resolve_session later id' q.sessions group mg thread mode
              ≡ some (record { session = q.session; created = false; sessions = q.sessions }))
            (sym shape) (resolve_existing later id' db group mg thread mode s e)
      | inr (e, _, shape) ↦
          subst
            (λ (q : Resolved).
              resolve_session later id' q.sessions group mg thread mode
              ≡ some (record { session = q.session; created = false; sessions = q.sessions }))
            (sym shape)
            (resolve_existing later id' (db ++ new_session now id group mg thread mode ∷ []) group
              mg thread mode (new_session now id group mg thread mode)
              (made_again now id db group mg thread mode a e))
    ]

newest-Passes :
    (p : Session → Bool) (ss : List Session) (s : Session)
    → newest (select p ss) ≡ some s
    → p s ≡ true
newest-Passes p ss s h = from (select p ss) (passing p ss) h
  where
    passing : (p : Session → Bool) (ss : List Session) → All (λ s. p s ≡ true) (select p ss)
    passing p [] = tt
    passing p (x ∷ xs) = elim (Bool-cases (p x)) [
      | inl e ↦ ground (arith, passing p xs)
      | inr e ↦ ground (arith, passing p xs)
    ]

    from : (l : List Session) → All (λ s. p s ≡ true) l → newest l ≡ some s → p s ≡ true
    from [] a h = cc
    from (x ∷ xs) a h = ground (arith, from xs a.1)

pub is_active_iff : (s : SessionStatus) → is_active s ≡ true → s ≡ active
is_active_iff active h = refl
is_active_iff closed h = cc

owned_of_find :
    (db : List Session) (group m : String) (thread : Option String) (s : Session)
    → find (is_session_for group m thread) db ≡ some s
    → (s.agent_group_id ≡ group) × (s.status ≡ active)
owned_of_find db group m thread s h =
    let (_, e) = find→Memᴰ (is_session_for group m thread) db h in
    (ground (arith, eq_iff s.agent_group_id group), ground (arith, is_active_iff s.status))

existing-Owned :
    (db : List Session) (group : String) (mg thread : Option String) (mode : SessionMode)
    (s : Session)
    → existing_session db group mg thread mode ≡ some s
    → (s.agent_group_id ≡ group) × (s.status ≡ active)
unfolding existing_session find_session_by_agent_group find_session_for_agent
existing-Owned db group mg thread agent_shared s h =
    let e = newest-Passes _ db s h in
    (ground (arith, eq_iff s.agent_group_id group), ground (arith, is_active_iff s.status))
existing-Owned db group none thread shared s h = cc
existing-Owned db group none thread per_thread s h = cc
existing-Owned db group (some m) thread shared s h = owned_of_find db group m none s (ground arith)
existing-Owned db group (some m) thread per_thread s h =
    owned_of_find db group m thread s (ground arith)

-- The session is one of the agent group, and active, whatever the mode: the fan-out of one chat to
-- several agents never delivers into another agent's session.
pub resolve_session-Owned :
    (now : ℕ) (id : String) (db : List Session) (group : String) (mg thread : Option String)
    (mode : SessionMode) (r : Resolved)
    → resolve_session now id db group mg thread mode ≡ some r
    → (r.session.agent_group_id ≡ group) × (r.session.status ≡ active)
resolve_session-Owned now id db group mg thread mode r h =
    elim (resolve_cases now id db group mg thread mode r h) [
      | inl (s, e, shape) ↦
          subst (λ (q : Resolved). (q.session.agent_group_id ≡ group) × (q.session.status ≡ active))
            (sym shape) (existing-Owned db group mg thread mode s e)
      | inr (e, _, shape) ↦
          subst (λ (q : Resolved). (q.session.agent_group_id ≡ group) × (q.session.status ≡ active))
            (sym shape) (refl, refl)
    ]
