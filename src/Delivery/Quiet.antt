-- ===== src/Delivery/Quiet.antt =====
-- Which steps of src/delivery.ts and of the routes that it uses call no channel adapter.
use pocketclaw_telegram.Prelude.{
  ◌⊎◌, true, false, if◌then◌else◌, List, String, ◌++◌, Bool, ◌∷◌, ◌≡◌, [], Option, ap, ◌∙◌,
  Bool-cases, inl, refl, arith, ◌&&◌, inr, if_lem, some, none, ◌==◌, not, append_none,
}
use pocketclaw_telegram.World.{
  ◌>>=◌, ◌>>◌, World, open_session, Effect, Ran, opened, Env, continue, sent, typing_started, ok,
  typing_stopped, threw, woken, subscribed, channel_requested, approval_requested, file_copied,
  card_sent, typing_paused, opened_or_threw, insert_into, inserted_or_threw, write_session_message,
  lookup_db, get_agent_group, M,
}
use pocketclaw_telegram.Sessions.{Resolved, get_session}
use pocketclaw_telegram.SessionDb.{MessageOut, InboundDb, NewMessage, insert_message}
use pocketclaw_telegram.Delivery.Attempts.{world_of}
use pocketclaw_telegram.AgentToAgent.Files.{
  forward_each, is_safe_attachment_name, forward_attached_files, ForwardedAttachment, names_in,
}
use pocketclaw_telegram.Types.{Session, AgentMessagePolicy, AgentGroup, agent}
use pocketclaw_telegram.AgentToAgent.Route.{
  returned_or_opened, RouteHost, wake_found, perform_agent_route, route_agent_message, target_in,
  resolve_target_session, route_agent_message_to, forward_named, forward_parsed,
  forward_file_attachments, route_edge, route_found, route_named, forward_property, agent_message,
  wake_fresh, drawn,
}
use pocketclaw_telegram.Json.{Json, Property, value, get, type_error, undefined}
use pocketclaw_telegram.AgentToAgent.Destinations.{has_destination, get_message_policy}
use pocketclaw_telegram.AgentToAgent.Authorized.{Held, ne_of_false}

-- A call of the channel adapter: a message with the instance it is handed to, or a card with its
-- channel, its chat and the id of its question.
pub data Call : Type 0 where
  message_call : MessageOut → String → Call
  card_call : String → String → String → Call

abbrev pub sends : List Effect → List Call
sends [] = []
sends (sent m instance_name ∷ es) = message_call m instance_name ∷ sends es
sends (typing_started id ∷ es) = sends es
sends (typing_stopped id ∷ es) = sends es
sends (woken id ∷ es) = sends es
sends (subscribed a b ∷ es) = sends es
sends (channel_requested a ∷ es) = sends es
sends (approval_requested a b ∷ es) = sends es
sends (file_copied a b c ∷ es) = sends es
sends (card_sent a b c ∷ es) = card_call a b c ∷ sends es
sends (typing_paused a ∷ es) = sends es

pub sends-append : (xs ys : List Effect) → sends (xs ++ ys) ≡ sends xs ++ sends ys
sends-append [] ys = refl
sends-append (sent m n ∷ es) ys = ap (λ l. message_call m n ∷ l) (sends-append es ys)
sends-append (typing_started id ∷ es) ys = sends-append es ys
sends-append (typing_stopped id ∷ es) ys = sends-append es ys
sends-append (woken id ∷ es) ys = sends-append es ys
sends-append (subscribed a b ∷ es) ys = sends-append es ys
sends-append (channel_requested a ∷ es) ys = sends-append es ys
sends-append (approval_requested a b ∷ es) ys = sends-append es ys
sends-append (file_copied a b c ∷ es) ys = sends-append es ys
sends-append (card_sent a b c ∷ es) ys = ap (λ l. card_call a b c ∷ l) (sends-append es ys)
sends-append (typing_paused a ∷ es) ys = sends-append es ys

abbrev pub sends_of : World → List Call
sends_of w = sends w.effects

-- An effect that is no call of the adapter.
pub noted :
    (w : World) (e : Effect) → sends (e ∷ []) ≡ [] → sends (w.effects ++ e ∷ []) ≡ sends w.effects
noted w e h =
    sends-append w.effects (e ∷ [])
    ∙ (ap (λ l. sends w.effects ++ l) h ∙ append_none (sends w.effects))

-- The run calls no adapter.
record Quiet {ℓ} {A : Type ℓ} (w : World) (r : Ran A) : Type 0 where
  same : sends_of (world_of r) ≡ sends_of w

Quiet->>= :
    {A B : Type 0} {w : World} {r : Ran A} {f : A → World → Ran B}
    → Quiet w r
    → ((a : A) (v : World) → Quiet v (f a v))
    → Quiet w (continue r f)
Quiet->>= {r = ok a v} {f = f} h k = record { same = (k a v).same ∙ h.same }
Quiet->>= {r = threw v} {f = f} h k = record { same = h.same }

sends-opened : (r : Resolved) (w : World) → sends_of (opened r w) ≡ sends_of w
sends-opened r w = elim (Bool-cases r.created) [ inl e ↦ ground arith | inr e ↦ ground arith ]

sends-opened_or_threw :
    (o : Option Resolved) (w : World) → sends_of (world_of (opened_or_threw o w)) ≡ sends_of w
sends-opened_or_threw none w = refl
sends-opened_or_threw (some r) w = sends-opened r w

sends-returned_or_opened :
    (env : Env) (target : String) (o : Option Session) (w : World)
    → sends_of (world_of (returned_or_opened env target o w)) ≡ sends_of w
unfolding open_session
sends-returned_or_opened env target (some s) w = refl
sends-returned_or_opened env target none w = sends-opened_or_threw _ w

sends-target_in :
    (env : Env) (msg : MessageOut) (target : String) (o : Option InboundDb) (w : World)
    → sends_of (world_of (target_in env msg target o w)) ≡ sends_of w
sends-target_in env msg target none w = refl
sends-target_in env msg target (some db) w = sends-returned_or_opened env target _ w

module _ (outbox_dir : String → String → Bool) (readable : String → String → String → Bool) where
  sends-forward_each :
      (source message target : String) (names : List String) (w : World)
      → sends_of (forward_each outbox_dir readable source message target names w).1 ≡ sends_of w
  unfolding forward_each
  sends-forward_each source message target [] w = refl
  sends-forward_each source message target (name ∷ rest) w =
      if_lem (λ (p : List ForwardedAttachment × World). sends_of p.1 ≡ sends_of w)
        (is_safe_attachment_name name && readable source message name) _ _
        (sends-forward_each source message target rest _
          ∙ noted w (file_copied source message name) refl)
        (sends-forward_each source message target rest w)

  sends-forward_attached_files :
      (source message target : String) (names : List String) (w : World)
      → sends_of (forward_attached_files outbox_dir readable source message target names w).1
        ≡ sends_of w
  unfolding forward_attached_files
  sends-forward_attached_files source message target names w =
      if_lem (λ (p : List ForwardedAttachment × World). sends_of p.1 ≡ sends_of w)
        (is_safe_attachment_name message && outbox_dir source message) _ _
        (sends-forward_each source message target names w) refl

module _ (env : Env) (box : RouteHost) (msg : MessageOut) (source : Session) where
  sends-forward_named :
      (id : String) (parsed : Json) (names : List String) (w : World)
      → sends_of (world_of (forward_named env box msg id source parsed names w)) ≡ sends_of w
  sends-forward_named id parsed [] w = refl
  sends-forward_named id parsed (name ∷ names) w =
      sends-forward_attached_files box.outbox_dir box.readable source.id msg.id id (name ∷ names) w

  sends-forward_parsed :
      (id : String) (o : Option Json) (w : World)
      → sends_of (world_of (forward_parsed env box msg id source o w)) ≡ sends_of w
  sends-forward_parsed id none w = refl
  sends-forward_parsed id (some parsed) w = by_files (get parsed "files")
    where
      by_files :
          (p : Property)
          → sends_of (world_of (forward_property env box msg id source parsed p w)) ≡ sends_of w
      by_files type_error = refl
      by_files undefined = refl
      by_files (value v) = sends-forward_named id parsed (names_in (value v)) w

pub sends-insert_into :
    (env : Env) (id : String) (m : NewMessage) (o : Option InboundDb) (w : World)
    → sends_of (world_of (insert_into env id m w o)) ≡ sends_of w
sends-insert_into env id m none w = refl
sends-insert_into env id m (some db) w =
    by_insert (insert_message db (record m { content = env.stored_content m.id m.content }))
  where
    by_insert :
        (o : Option InboundDb) → sends_of (world_of (inserted_or_threw env id w o)) ≡ sends_of w
    by_insert none = refl
    by_insert (some db) = refl

sends-wake_found :
    (env : Env) (o : Option Session) (w : World)
    → sends_of (world_of (wake_found env o w)) ≡ sends_of w
sends-wake_found env none w = refl
sends-wake_found env (some s) w =
    if_lem (λ (r : Ran (Unit {0})). sends_of (world_of r) ≡ sends_of w) (env.spawns s.id) _ _
      (noted w (woken s.id) refl) refl

sends-perform_agent_route :
    (env : Env) (box : RouteHost) (msg : MessageOut) (source : Session) (target : String)
    (w : World)
    → sends_of (world_of (perform_agent_route env box msg source target w)) ≡ sends_of w
unfolding perform_agent_route resolve_target_session forward_file_attachments write_session_message
sends-perform_agent_route env box msg source target w =
    (Quiet->>= {w = w} {r = resolve_target_session env msg source target w} {f = stored}
      (record { same = sends-target_in env msg target (lookup_db source.id w.inboxes) w })
      stored-Quiet).same
  where
    written : Session → String → String → M (Unit {0})
    written s id content =
        write_session_message env s.id (agent_message env id source content) >> wake_fresh env s

    written-Quiet :
        (s : Session) (id content : String) (w : World) → Quiet w (written s id content w)
    written-Quiet s id content w =
        Quiet->>= {r = write_session_message env s.id (agent_message env id source content) w}
          {f = λ done. wake_fresh env s}
          (record {
            same =
                sends-insert_into env s.id (agent_message env id source content)
                  (lookup_db s.id w.inboxes) w;
          })
          λ done r. record { same = sends-wake_found env (get_session r.sessions s.id) r }

    forwarded : Session → String → M (Unit {0})
    forwarded s id = forward_file_attachments env box msg id source >>= written s id

    forwarded-Quiet : (s : Session) (id : String) (w : World) → Quiet w (forwarded s id w)
    forwarded-Quiet s id w =
        Quiet->>= {r = forward_file_attachments env box msg id source w} {f = written s id}
          (record {
            same = sends-forward_parsed env box msg source id (env.parse_json msg.content) w;
          })
          (written-Quiet s id)

    stored : Session → M (Unit {0})
    stored s = drawn env >>= forwarded s

    stored-Quiet : (s : Session) (w : World) → Quiet w (stored s w)
    stored-Quiet s w =
        Quiet->>= {r = drawn env w} {f = forwarded s} (record { same = refl }) (forwarded-Quiet s)

module _ (env : Env) (box : RouteHost) (msg : MessageOut) (source : Session) (w : World) where
  -- No channel adapter is called, or the message is held for an approval.
  abbrev pub QuietOrHeld : String → Ran (Unit {0}) → Type 0
  QuietOrHeld target r = (sends_of (world_of r) ≡ sends_of w) ⊎ Held box msg source target w r

  route_edge-QuietOrHeld :
      (target : String) (p : Option AgentMessagePolicy)
      → get_message_policy w.policies source.agent_group_id target ≡ p
      → (target == source.agent_group_id) ≡ false
      → QuietOrHeld target (route_edge env box msg source target p w)
  route_edge-QuietOrHeld target (some p) e other =
      inr (ne_of_false target source.agent_group_id other, (p, e, refl))
  route_edge-QuietOrHeld target none e other =
      inl (sends-perform_agent_route env box msg source target w)

  route_found-QuietOrHeld :
      (target : String) (g : Option AgentGroup)
      → QuietOrHeld target (route_found env box msg source target g w)
  route_found-QuietOrHeld target none = inl refl
  route_found-QuietOrHeld target (some g) = by_target (target == source.agent_group_id) refl
    where
      edge : Ran (Unit {0})
      edge =
          route_edge env box msg source target
            (get_message_policy w.policies source.agent_group_id target) w

      by_target :
          (same : Bool)
          → (target == source.agent_group_id) ≡ same
          → QuietOrHeld target
              (if same then perform_agent_route env box msg source target w else edge)
      by_target true e = inl (sends-perform_agent_route env box msg source target w)
      by_target false e =
          route_edge-QuietOrHeld target (get_message_policy w.policies source.agent_group_id target)
            refl e

  abbrev NamedQuiet : Option String → Ran (Unit {0}) → Type 0
  NamedQuiet named r =
      (sends_of (world_of r) ≡ sends_of w)
      ⊎ ((target : String) × (named ≡ some target) × Held box msg source target w r)

  -- A message between agents calls no channel adapter, unless it is held for an approval.
  pub route_agent_message-QuietOrHeld :
      NamedQuiet msg.platform_id (route_agent_message env box msg source w)
  unfolding route_agent_message route_agent_message_to
  route_agent_message-QuietOrHeld = by_name msg.platform_id
    where
      by_name : (named : Option String) → NamedQuiet named (route_named env box msg source named w)
      by_name none = inl refl
      by_name (some target) =
          if_lem (λ (r : Ran (Unit {0})). NamedQuiet (some target) r) (target == "") _ _ (inl refl)
            (if_lem (λ (r : Ran (Unit {0})). NamedQuiet (some target) r)
              (not (target == source.agent_group_id)
                && not (has_destination w.destinations source.agent_group_id agent target))
              _ _ (inl refl)
              (elim (route_found-QuietOrHeld target (get_agent_group w target)) [
                | inl quiet ↦ inl quiet
                | inr held ↦ inr (target, refl, held)
              ]))
