-- ===== src/Delivery/Sends.antt =====
-- What `deliverMessage` of src/delivery.ts hands to the channel adapter, and for whom.
use pocketclaw_telegram.World.{Env, World, Ran, continue, sent, return, threw, ok, ◌>>=◌}
use pocketclaw_telegram.Delivery.Questions.{
  create_pending_question, bound_question, titled_question, asked_question, typed_question,
  is_text_property, bind_text, normalize_options, track_question,
}
use pocketclaw_telegram.Delivery.Message.{
  Channels, delivery_group, may_send, answered, deliver_to_channel, deliver_parsed, deliver_message,
  call_adapter, deliver_to_group, deliver_nowhere, addressed, deliver_content, send_to,
  handle_system_action,
}
use pocketclaw_telegram.SessionDb.{MessageOut}
use pocketclaw_telegram.Types.{Session, MessagingGroup}
use pocketclaw_telegram.Json.{
  Json, Property, Items, value, arr, truthy, get, type_error, bool, number, undefined, text, obj,
  null,
}
use pocketclaw_telegram.Prelude.{
  Option, String, ◌⊎◌, ◌≡◌, some, if_lem, any, ◌==◌, ◌&&◌, ◌++◌, none, ◌∷◌, refl, [], false, inl,
  ◌||◌, ◌∙◌, Bool-cases, if◌then◌else◌, inr, is_text, ap, subst, sym,
}
use pocketclaw_telegram.Delivery.Quiet.{
  message_call, sends_of, sends, sends-append, route_agent_message-QuietOrHeld,
}
use pocketclaw_telegram.AgentToAgent.Authorized.{Held}
use pocketclaw_telegram.Delivery.Attempts.{world_of}
use pocketclaw_telegram.AgentToAgent.Route.{route_agent_message}
use pocketclaw_telegram.Permissions.Roles.{is_text_iff}
use pocketclaw_telegram.Delivery.Chats.{IsChat, delivery_group-IsChat, Allowed, may_send-Allowed}

module _ (env : Env) (ch : Channels) (msg : MessageOut) (s : Session) where
  sends-bound_question :
      (id title : Option String) (options : Option Items) (w : World)
      → sends_of (world_of (bound_question env msg s id title options w)) ≡ sends_of w
  unfolding create_pending_question
  sends-bound_question none title options w = refl
  sends-bound_question (some id) none options w = refl
  sends-bound_question (some id) (some title) none w = refl
  sends-bound_question (some id) (some title) (some options) w =
      if_lem (λ (v : World). sends_of v ≡ sends_of w) (any (λ p. p.question_id == id) w.questions) _
        _ refl refl

  sends-titled_question :
      (id : Json) (title options : Property) (w : World)
      → sends_of (world_of (titled_question env msg s id title options w)) ≡ sends_of w
  sends-titled_question id (value title) (value (arr options)) w =
      if_lem (λ (r : Ran (Unit {0})). sends_of (world_of r) ≡ sends_of w) (truthy title) _ _
        (sends-bound_question (bind_text env id) (bind_text env title) (normalize_options options)
          w)
        refl
  sends-titled_question id (value title) (value null) w = refl
  sends-titled_question id (value title) (value (bool b)) w = refl
  sends-titled_question id (value title) (value (number n)) w = refl
  sends-titled_question id (value title) (value (text t)) w = refl
  sends-titled_question id (value title) (value (obj fs)) w = refl
  sends-titled_question id (value title) type_error w = refl
  sends-titled_question id (value title) undefined w = refl
  sends-titled_question id type_error options w = refl
  sends-titled_question id undefined options w = refl

  sends-asked_question :
      (content : Json) (id : Property) (w : World)
      → sends_of (world_of (asked_question env msg s content id w)) ≡ sends_of w
  sends-asked_question content (value id) w =
      if_lem (λ (r : Ran (Unit {0})). sends_of (world_of r) ≡ sends_of w)
        (truthy id && w.questions_table) _ _
        (sends-titled_question id (get content "title") (get content "options") w) refl
  sends-asked_question content type_error w = refl
  sends-asked_question content undefined w = refl

  sends-typed_question :
      (content : Json) (type : Property) (w : World)
      → sends_of (world_of (typed_question env msg s content type w)) ≡ sends_of w
  sends-typed_question content (value type) w =
      if_lem (λ (r : Ran (Unit {0})). sends_of (world_of r) ≡ sends_of w)
        (is_text_property (value type) "ask_question") _ _
        (sends-asked_question content (get content "questionId") w) refl
  sends-typed_question content type_error w = refl
  sends-typed_question content undefined w = refl

  -- Nothing more is handed to the adapter.
  abbrev pub Silent : World → Ran (Option String) → Type 0
  Silent w r = sends_of (world_of r) ≡ sends_of w

  -- The message is for another agent group on an edge with an approval policy, and what is run is the
  -- request for the approval alone.
  abbrev pub HeldBack : World → Ran (Option String) → Type 0
  HeldBack w r =
      (target : String) × (msg.channel_type ≡ some "agent")
      × (msg.platform_id ≡ some target)
      × ((run : Ran (Unit {0})) × Held ch.outbox msg s target w run
          × (r ≡ continue run (λ done. return {A = Option String} none)))

  -- This message is handed to the adapter once, through the instance of a chat at its address that the
  -- session's agent may send to.
  abbrev pub SentOnce : World → Ran (Option String) → Type 0
  SentOnce w r =
      (type platform : String) × (g : MessagingGroup) × (msg.channel_type ≡ some type)
      × (msg.platform_id ≡ some platform)
      × IsChat env s w type platform g
      × Allowed env s w g
      × (sends_of (world_of r) ≡ sends_of w ++ message_call msg g.instance_name ∷ [])

  abbrev pub Handed : World → Ran (Option String) → Type 0
  Handed w r = Silent w r ⊎ (SentOnce w r ⊎ HeldBack w r)

  called :
      (g : MessagingGroup) (w v : World) (o : Option (Option String))
      → sends_of v ≡ sends_of w
      → sends_of (
          world_of (answered (record v { effects = v.effects ++ sent msg g.instance_name ∷ [] }) o))
        ≡ sends_of w ++ message_call msg g.instance_name ∷ []
  called g w v o h =
      after o
      ∙ (sends-append v.effects (sent msg g.instance_name ∷ [])
          ∙ ap (λ l. l ++ message_call msg g.instance_name ∷ []) h)
    where
      after :
          (o : Option (Option String))
          → sends_of (
              world_of
                (answered (record v { effects = v.effects ++ sent msg g.instance_name ∷ [] }) o))
            ≡ sends (v.effects ++ sent msg g.instance_name ∷ [])
      after none = refl
      after (some id) = refl

  -- The question is stored first; where that throws, nothing is sent.
  sent_after :
      (g : MessagingGroup) (w : World) (r : Ran (Unit {0}))
      → sends_of (world_of r) ≡ sends_of w
      → Silent w (continue r (λ done. call_adapter ch msg g.instance_name))
        ⊎ (sends_of (world_of (continue r (λ done. call_adapter ch msg g.instance_name)))
            ≡ sends_of w ++ message_call msg g.instance_name ∷ [])
  sent_after g w (threw v) h = inl h
  sent_after g w (ok a v) h = inr (called g w v (ch.deliver v msg g.instance_name) h)

  group-Handed :
      (content : Json) (type platform : String) (o : Option MessagingGroup) (w : World)
      → msg.channel_type ≡ some type
      → msg.platform_id ≡ some platform
      → delivery_group env w s type platform ≡ o
      → Handed w (deliver_to_group env ch msg s content o w)
  unfolding track_question
  group-Handed content type platform none w t p e = inl refl
  group-Handed content type platform (some g) w t p e = elim (Bool-cases (may_send w s g)) [
    | inr not_allowed ↦ inl (
        ap (λ b. sends_of (world_of (if b then send_to env ch msg s content g w else threw w)))
          not_allowed)
    | inl may ↦
        subst (λ b. Handed w (if b then send_to env ch msg s content g w else threw w)) (sym may)
          (elim (sent_after g w (track_question env msg s content w)
            (sends-typed_question content (get content "type") w)) [
              | inl silent ↦ inl silent
              | inr once ↦ inr (
                  inl (
                    type,
                    platform,
                    g,
                    t,
                    p,
                    delivery_group-IsChat env s w type platform g e,
                    may_send-Allowed env s w g may,
                    once,
                  ))
            ])
  ]

  nowhere-Handed : (content : Json) (w : World) → Handed w (deliver_nowhere env msg s content w)
  unfolding track_question
  nowhere-Handed content w = inl (
      quiet (typed_question env msg s content (get content "type") w)
        (sends-typed_question content (get content "type") w))
    where
      quiet :
          (r : Ran (Unit {0}))
          → sends_of (world_of r) ≡ sends_of w
          → sends_of (world_of (continue r (λ done. return {A = Option String} none))) ≡ sends_of w
      quiet (ok a v) h = h
      quiet (threw v) h = h

  addressed-Handed :
      (content : Json) (type platform : Option String) (w : World)
      → msg.channel_type ≡ type
      → msg.platform_id ≡ platform
      → Handed w (addressed env ch msg s content type platform w)
  unfolding deliver_to_channel
  addressed-Handed content none platform w t p = nowhere-Handed content w
  addressed-Handed content (some type) none w t p = nowhere-Handed content w
  addressed-Handed content (some type) (some platform) w t p =
      if_lem (λ (r : Ran (Option String)). Handed w r) (type == "" || platform == "") _ _
        (nowhere-Handed content w)
        (group-Handed content type platform (delivery_group env w s type platform) w t p refl)

  agent-Handed :
      (w : World)
      → msg.channel_type ≡ some "agent"
      → Handed w (
          continue
            (route_agent_message env ch.outbox msg s w)
            (λ done. return {A = Option String} none))
  agent-Handed w to_agent = elim (route_agent_message-QuietOrHeld env ch.outbox msg s w) [
    | inl quiet ↦ inl (after (route_agent_message env ch.outbox msg s w) quiet)
    | inr (target, named, held) ↦
        inr (inr (target, to_agent, named, (route_agent_message env ch.outbox msg s w, held, refl)))
  ]
    where
      after :
          (r : Ran (Unit {0}))
          → sends_of (world_of r) ≡ sends_of w
          → Silent w (continue r (λ done. return {A = Option String} none))
      after (ok a v) h = h
      after (threw v) h = h

  content-Handed :
      (o : Option Json) (w : World)
      → (msg.kind == "system") ≡ false
      → Handed w (deliver_content env ch msg s o w)
  unfolding deliver_parsed
  content-Handed none w h = inl refl
  content-Handed (some content) w h =
      subst (λ b. Handed w (if b then handle_system_action ch content s w else others)) (sym h)
        (elim (Bool-cases (is_text msg.channel_type "agent")) [
          | inl to_agent ↦
              subst (λ b. Handed w (if b then delegated else to_chat)) (sym to_agent)
                (if_lem (λ (r : Ran (Option String)). Handed w r) w.destinations_table _ _
                  (agent-Handed w ((is_text_iff msg.channel_type "agent").0 to_agent)) (inl refl))
          | inr elsewhere ↦
              subst (λ b. Handed w (if b then delegated else to_chat)) (sym elsewhere)
                (addressed-Handed content msg.channel_type msg.platform_id w refl refl)
        ])
    where
      delegated : Ran (Option String)
      delegated =
          if w.destinations_table
          then (route_agent_message env ch.outbox msg s >>= λ done. return none) w
          else threw w

      to_chat : Ran (Option String)
      to_chat = addressed env ch msg s content msg.channel_type msg.platform_id w

      others : Ran (Option String)
      others =
          if is_text msg.channel_type "agent"
          then (if w.destinations_table
              then (route_agent_message env ch.outbox msg s >>= λ done. return none) w
              else threw w)
          else addressed env ch msg s content msg.channel_type msg.platform_id w

  -- The cases of a delivery, whatever `requestApproval` does.
  pub deliver_message-Handed :
      (w : World)
      → (msg.kind == "system") ≡ false
      → Handed w (deliver_message env (some ch) msg s w)
  unfolding deliver_message
  deliver_message-Handed w h = content-Handed (env.parse_json msg.content) w h
