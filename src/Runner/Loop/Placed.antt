-- ===== src/Runner/Loop/Placed.antt =====
-- No message of a batch is lost when the commands are sorted out of it: `runPollLoop` in
-- container/agent-runner/src/poll-loop.ts.
use pocketclaw_telegram.Runner.Loop.{
  Sorted, handle_one, sort_commands, raised, handle_chat, went, with_command, cleared_text,
  handle_upload,
}
use pocketclaw_telegram.Prelude.{
  String, List, ◌||◌, ◌++◌, ◌≡◌, Option, true, any-append, ◌∷◌, Bool, ◌==◌, ap, [], if◌then◌else◌,
  arith, All, none, some, refl, eq_refl, false,
}
use pocketclaw_telegram.Runner.Send.{
  RunnerEnv, Container, RoutingContext, Went, clear_continuation, onward, pure, write_out,
  reply_with,
}
use pocketclaw_telegram.Runner.Query.{ids_of}
use pocketclaw_telegram.SessionDb.{MessageIn}
use pocketclaw_telegram.Runner.Acks.{mem}
use pocketclaw_telegram.Runner.Commands.{is_clear_command, is_chat, is_upload_trace_command}

-- The message is one of the commands or of the others.
abbrev pub Placed : Sorted → MessageIn → Type 0
Placed s m = (mem m.id s.commands || mem m.id (ids_of s.normal)) ≡ true

mem-append : (id : String) (xs ys : List String) → mem id (xs ++ ys) ≡ (mem id xs || mem id ys)
mem-append id xs ys = any-append (λ i. i == id) xs ys

ids_of-append : (xs ys : List MessageIn) → ids_of (xs ++ ys) ≡ ids_of xs ++ ids_of ys
ids_of-append [] ys = refl
ids_of-append (x ∷ xs) ys = ap (◌∷◌ x.id) (ids_of-append xs ys)

module _ (env : RunnerEnv) (upload_trace : Container → String) (routing : RoutingContext) where
  -- What a step leaves placed: what was placed, and the message.
  abbrev pub Places : MessageIn → Sorted → Went Sorted → Type 0
  Places m s (raised e c) = Unit
  Places m s (went s' c) = Placed s' m × ((n : MessageIn) → Placed s n → Placed s' n)

  Placed-command :
      (m : MessageIn) (s s' : Sorted)
      → s'.normal ≡ s.normal
      → s'.commands ≡ s.commands ++ m.id ∷ []
      → Placed s' m × ((n : MessageIn) → Placed s n → Placed s' n)
  Placed-command m s s' en ec = (
    rw (en, ec) (ground (arith, mem-append m.id s.commands (m.id ∷ []), eq_refl m.id)),
    λ n h. rw (en, ec) (ground (arith, mem-append n.id s.commands (m.id ∷ []))),
  )

  Placed-normal :
      (m : MessageIn) (s : Sorted)
      → Placed (record s { normal = s.normal ++ m ∷ [] }) m
        × ((n : MessageIn) → Placed s n → Placed (record s { normal = s.normal ++ m ∷ [] }) n)
  Placed-normal m s = (
    rw (ids_of-append s.normal (m ∷ []))
        (ground (arith, mem-append m.id (ids_of s.normal) (m.id ∷ []), eq_refl m.id)),
    λ n h.
        rw (ids_of-append s.normal (m ∷ []))
          (ground (arith, mem-append n.id (ids_of s.normal) (m.id ∷ []))),
  )

  then_pure :
      (m : MessageIn) (s s' : Sorted) (w : Went (Unit {0}))
      → Placed s' m × ((n : MessageIn) → Placed s n → Placed s' n)
      → Places m s (onward w (λ u. pure s'))
  then_pure m s s' (went u c) h = h
  then_pure m s s' (raised e c) h = tt

  handle_chat-Places :
      (m : MessageIn) (o : Option Bool) (s : Sorted) (c : Container)
      → Places m s (handle_chat env upload_trace routing m o s c)
  handle_chat-Places m none s c = tt
  handle_chat-Places m (some true) s c =
      then_pure m s (with_command env upload_trace routing m.id (record s { continuation = none }))
        (write_out env (cleared_text env routing) (clear_continuation env c))
        (Placed-command m s
          (with_command env upload_trace routing m.id (record s { continuation = none })) refl refl)
  handle_chat-Places m (some false) s c = by_test (is_upload_trace_command env.parse_json m)
    where
      by_test :
          (b : Bool)
          → Places m s (
              (if b
                  then handle_upload env upload_trace routing m s
                  else pure (record s { normal = s.normal ++ m ∷ [] }))
                c)
      by_test true =
          then_pure m s (with_command env upload_trace routing m.id s)
            (write_out env (reply_with env routing none (upload_trace c)) c)
            (Placed-command m s (with_command env upload_trace routing m.id s) refl refl)
      by_test false = Placed-normal m s

  handle_one-Places :
      (m : MessageIn) (s : Sorted) (c : Container)
      → Places m s (handle_one env upload_trace routing m s c)
  handle_one-Places m s c = by_kind (is_chat m)
    where
      by_kind :
          (b : Bool)
          → Places m s (
              (if b
                  then handle_chat env upload_trace routing m (is_clear_command env.parse_json m) s
                  else pure (record s { normal = s.normal ++ m ∷ [] }))
                c)
      by_kind true = handle_chat-Places m (is_clear_command env.parse_json m) s c
      by_kind false = Placed-normal m s

  abbrev pub PlacesAll : List MessageIn → Sorted → Went Sorted → Type 0
  PlacesAll ms s (raised e c) = Unit
  PlacesAll ms s (went s' c) = All (Placed s') ms × ((n : MessageIn) → Placed s n → Placed s' n)

  pub sort_commands-PlacesAll :
      (ms : List MessageIn) (s : Sorted) (c : Container)
      → PlacesAll ms s (sort_commands env upload_trace routing ms s c)
  unfolding sort_commands
  sort_commands-PlacesAll [] s c = (tt, λ n h. h)
  sort_commands-PlacesAll (m ∷ ms) s c =
      by_one (handle_one env upload_trace routing m s c) (handle_one-Places m s c)
        (λ s' c'. sort_commands-PlacesAll ms s' c')
    where
      by_rest :
          (s' : Sorted) (r : Went Sorted)
          → Placed s' m × ((n : MessageIn) → Placed s n → Placed s' n)
          → PlacesAll ms s' r
          → PlacesAll (m ∷ ms) s r
      by_rest s' (raised e c) h k = tt
      by_rest s' (went s'' c) h k = ((k.1 m h.0, k.0), λ n p. k.1 n (h.1 n p))

      by_one :
          (w : Went Sorted)
          → Places m s w
          → ((s' : Sorted) (c' : Container)
              → PlacesAll ms s' (sort_commands env upload_trace routing ms s' c'))
          → PlacesAll (m ∷ ms) s (onward w (sort_commands env upload_trace routing ms))
      by_one (raised e c) h k = tt
      by_one (went s' c') h k =
          by_rest s' (sort_commands env upload_trace routing ms s' c') h (k s' c')
