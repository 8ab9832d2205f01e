-- ===== src/Delivery/Questions.antt =====
-- The question that delivery tracks: `deliverMessage` of src/delivery.ts, with
-- src/channels/ask-question.ts and createPendingQuestion of src/db/sessions.ts.
use pocketclaw_telegram.World.{World, Env, PendingQuestion, M, ok, threw}
use pocketclaw_telegram.Json.{
  Property, type_error, Json, Items, Fields, value, text, field, get, obj, cons, arr, truthy,
  number, null, end, nil, undefined,
}
use pocketclaw_telegram.Prelude.{
  String, Option, none, some, if◌then◌else◌, Bool, any, ◌==◌, ◌++◌, ◌∷◌, false, ◌&&◌, [],
}
use pocketclaw_telegram.SessionDb.{MessageOut}
use pocketclaw_telegram.Types.{Session}

-- `raw.key ?? label`, as a field that `JSON.stringify` leaves out where it is undefined.
abbrev pub nullish_or : Property → Option Json → Option Json
nullish_or (value null) d = d
nullish_or (value v) d = some v
nullish_or _ d = d

abbrev pub defined : Property → Option Json
defined (value v) = some v
defined _ = none

abbrev pub field_of : String → Option Json → Fields → Fields
field_of key none fs = fs
field_of key (some v) fs = field key v fs

abbrev pub option_fields : Json → Option Json → Fields
option_fields raw label = field_of "label" label (
    field_of "selectedLabel" (nullish_or (get raw "selectedLabel") label)
      (field_of "value" (nullish_or (get raw "value") label) end))

-- `none` where it throws.
unfoldable pub normalize_option : Json → Option Json
normalize_option null = none
normalize_option (text s) =
    some
      (obj (field "label" (text s) (field "selectedLabel" (text s) (field "value" (text s) end))))
normalize_option raw = some (obj (option_fields raw (defined (get raw "label"))))

abbrev pub cons_option : Option Json → Option Items → Option Items
cons_option none rest = none
cons_option (some v) none = none
cons_option (some v) (some vs) = some (cons v vs)

unfoldable pub normalize_options : Items → Option Items
normalize_options nil = some nil
normalize_options (cons v vs) = cons_option (normalize_option v) (normalize_options vs)

-- A value bound to a TEXT column: better-sqlite3 takes texts, numbers and null.
abbrev pub bind_text : Env → Json → Option String
bind_text env (text s) = some s
bind_text env (number n) = some (env.to_text (number n))
bind_text env _ = none

-- `INSERT OR IGNORE` on the question's id.
unfoldable pub create_pending_question : PendingQuestion → World → World
create_pending_question q w =
    if any (λ p. p.question_id == q.question_id) w.questions
    then w
    else record w { questions = w.questions ++ q ∷ [] }

abbrev pub pending_question : Env → MessageOut → Session → String → String → Items → PendingQuestion
pending_question env msg s id title options = record {
  question_id = id;
  session_id = s.id;
  message_out_id = msg.id;
  platform_id = msg.platform_id;
  channel_type = msg.channel_type;
  thread_id = msg.thread_id;
  title = title;
  options_json = env.stringify (arr options);
  created_at = env.now;
}

abbrev pub bound_question :
    Env → MessageOut → Session → Option String → Option String → Option Items → M (Unit {0})
bound_question env msg s (some id) (some title) (some options) w =
    ok tt (create_pending_question (pending_question env msg s id title options) w)
bound_question env msg s _ _ _ w = threw w

abbrev pub is_truthy_property : Property → Bool
is_truthy_property (value v) = truthy v
is_truthy_property _ = false

abbrev pub is_text_property : Property → String → Bool
is_text_property (value (text s)) t = s == t
is_text_property _ t = false

-- A question without a title or without a list of options is not stored.
abbrev pub titled_question : Env → MessageOut → Session → Json → Property → Property → M (Unit {0})
titled_question env msg s id (value title) (value (arr options)) w =
    if truthy title
    then bound_question env msg s (bind_text env id) (bind_text env title)
        (normalize_options options) w
    else ok tt w
titled_question env msg s id _ _ w = ok tt w

abbrev pub asked_question : Env → MessageOut → Session → Json → Property → M (Unit {0})
asked_question env msg s content (value id) w =
    if truthy id && w.questions_table
    then titled_question env msg s id (get content "title") (get content "options") w
    else ok tt w
asked_question env msg s content _ w = ok tt w

abbrev pub typed_question : Env → MessageOut → Session → Json → Property → M (Unit {0})
typed_question env msg s content type_error w = threw w
typed_question env msg s content undefined w = ok tt w
typed_question env msg s content (value type) w =
    if is_text_property (value type) "ask_question"
    then asked_question env msg s content (get content "questionId") w
    else ok tt w

unfoldable pub track_question : Env → MessageOut → Session → Json → M (Unit {0})
track_question env msg s content w = typed_question env msg s content (get content "type") w
