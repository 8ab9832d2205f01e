-- ===== src/Cli/Dispatch/Confined.antt =====
-- The arguments that the check of a group's scope in src/cli/dispatch.ts lets through.
use pocketclaw_telegram.Prelude.{
  String, Option, ◌≡◌, some, Bool, true, false, ◌==◌, ◌⊎◌, none, ◌∙◌, ap, Bool-cases, inr, arith,
  eq_iff, inl, refl, if◌then◌else◌, ◌∷◌, [], List, ◌&&◌, subst, sym, not, ◌||◌,
}
use pocketclaw_telegram.Json.{Json, truthy, bool, number, null}
use pocketclaw_telegram.Cli.{Args, set_arg, set_args, RequestFrame, handler_error, forbidden}
use pocketclaw_telegram.Cli.Checks.{
  is_allowed_resource, has_arg, is_keyed_by_group, check_group, filled, check_session, passed,
  refused, is_json_text, is_other, or_else,
}
use pocketclaw_telegram.Cli.Dispatch.{text, arr, obj}
use pocketclaw_telegram.World.{lookup_db}
use pocketclaw_telegram.Types.{Session}

-- The argument is there, and it is the caller's agent group or a value that counts as none.
abbrev pub OwnOrFalsy : String → Option Json → Type 0
OwnOrFalsy own o = (v : Json) × (o ≡ some v) × ((truthy v ≡ false) ⊎ (v ≡ text own))

-- The arguments name no other agent group and no change of the scope, and the resource is one that a
-- group may use.
pub record Confined (own : String) (resource : Option String) (args : Args) : Type 0 where
  pub listed : is_allowed_resource resource ≡ true
  pub group_id : OwnOrFalsy own (lookup_db "agent_group_id" args)
  pub group : OwnOrFalsy own (lookup_db "group" args)
  pub key : is_keyed_by_group resource ≡ true → OwnOrFalsy own (lookup_db "id" args)
  pub scope : lookup_db "cli_scope" args ≡ none
  pub dashed_scope : lookup_db "cli-scope" args ≡ none

pub get-set_arg :
    (k j : String) (v : Json) (args : Args)
    → lookup_db k (set_arg j v args) ≡ (if j == k then some v else lookup_db k args)
get-set_arg k j v [] = refl
get-set_arg k j v ((i, w) ∷ args) =
    ground (arith, eq_iff k j, eq_iff i k, eq_iff i j, eq_iff j k, get-set_arg k j v args)

pub is_json_text→eq : (v : Json) (t : String) → is_json_text v t ≡ true → v ≡ text t
is_json_text→eq (text s) t h = ap text ((eq_iff s t).0 h)
is_json_text→eq null t h = cc
is_json_text→eq (bool b) t h = cc
is_json_text→eq (number n) t h = cc
is_json_text→eq (arr xs) t h = cc
is_json_text→eq (obj fs) t h = cc

own_or_falsy :
    (own : String) (v : Json) → is_other (some v) own ≡ false → (truthy v ≡ false) ⊎ (v ≡ text own)
own_or_falsy own v h = elim (Bool-cases (truthy v)) [
  | inr falsy ↦ inl falsy
  | inl there ↦ inr (is_json_text→eq v own (ground arith))
]

or_else-OwnOrFalsy :
    (own : String) (o : Option Json)
    → is_other o own ≡ false
    → OwnOrFalsy own (some (or_else o own))
or_else-OwnOrFalsy own none h = (text own, refl, inr refl)
or_else-OwnOrFalsy own (some null) h = (text own, refl, inr refl)
or_else-OwnOrFalsy own (some (bool b)) h = (bool b, refl, own_or_falsy own (bool b) h)
or_else-OwnOrFalsy own (some (number n)) h = (number n, refl, own_or_falsy own (number n) h)
or_else-OwnOrFalsy own (some (text t)) h = (text t, refl, own_or_falsy own (text t) h)
or_else-OwnOrFalsy own (some (arr xs)) h = (arr xs, refl, own_or_falsy own (arr xs) h)
or_else-OwnOrFalsy own (some (obj fs)) h = (obj fs, refl, own_or_falsy own (obj fs) h)

no_arg : (key : String) (args : Args) → has_arg key args ≡ false → lookup_db key args ≡ none
no_arg key args h = ground arith

module _ (own : String) (args : Args) where
  abbrev two : Args
  two =
      set_arg "group" (or_else (lookup_db "group" args) own)
        (set_arg "agent_group_id" (or_else (lookup_db "agent_group_id" args) own) args)

  abbrev key_fill : Bool → Args
  key_fill keyed =
      set_args two (if keyed then ("id", or_else (lookup_db "id" args) own) ∷ [] else [])

  two_lem :
      (k : String)
      → lookup_db k two ≡ (
          if "group" == k
          then some (or_else (lookup_db "group" args) own)
          else if "agent_group_id" == k
          then some (or_else (lookup_db "agent_group_id" args) own)
          else lookup_db k args)
  two_lem k = rw (get-set_arg k "group" _ _, get-set_arg k "agent_group_id" _ args)

  -- The key is none of the two.
  key_fill_lem :
      (keyed : Bool) (k : String)
      → ("id" == k) ≡ false
      → lookup_db k (key_fill keyed) ≡ lookup_db k two
  key_fill_lem true k h =
      get-set_arg k "id" _ two
      ∙ ap (λ b. if b then some (or_else (lookup_db "id" args) own) else lookup_db k two) h
  key_fill_lem false k h = refl

  key_fill_id : lookup_db "id" (key_fill true) ≡ some (or_else (lookup_db "id" args) own)
  key_fill_id = get-set_arg "id" "id" _ two

-- What the check of a group's scope lets through.
check_session-passed :
    (own : String) (resource : Option String) (sessions : List Session) (req req' : RequestFrame)
    → check_session own resource sessions req ≡ passed req'
    → req ≡ req'
check_session-passed own resource sessions req req' h = by_test _ h
  where
    by_test :
        (b : Bool)
        → (if b then refused handler_error "session not found" else passed req) ≡ passed req'
        → req ≡ req'
    by_test true h = absurd (cc)
    by_test false h = cc

filled-Confined :
    (own : String) (resource : Option String) (args : Args)
    → is_allowed_resource resource ≡ true
    → is_other (lookup_db "agent_group_id" args) own ≡ false
    → is_other (lookup_db "group" args) own ≡ false
    → (is_keyed_by_group resource && is_other (lookup_db "id" args) own) ≡ false
    → has_arg "cli_scope" args ≡ false
    → has_arg "cli-scope" args ≡ false
    → Confined own resource (filled own resource args)
filled-Confined own resource args listed group_id group key scope dashed = record {
  listed = listed;
  group_id =
      subst (OwnOrFalsy own) (sym (at "agent_group_id" refl))
        (or_else-OwnOrFalsy own (lookup_db "agent_group_id" args) group_id);
  group =
      subst (OwnOrFalsy own) (sym (at "group" refl))
        (or_else-OwnOrFalsy own (lookup_db "group" args) group);
  key = λ keyed.
      subst (OwnOrFalsy own)
        (sym (ap (λ b. lookup_db "id" (key_fill own args b)) keyed ∙ key_fill_id own args))
        (or_else-OwnOrFalsy own (lookup_db "id" args) (ground arith));
  scope = at "cli_scope" refl ∙ no_arg "cli_scope" args scope;
  dashed_scope = at "cli-scope" refl ∙ no_arg "cli-scope" args dashed;
}
  where
    at :
        (k : String)
        → ("id" == k) ≡ false
        → lookup_db k (filled own resource args) ≡ (
            if "group" == k
            then some (or_else (lookup_db "group" args) own)
            else if "agent_group_id" == k
            then some (or_else (lookup_db "agent_group_id" args) own)
            else lookup_db k args)
    at k h = key_fill_lem own args (is_keyed_by_group resource) k h ∙ two_lem own args k

pub check_group-Confined :
    (own : String) (resource : Option String) (sessions : List Session) (req req' : RequestFrame)
    → check_group own resource sessions req ≡ passed req'
    → Confined own resource req'.args
unfolding check_group
check_group-Confined own resource sessions req req' h =
    by_tests (is_allowed_resource resource) (is_other (lookup_db "agent_group_id" req.args) own)
      (is_other (lookup_db "group" req.args) own)
      (is_keyed_by_group resource && is_other (lookup_db "id" req.args) own)
      (has_arg "cli_scope" req.args) (has_arg "cli-scope" req.args) refl refl refl refl refl refl h
  where
    by_tests :
        (listed group_id group key scope dashed : Bool)
        → is_allowed_resource resource ≡ listed
        → is_other (lookup_db "agent_group_id" req.args) own ≡ group_id
        → is_other (lookup_db "group" req.args) own ≡ group
        → (is_keyed_by_group resource && is_other (lookup_db "id" req.args) own) ≡ key
        → has_arg "cli_scope" req.args ≡ scope
        → has_arg "cli-scope" req.args ≡ dashed
        → (if not listed
            then refused forbidden
                "CLI access is scoped to this agent group. Cannot access the resource."
            else if group_id || group
            then refused forbidden "CLI access is scoped to this agent group."
            else if key
            then refused forbidden "CLI access is scoped to this agent group."
            else if scope || dashed
            then refused forbidden "Cannot change cli_scope from a group-scoped agent."
            else check_session own resource sessions
                (record req { args = filled own resource req.args }))
          ≡ passed req'
        → Confined own resource req'.args
    by_tests false a b c d e hl ha hb hc hd he h = absurd (cc)
    by_tests true true b c d e hl ha hb hc hd he h = absurd (cc)
    by_tests true false true c d e hl ha hb hc hd he h = absurd (cc)
    by_tests true false false true d e hl ha hb hc hd he h = absurd (cc)
    by_tests true false false false true e hl ha hb hc hd he h = absurd (cc)
    by_tests true false false false false true hl ha hb hc hd he h = absurd (cc)
    by_tests true false false false false false hl ha hb hc hd he h =
        let same =
          check_session-passed own resource sessions
            (record req { args = filled own resource req.args }) req' h in
        subst (λ (r : RequestFrame). Confined own resource r.args) same
          (filled-Confined own resource req.args hl ha hb hc hd he)
