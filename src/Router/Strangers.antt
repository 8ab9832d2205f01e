-- ===== src/Router/Strangers.antt =====
-- What `routeInbound` of src/router.ts does with chats that no agent is wired to.
use pocketclaw_telegram.World.{World, Env, ok}
use pocketclaw_telegram.Prelude.{
  Option-cases, Option, Bool, List, false, any, ◌≡◌, some, ◌==◌, is_some, length, select, none, ◌∷◌,
  arith, find, [], not, refl, ◌||◌, true, inl, inr,
}
use pocketclaw_telegram.Router.Inbound.{route_event, route_found, route_unwired, is_group_of}
use pocketclaw_telegram.Types.{MessagingGroup}
use pocketclaw_telegram.Router.Event.{Hooks, Adapter, Event}

-- The chat has an agent.
abbrev pub is_wired : World → Option MessagingGroup → Bool
is_wired w none = false
is_wired w (some mg) = any (λ a. a.messaging_group_id == mg.id) w.wirings

abbrev pub is_denied : Option MessagingGroup → Bool
is_denied none = false
is_denied (some mg) = is_some mg.denied_at

select_none {ℓ} :
    {A : Type ℓ} (p : A → Bool) (xs : List A) → any p xs ≡ false → length (select p xs) ≡ 0
select_none p [] h = refl
select_none p (x ∷ xs) h = ground (arith, select_none p xs)

-- A message in a chat that no agent is wired to leaves everything as it was, when it is no mention or
-- the chat was denied: no row is written, no session opened, no one asked.
pub strangers_are_ignored :
    (env : Env) (hooks : Hooks) (adapter : Option Adapter) (e : Event) (w : World)
    → is_wired w (find (is_group_of e) w.messaging_groups) ≡ false
    → (not e.is_mention || is_denied (find (is_group_of e) w.messaging_groups)) ≡ true
    → route_event env hooks adapter e w ≡ ok tt w
unfolding route_event route_found route_unwired
strangers_are_ignored env hooks adapter e w alone ignored =
    elim (Option-cases (find (is_group_of e) w.messaging_groups)) [
      | inl h ↦ ground arith
      | inr (mg, h) ↦ ground (arith, select_none (λ a. a.messaging_group_id == mg.id) w.wirings)
    ]
