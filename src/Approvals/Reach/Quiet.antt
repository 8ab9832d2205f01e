-- ===== src/Approvals/Reach/Quiet.antt =====
-- Looking for an approver sends nothing: src/modules/permissions/user-dm.ts.
use pocketclaw_telegram.Approvals.{
  Card, UserDm, ended, Office, Ended, then_do, lifted, ok, broke, threw, some,
}
use pocketclaw_telegram.Approvals.Response.Clicks.{office_of}
use pocketclaw_telegram.Approvals.Reach.{
  ensure_user_dm, DmAdapter, upsert_user_dm, first_reachable, pick_approval_delivery, at_platform,
  at_handle, for_user, remembered, found_or_created, or_any, dm_group, uncached, parse_user_id,
  or_next, resolve_dm_platform_id, cached_group, get_user_dm, on_channel,
}
use pocketclaw_telegram.World.{Env, Ran, lookup_db}
use pocketclaw_telegram.SessionDb.{InboundDb}
use pocketclaw_telegram.Prelude.{
  if_lem, any, String, ◌≡◌, Option, ◌∙◌, List, refl, ◌∷◌, Bool-cases, ◌==◌, [], inl, none, inr,
}
use pocketclaw_telegram.Types.{User, MessagingGroup}
use pocketclaw_telegram.Router.Inbound.{create_group}
use pocketclaw_telegram.Permissions.{get_user}
use pocketclaw_telegram.Delivery.Message.{get_messaging_group_by_platform}

-- The step leaves what is read of the office as it was.
abbrev pub Keeps {ℓ κ} : {X : Type κ} {A : Type ℓ} → (Office → X) → Office → Ended A → Type κ
Keeps read o r = read (office_of r) ≡ read o

abbrev pub cards_of : Office → List Card
cards_of o = o.cards

-- The step leaves what has been sent as it was.
abbrev pub SendsNone {ℓ} : {A : Type ℓ} → Office → Ended A → Type 0
SendsNone o r = Keeps cards_of o r

pub Keeps-then_do {ℓ κ ι} :
    {X : Type ι} {A : Type ℓ} {B : Type κ} (read : Office → X) (o : Office) (r : Ended A)
    (f : A → Office → Ended B)
    → Keeps read o r
    → ((a : A) (o' : Office) → Keeps read o' (f a o'))
    → Keeps read o (then_do r f)
Keeps-then_do read o (ended a o') f h k = k a o' ∙ h
Keeps-then_do read o (broke o') f h k = h

-- What neither the cache of direct chats nor a new chat changes.
abbrev pub Stable {ι} : {X : Type ι} → (Office → X) → Type ι
Stable read =
    ((dm : UserDm) (o : Office) → read (upsert_user_dm dm o) ≡ read o)
    × ((mg : MessagingGroup) (o : Office) → Keeps read o (lifted o (create_group mg o.world)))

module _ {ι} {X : Type ι} (read : Office → X) (stable : Stable read) (env : Env)
    (adapters : String → Option DmAdapter) where
  remembered-Keeps :
      (user type : String) (mg : MessagingGroup) (o : Office)
      → Keeps read o (remembered env user type mg o)
  remembered-Keeps user type mg o = stable.0 _ o

  found_or_created-Keeps :
      (user : User) (type platform : String) (g : Option MessagingGroup) (o : Office)
      → Keeps read o (found_or_created env user type platform g o)
  found_or_created-Keeps user type platform (some mg) o = remembered-Keeps user.id type mg o
  found_or_created-Keeps user type platform none o =
      let mg = dm_group env o.world.draws user type platform in
      Keeps-then_do read o (lifted o (create_group mg o.world)) _ (stable.1 mg o)
        (λ u. remembered-Keeps user.id type mg)

  at_platform-Keeps :
      (user : User) (type : String) (platform : Option String) (o : Office)
      → Keeps read o (at_platform env user type platform o)
  at_platform-Keeps user type none o = refl
  at_platform-Keeps user type (some platform) o = elim (Bool-cases (platform == "")) [
    | inl e ↦ rw e refl
    | inr e ↦ rw e (
        found_or_created-Keeps user type platform
          (get_messaging_group_by_platform env o.world type platform) o)
  ]

  at_handle-Keeps :
      (user : User) (parts : Option (String × String)) (o : Office)
      → Keeps read o (at_handle env adapters user parts o)
  at_handle-Keeps user none o = refl
  at_handle-Keeps user (some (type, handle)) o =
      by_cache (cached_group o (get_user_dm o user.id type))
    where
      by_cache :
          (g : Option MessagingGroup) → Keeps read o (uncached env adapters user type handle g o)
      by_cache (some mg) = refl
      by_cache none = at_platform-Keeps user type (resolve_dm_platform_id adapters type handle) o

  ensure_user_dm-Keeps :
      (user : String) (o : Office) → Keeps read o (ensure_user_dm env adapters user o)
  unfolding ensure_user_dm
  ensure_user_dm-Keeps user o = by_user (get_user o.world.permissions user)
    where
      by_user : (u : Option User) → Keeps read o (for_user env adapters u o)
      by_user none = refl
      by_user (some u) = at_handle-Keeps u (parse_user_id adapters u) o

  first_reachable-Keeps :
      (users : List String) (o : Office) → Keeps read o (first_reachable env adapters users o)
  unfolding first_reachable
  first_reachable-Keeps [] o = refl
  first_reachable-Keeps (user ∷ users) o =
      Keeps-then_do read o (ensure_user_dm env adapters user o) _ (ensure_user_dm-Keeps user o)
        (by_group (first_reachable-Keeps users))
    where
      by_group :
          ((o' : Office) → Keeps read o' (first_reachable env adapters users o'))
          → (g : Option MessagingGroup) (o' : Office)
          → Keeps read o' (or_next env adapters user (first_reachable env adapters users) g o')
      by_group next none o' = next o'
      by_group next (some mg) o' = refl

  pub pick_approval_delivery-Keeps :
      (approvers : List String) (origin : String) (o : Office)
      → Keeps read o (pick_approval_delivery env adapters approvers origin o)
  unfolding pick_approval_delivery
  pick_approval_delivery-Keeps approvers origin o = elim (Bool-cases (origin == "")) [
    | inl e ↦ rw e (first_reachable-Keeps approvers o)
    | inr e ↦ rw e (
        Keeps-then_do read o
          (first_reachable env adapters (on_channel env adapters origin approvers) o) _
          (first_reachable-Keeps (on_channel env adapters origin approvers) o) by_target)
  ]
    where
      by_target :
          (t : Option (String × MessagingGroup)) (o' : Office)
          → Keeps read o' (or_any env adapters approvers t o')
      by_target none o' = first_reachable-Keeps approvers o'
      by_target (some t) o' = refl

Stable-cards : Stable cards_of
unfolding upsert_user_dm
Stable-cards = (λ dm o. refl, λ mg o. by_run o (create_group mg o.world))
  where
    by_run : (o : Office) (r : Ran (Unit {0})) → Keeps cards_of o (lifted o r)
    by_run o (ok u w) = refl
    by_run o (threw w) = refl

pub pick_approval_delivery-SendsNone :
    (env : Env) (adapters : String → Option DmAdapter) (approvers : List String) (origin : String)
    (o : Office)
    → SendsNone o (pick_approval_delivery env adapters approvers origin o)
pick_approval_delivery-SendsNone env adapters approvers origin o =
    pick_approval_delivery-Keeps cards_of Stable-cards env adapters approvers origin o

-- The inbound database of a session.
abbrev pub inbox_of : String → Office → Option InboundDb
inbox_of id o = lookup_db id o.world.inboxes

pub Stable-inbox : (id : String) → Stable (inbox_of id)
unfolding upsert_user_dm
Stable-inbox id = (
  λ dm o. refl,
  λ mg o.
      if_lem (λ (r : Ran (Unit {0})). Keeps (inbox_of id) o (lifted o r))
        (any (λ h. h.id == mg.id) o.world.messaging_groups) _ _ refl refl,
)
