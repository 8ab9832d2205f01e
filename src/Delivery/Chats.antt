-- ===== src/Delivery/Chats.antt =====
-- Which chat `deliverMessage` of src/delivery.ts addresses, and whether the session's agent may send to
-- it.
use pocketclaw_telegram.World.{Env, World, get_messaging_group}
use pocketclaw_telegram.Types.{Session, MessagingGroup, channel}
use pocketclaw_telegram.Delivery.Message.{
  may_send, get_messaging_group_by_platform, delivery_group, origin_group, is_at, best_group,
  better, group_named, preferred,
}
use pocketclaw_telegram.Prelude.{
  String, ◌≡◌, List, Bool, some, true, Option, select, ◌⊎◌, Bool-cases, arith, ◌∷◌, Option-cases,
  false, is_text, eq_iff, ap, find→Memᴰ, inl, [], subst, ◌∙◌, ◌==◌, inr, if_lem, if◌then◌else◌,
  none, refl,
}
use mathlib.Core.List.{Memᴰ}
use pocketclaw_telegram.AgentToAgent.Destinations.{has_destination}
use pocketclaw_telegram.Permissions.Roles.{is_text_iff}

module _ (env : Env) (s : Session) where
  -- The agent may send to the chat: it is the session's own, or the agent has a destination for it, or
  -- there is no table of destinations.
  abbrev pub Allowed : World → MessagingGroup → Type 0
  Allowed w g =
      (s.messaging_group_id ≡ some g.id)
      ⊎ (w.destinations_table ≡ false)
      ⊎ (has_destination w.destinations s.agent_group_id channel g.id ≡ true)

  pub may_send-Allowed : (w : World) (g : MessagingGroup) → may_send w s g ≡ true → Allowed w g
  unfolding may_send
  may_send-Allowed w g h = elim (Bool-cases (is_text s.messaging_group_id g.id)) [
    | inl own ↦ inl ((is_text_iff s.messaging_group_id g.id).0 own)
    | inr other ↦ elim (Bool-cases w.destinations_table) [
      | inl table ↦ inr (inr (ground arith))
      | inr absent ↦ inr (inl absent)
    ]
  ]

  -- A chat of the table at this address.
  abbrev pub IsChat : World → String → String → MessagingGroup → Type 0
  IsChat w type platform g =
      Memᴰ g w.messaging_groups × (g.channel_type ≡ type) × (g.platform_id ≡ platform)

  IsChat-at :
      (w : World) (type platform : String) (g : MessagingGroup)
      → Memᴰ g w.messaging_groups
      → is_at type platform g ≡ true
      → IsChat w type platform g
  IsChat-at w type platform g m h =
      (m, ground (arith, eq_iff g.channel_type type), ground (arith, eq_iff g.platform_id platform))

  better-Memᴰ :
      (type : String) (x : MessagingGroup) (gs : List MessagingGroup) (o : Option MessagingGroup)
      (g : MessagingGroup)
      → ((h : MessagingGroup) → o ≡ some h → Memᴰ h gs)
      → better env.before type x o ≡ some g
      → Memᴰ g (x ∷ gs)
  better-Memᴰ type x gs none g below h = Memᴰ.head (ground arith)
  better-Memᴰ type x gs (some y) g below h =
      let same : preferred env.before type x y ≡ g = ground arith in
      subst (λ r. Memᴰ r (x ∷ gs)) same
        (if_lem (λ r. Memᴰ r (x ∷ gs)) (x.instance_name == type) _ _ (Memᴰ.head refl)
          (if_lem (λ r. Memᴰ r (x ∷ gs)) (y.instance_name == type) _ _ (Memᴰ.tail (below y refl))
            (if_lem (λ r. Memᴰ r (x ∷ gs)) (env.before y.instance_name x.instance_name) _ _
              (Memᴰ.tail (below y refl)) (Memᴰ.head refl))))

  best_group-Memᴰ :
      (type : String) (gs : List MessagingGroup) (g : MessagingGroup)
      → best_group env.before type gs ≡ some g
      → Memᴰ g gs
  best_group-Memᴰ type [] g h = cc
  best_group-Memᴰ type (x ∷ gs) g h =
      better-Memᴰ type x gs (best_group env.before type gs) g (best_group-Memᴰ type gs) h

  from_cons :
      (p : MessagingGroup → Bool) (x g : MessagingGroup) (xs ys : List MessagingGroup)
      → p x ≡ true
      → (Memᴰ g ys → Memᴰ g xs × (p g ≡ true))
      → Memᴰ g (x ∷ ys)
      → Memᴰ g (x ∷ xs) × (p g ≡ true)
  from_cons p x g xs ys e f (Memᴰ.head q) = (Memᴰ.head q, ap p q ∙ e)
  from_cons p x g xs ys e f (Memᴰ.tail m) = (Memᴰ.tail (f m).0, (f m).1)

  select-Memᴰ :
      (p : MessagingGroup → Bool) (gs : List MessagingGroup) (g : MessagingGroup)
      → Memᴰ g (select p gs)
      → Memᴰ g gs × (p g ≡ true)
  select-Memᴰ p [] g m = elim m [ ]
  select-Memᴰ p (x ∷ gs) g m = elim (Bool-cases (p x)) [
    | inl e ↦
        from_cons p x g gs (select p gs) e (select-Memᴰ p gs g)
          (subst (Memᴰ g) (ap (λ b. if b then x ∷ select p gs else select p gs) e) m)
    | inr e ↦
        let (n, q) =
          select-Memᴰ p gs g
            (subst (Memᴰ g) (ap (λ b. if b then x ∷ select p gs else select p gs) e) m) in
        (Memᴰ.tail n, q)
  ]

  by_platform-IsChat :
      (w : World) (type platform : String) (g : MessagingGroup)
      → get_messaging_group_by_platform env w type platform ≡ some g
      → IsChat w type platform g
  unfolding get_messaging_group_by_platform
  by_platform-IsChat w type platform g h =
      let (m, e) =
        select-Memᴰ (is_at type platform) w.messaging_groups g (best_group-Memᴰ type _ g h) in
      IsChat-at w type platform g m e

  origin-Memᴰ :
      (w : World) (g : MessagingGroup) → origin_group w s ≡ some g → Memᴰ g w.messaging_groups
  unfolding get_messaging_group
  origin-Memᴰ w g h = of_name s.messaging_group_id h
    where
      of_name : (o : Option String) → group_named w o ≡ some g → Memᴰ g w.messaging_groups
      of_name none h = cc
      of_name (some id) h = (find→Memᴰ (λ x. x.id == id) w.messaging_groups (ground arith)).0

  pub delivery_group-IsChat :
      (w : World) (type platform : String) (g : MessagingGroup)
      → delivery_group env w s type platform ≡ some g
      → IsChat w type platform g
  unfolding delivery_group
  delivery_group-IsChat w type platform g h = elim (Option-cases (origin_group w s)) [
    | inl e ↦ by_platform-IsChat w type platform g (ground arith)
    | inr (o, e) ↦ elim (Bool-cases (is_at type platform o)) [
      | inl here ↦
          let same : o ≡ g = ground arith in
          subst (IsChat w type platform) same (IsChat-at w type platform o (origin-Memᴰ w o e) here)
      | inr away ↦ by_platform-IsChat w type platform g (ground arith)
    ]
  ]
