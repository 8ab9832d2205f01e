-- ===== src/CommandGate/Verdicts.antt =====
-- What the gate of src/command-gate.ts decides, and for whom.
use pocketclaw_telegram.Prelude.{
  ℕ, String, ◌==◌, eq_iff, Bool, true, ◌&&◌, ◌||◌, Option, none, some, List, [], ◌∷◌, ◌++◌, any,
  ◌≡◌, refl, arith, sym, ◌∙◌, All, ◌≢◌, if◌then◌else◌, is_none, is_text,
}
use pocketclaw_telegram.Types.{UserRole, owner, admin}
use pocketclaw_telegram.Json.{Json}
use pocketclaw_telegram.Permissions.{
  Permissions, is_role, is_owner, is_global_admin, is_admin_of_agent_group, has_admin_privilege,
}
use pocketclaw_telegram.Permissions.Roles.{is_role_iff, is_none_iff}
use pocketclaw_telegram.Permissions.Grants.{IsGlobalOwner, OwnersGlobal}
use pocketclaw_telegram.CommandGate.{
  GateResult, pass, filter, deny, lower, filtered_commands, admin_commands, has_command, is_admin,
  parsed_text, gate_text, gate_command, starts_with_slash,
}
use pocketclaw_telegram.CommandGate.Words.{
  IsWord, EndsWord, first_word-append, slash_of_filtered, slash_of_admin, admin-ne-filtered,
}

module _ (user_id group : String) where
  -- The three tests of the permissions module, on one row.
  abbrev row_privilege : UserRole → Bool
  row_privilege r =
      (r.user_id == user_id && is_role r.role owner && is_none r.agent_group_id)
      || ((r.user_id == user_id && is_role r.role admin && is_none r.agent_group_id)
          || (r.user_id == user_id && is_role r.role admin && is_text r.agent_group_id group))

  row_lem :
      (r : UserRole)
      → IsGlobalOwner r
      → (r.user_id == user_id
          && (is_role r.role owner || is_role r.role admin)
          && (is_none r.agent_group_id || is_text r.agent_group_id group))
        ≡ row_privilege r
  row_lem r v = ground (arith, is_role_iff r.role owner, is_none_iff r.agent_group_id)

  rows_lem :
      (rs : List UserRole)
      → All IsGlobalOwner rs
      → any
          (λ r.
            r.user_id == user_id
            && (is_role r.role owner || is_role r.role admin)
            && (is_none r.agent_group_id || is_text r.agent_group_id group))
          rs
        ≡ any row_privilege rs
  rows_lem [] v = refl
  rows_lem (r ∷ rs) v = rw (row_lem r v.0, rows_lem rs v.1)

any-or {ℓ} :
    {A : Type ℓ} (f g : A → Bool) (xs : List A) → any (λ x. f x || g x) xs ≡ (any f xs || any g xs)
any-or f g [] = refl
any-or f g (x ∷ xs) = ground (arith, any-or f g xs)

-- While every owner row is global, the gate's own SQL asks for the same privilege over an agent
-- group as `hasAdminPrivilege` of the permissions module does, for every non-empty user id.
pub is_admin-has_admin_privilege :
    (p : Permissions) (user_id group : String)
    → OwnersGlobal p
    → user_id ≢ ""
    → is_admin p true (some user_id) group ≡ has_admin_privilege p user_id group
unfolding is_admin has_admin_privilege is_owner is_global_admin is_admin_of_agent_group
is_admin-has_admin_privilege p user_id group v named = ground (
  arith,
  eq_iff user_id "",
  rows_lem user_id group p.user_roles v,
  any-or
      (λ (r : UserRole). r.user_id == user_id && is_role r.role owner && is_none r.agent_group_id)
      (λ (r : UserRole).
        (r.user_id == user_id && is_role r.role admin && is_none r.agent_group_id)
        || (r.user_id == user_id && is_role r.role admin && is_text r.agent_group_id group))
      p.user_roles,
  any-or
      (λ (r : UserRole). r.user_id == user_id && is_role r.role admin && is_none r.agent_group_id)
      (λ (r : UserRole).
        r.user_id == user_id && is_role r.role admin && is_text r.agent_group_id group)
      p.user_roles,
)

is_admin-none : (p : Permissions) (group : String) → is_admin p true none group ≡ true → ⊥
unfolding is_admin
is_admin-none p group h = cc

is_admin_named :
    (p : Permissions) (u group : String) → is_admin p true (some u) group ≡ true → u ≢ ""
unfolding is_admin
is_admin_named p u group h e = ground (arith, eq_iff u "")

-- The verdict as a function of the lowered first word alone.
abbrev pub verdict : List ℕ → Bool → GateResult
verdict word admin_here =
    if has_command filtered_commands word
    then filter
    else if has_command admin_commands word
    then (if admin_here then pass else deny word)
    else pass

pub gate_text_lem :
    (w rest : List ℕ) (admin_here : Bool)
    → IsWord w
    → EndsWord rest
    → gate_text (w ++ rest) admin_here ≡ verdict (lower w) admin_here
unfolding gate_text
gate_text_lem w rest admin_here hw hr =
    rw (first_word-append w rest hw hr)
      (ground (arith, slash_append w rest hr, slash_of_filtered w, slash_of_admin w))
  where
    slash_append :
        (w rest : List ℕ) → EndsWord rest → starts_with_slash (w ++ rest) ≡ starts_with_slash w
    slash_append [] [] h = refl
    slash_append [] (c ∷ s) h = ground arith
    slash_append (c ∷ w) rest h = refl

module _ (parse_json : String → Option Json) where
  -- A message whose trimmed text is a word with nothing, or a space, behind it is judged by the
  -- lowered word alone: a filtered command is dropped whoever sends it, an admin command passes
  -- for an admin and is denied by name to anyone else, and all else passes.
  pub gate_command_lem :
      (p : Permissions) (roles_table : Bool) (content : String) (user_id : Option String)
      (group : String) (w rest : List ℕ)
      → parsed_text (parse_json content) content ≡ w ++ rest
      → IsWord w
      → EndsWord rest
      → gate_command parse_json p roles_table content user_id group
        ≡ verdict (lower w) (is_admin p roles_table user_id group)
  unfolding gate_command
  gate_command_lem p roles_table content user_id group w rest e hw hr =
      rw e (gate_text_lem w rest (is_admin p roles_table user_id group) hw hr)

  -- With the roles table present and every owner row global, an admin command passes the gate only
  -- for a sender who is known by a non-empty id and holds admin privilege over the agent group.
  pub admin_command_needs_privilege :
      (p : Permissions) (content : String) (user_id : Option String) (group : String)
      (w rest : List ℕ)
      → OwnersGlobal p
      → parsed_text (parse_json content) content ≡ w ++ rest
      → IsWord w
      → EndsWord rest
      → has_command admin_commands (lower w) ≡ true
      → gate_command parse_json p true content user_id group ≡ pass
      → (u : String) × (user_id ≡ some u) × (u ≢ "") × (has_admin_privilege p u group ≡ true)
  admin_command_needs_privilege p content user_id group w rest v e hw hr cmd passed =
      privileged user_id (
        verdict_pass (is_admin p true user_id group)
          (sym (gate_command_lem p true content user_id group w rest e hw hr) ∙ passed))
    where
      verdict_pass : (b : Bool) → verdict (lower w) b ≡ pass → b ≡ true
      verdict_pass b h = ground (arith, admin-ne-filtered (lower w))

      privileged :
          (o : Option String)
          → is_admin p true o group ≡ true
          → (u : String) × (o ≡ some u) × (u ≢ "") × (has_admin_privilege p u group ≡ true)
      privileged none h = absurd (is_admin-none p group h)
      privileged (some u) h =
          let named = is_admin_named p u group h in
          (u, refl, named, sym (is_admin-has_admin_privilege p u group v named) ∙ h)
