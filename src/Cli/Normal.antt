-- ===== src/Cli/Normal.antt =====
-- The argument names that `normalizeArgs` of src/cli/crud.ts hands to a handler.
use pocketclaw_telegram.Prelude.{
  String, Option, ◌≡◌, none, [], ◌∙◌, refl, ◌∷◌, ◌==◌, true, ◌⊎◌, false, if◌then◌else◌, inl, eq_iff,
  subst, ap, inr, arith, Bool-cases,
}
use pocketclaw_telegram.Cli.{Args, normalize_args, underscored, some, normalize_into, set_arg}
use pocketclaw_telegram.World.{lookup_db}
use pocketclaw_telegram.Json.{Json}
use pocketclaw_telegram.Cli.Dispatch.Confined.{get-set_arg}

-- The key is not among the arguments.
abbrev pub Absent : String → Args → Type 0
Absent k args = lookup_db k args ≡ none

-- A JSON object: no key twice.
abbrev pub Distinct : Args → Type 0
Distinct [] = Unit
Distinct ((k, v) ∷ args) = Absent k args × Distinct args

-- No key but `k` itself reads as `k` with its dashes as underscores.
abbrev pub NoTwin : String → Args → Type 0
NoTwin k [] = Unit
NoTwin k ((j, v) ∷ args) = (underscored j ≡ k → j ≡ k) × NoTwin k args

abbrev over : Option Json → Option Json → Option Json
over none old = old
over (some v) old = some v

normalize_into-get :
    (k : String) (out args : Args)
    → underscored k ≡ k
    → Distinct args
    → NoTwin k args
    → lookup_db k (normalize_into out args) ≡ over (lookup_db k args) (lookup_db k out)
normalize_into-get k out [] plain d t = refl
normalize_into-get k out ((j, v) ∷ args) plain d t =
    normalize_into-get k (set_arg (underscored j) v out) args plain d.1 t.1
    ∙ ap (over (lookup_db k args)) (get-set_arg k (underscored j) v out)
    ∙ by_key (Bool-cases (j == k))
  where
    by_key :
        ((j == k) ≡ true) ⊎ ((j == k) ≡ false)
        → over (lookup_db k args) (if underscored j == k then some v else lookup_db k out)
          ≡ over (if j == k then some v else lookup_db k args) (lookup_db k out)
    by_key (inl same) =
        let e : j ≡ k = (eq_iff j k).0 same in
        let absent : lookup_db k args ≡ none = subst (λ i. lookup_db i args ≡ none) e d.0 in
        let test : (underscored j == k) ≡ true =
          (eq_iff (underscored j) k).1 (ap underscored e ∙ plain) in
        rw (absent, test, same) refl
    by_key (inr other) =
        let test : (underscored j == k) ≡ false =
          ground (arith, eq_iff (underscored j) k, eq_iff j k, t.0) in
        rw (test, other) refl

-- In arguments without a key twice, where no other key reads as `k` with its dashes as underscores,
-- a handler finds under `k` what the frame holds under `k`, for a key `k` without a dash.
pub normalize_args-get :
    (k : String) (args : Args)
    → underscored k ≡ k
    → Distinct args
    → NoTwin k args
    → lookup_db k (normalize_args args) ≡ lookup_db k args
unfolding normalize_args
normalize_args-get k args plain d t =
    normalize_into-get k [] args plain d t ∙ same (lookup_db k args)
  where
    same : (o : Option Json) → over o none ≡ o
    same none = refl
    same (some v) = refl
