-- ===== src/Mounts/Contained.antt =====
-- What a mount that is let through is: src/modules/mount-security/index.ts.
use pocketclaw_telegram.Mounts.{
  relative, leads_out, is_under, HostFiles, Loaded, MountAllowlist, matches_blocked_pattern,
  load_mount_allowlist, AdditionalMount, some, ValidMount, default_blocked_patterns, merged,
  AllowedRoot, blocks, expand_path, is_valid_container_path, parsed, read_file, find_allowed_root,
  validate_mount, effective_readonly, against, mounted, Refusal, MountResult, refused_mount,
  container_path_of, in_root, unblocked, at_path, invalid_container_path,
}
use pocketclaw_telegram.Prelude.{
  Option, List, String, ◌≡◌, false, none, ◌++◌, All, sym, ◌∷◌, append_none, Bool-cases, true, any,
  ◌==◌, inl, none-ne-some, inr, [], ◌∙◌, refl, ap, Bool, arith, eq_iff, if◌then◌else◌, subst, ◌≢◌,
  find→Memᴰ,
}
use mathlib.Core.List.{Memᴰ, append_assoc}

-- The real path lies under the real path of a root of the allowlist, no blocked pattern matches it,
-- it can be written only if the mount asks for it and the root allows it, and its name in the
-- container is a relative one.
abbrev pub Contained : HostFiles → MountAllowlist → AdditionalMount → ValidMount → Type 0
Contained h a m v =
    ((root : AllowedRoot) × (real_root rest : List String) × Memᴰ root a.allowed_roots
      × (h.real_path (expand_path h root.path) ≡ some real_root)
      × (v.host_path ≡ real_root ++ rest)
      × ((v.readonly ≡ false) → (m.readonly ≡ some false) × (root.allow_read_write ≡ true)))
    × All (λ pattern. blocks v.host_path pattern ≡ false) a.blocked_patterns
    × (is_valid_container_path v.container_path ≡ true)

-- The default patterns are among the blocked ones.
abbrev pub HasDefaults : MountAllowlist → Type 0
HasDefaults a = (more : List String) × (a.blocked_patterns ≡ default_blocked_patterns ++ more)

abbrev pub KeepsDefaults : Option MountAllowlist → Type 0
KeepsDefaults none = Unit {0}
KeepsDefaults (some a) = HasDefaults a

merged_lem : (seen ps : List String) → (more : List String) × (merged seen ps ≡ seen ++ more)
merged_lem seen [] = ([], sym (append_none seen))
merged_lem seen (p ∷ ps) = elim (Bool-cases (any (λ q. q == p) seen)) [
  | inl e ↦ rw e (merged_lem seen ps)
  | inr e ↦
      let (more, h) = merged_lem (seen ++ p ∷ []) ps in
      rw e (p ∷ more, h ∙ append_assoc seen (p ∷ []) more)
]

relative_lem :
    (root path : List String)
    → leads_out (relative root path) ≡ false
    → (rest : List String) × (path ≡ root ++ rest)
relative_lem [] path h = (path, refl)
relative_lem (r ∷ rs) [] h = absurd (cc)
relative_lem (r ∷ rs) (p ∷ ps) h = elim (Bool-cases (r == p)) [
  | inl e ↦
      let inner : leads_out (relative rs ps) ≡ false = sym (rw e refl) ∙ h in
      let (rest, k) = relative_lem rs ps inner in
      (rest, ap (λ qs. p ∷ qs) k ∙ ap (λ q. q ∷ rs ++ rest) (sym ((eq_iff r p).0 e)))
  | inr e ↦ let out : leads_out (relative (r ∷ rs) (p ∷ ps)) ≡ true = rw e refl in absurd (cc)
]

find_none_lem :
    (path patterns : List String)
    → matches_blocked_pattern path patterns ≡ none
    → All (λ pattern. blocks path pattern ≡ false) patterns
unfolding matches_blocked_pattern
find_none_lem path [] h = tt
find_none_lem path (p ∷ ps) h = elim (Bool-cases (blocks path p)) [
  | inl e ↦ absurd (none-ne-some p (sym h ∙ rw e refl))
  | inr e ↦ (e, find_none_lem path ps (sym (rw e refl) ∙ h))
]

-- What loading leaves: an allowlist with the default patterns, in the cache.
abbrev IsLoaded : Option MountAllowlist × Loaded → Type 0
IsLoaded r = KeepsDefaults r.0 × ((a : MountAllowlist) → r.0 ≡ some a → r.1.cached ≡ some a)

parsed-IsLoaded : (l : Loaded) (o : Option MountAllowlist) → IsLoaded (parsed l o)
parsed-IsLoaded l none = (tt, λ a e. absurd (none-ne-some a e))
parsed-IsLoaded l (some a) = (merged_lem default_blocked_patterns a.blocked_patterns, λ b e. e)

load-IsLoaded :
    (h : HostFiles) (l : Loaded) → KeepsDefaults l.cached → IsLoaded (load_mount_allowlist h l)
unfolding load_mount_allowlist
load-IsLoaded h l kept = by_cache l.cached refl kept
  where
    by_file : (f : Option String) → IsLoaded (read_file h l f)
    by_file none = (tt, λ a e. absurd (none-ne-some a e))
    by_file (some content) = parsed-IsLoaded l (h.parse_allowlist content)

    by_failed : (b : Bool) → IsLoaded (if b then (none, l) else read_file h l h.allowlist_file)
    by_failed true = (tt, λ a e. absurd (none-ne-some a e))
    by_failed false = by_file h.allowlist_file

    by_cache :
        (c : Option MountAllowlist)
        → l.cached ≡ c
        → KeepsDefaults c
        → IsLoaded (elim c as (λ x. Option MountAllowlist × Loaded) [
          | some a ↦ (some a, l)
          | none ↦ if l.failed then (none, l) else read_file h l h.allowlist_file
        ])
    by_cache none e k = by_failed l.failed
    by_cache (some a) e k = (k, λ b same. e ∙ same)

module _ (h : HostFiles) (a : MountAllowlist) (m : AdditionalMount) where
  writable_lem :
      (asked : Option Bool) (allows : Bool)
      → effective_readonly asked allows ≡ false
      → (asked ≡ some false) × (allows ≡ true)
  writable_lem none allows e = absurd (cc)
  writable_lem (some true) allows e = absurd (cc)
  writable_lem (some false) true e = (refl, refl)
  writable_lem (some false) false e = absurd (cc)

  under_lem :
      (path : List String) (o : Option (List String))
      → is_under path o ≡ true
      → (real_root rest : List String) × (o ≡ some real_root) × (path ≡ real_root ++ rest)
  under_lem path none e = absurd (cc)
  under_lem path (some root) e =
      let (rest, same) = relative_lem root path (ground arith) in (root, rest, refl, same)

  against-Contained : (v : ValidMount) → against h m (some a) ≡ mounted v → Contained h a m v
  unfolding find_allowed_root
  against-Contained v e = elim (Bool-cases (is_valid_container_path (container_path_of m))) [
    | inl valid ↦ by_path valid (h.real_path (expand_path h m.host_path)) (sym (rw valid refl) ∙ e)
    | inr invalid ↦
        absurd (refused≢mounted {r = invalid_container_path} (sym (rw invalid refl) ∙ e))
  ]
    where
      refused≢mounted : {r : Refusal} {w : ValidMount} → refused_mount r ≢ mounted w
      refused≢mounted k = cc

      mounted-inj : {w : ValidMount} → mounted w ≡ mounted v → w ≡ v
      mounted-inj k =
          ap (λ r. elim r as (λ x. ValidMount) [ mounted w ↦ w | refused_mount x ↦ v ]) k

      by_root :
          (path : List String) (o : Option AllowedRoot)
          → All (λ pattern. blocks path pattern ≡ false) a.blocked_patterns
          → is_valid_container_path (container_path_of m) ≡ true
          → find_allowed_root h path a.allowed_roots ≡ o
          → in_root h m path o ≡ mounted v
          → Contained h a m v
      by_root path none free valid f k = absurd (refused≢mounted k)
      by_root path (some root) free valid f k =
          let (member, under) =
            find→Memᴰ (λ r. is_under path (h.real_path (expand_path h r.path))) a.allowed_roots f in
          let (real_root, rest, there, same) =
            under_lem path (h.real_path (expand_path h root.path)) under in
          subst (Contained h a m) (mounted-inj k) (
            (
              root,
              real_root,
              rest,
              member,
              there,
              same,
              writable_lem m.readonly root.allow_read_write,
            ),
            free,
            valid,
          )

      by_block :
          (path : List String) (o : Option String)
          → is_valid_container_path (container_path_of m) ≡ true
          → matches_blocked_pattern path a.blocked_patterns ≡ o
          → unblocked h m a path o ≡ mounted v
          → Contained h a m v
      by_block path (some pattern) valid b k = absurd (refused≢mounted k)
      by_block path none valid b k =
          by_root path (find_allowed_root h path a.allowed_roots)
            (find_none_lem path a.blocked_patterns b) valid refl k

      by_path :
          is_valid_container_path (container_path_of m) ≡ true
          → (o : Option (List String)) → at_path h m a o ≡ mounted v
          → Contained h a m v
      by_path valid none k = absurd (refused≢mounted k)
      by_path valid (some path) k =
          by_block path (matches_blocked_pattern path a.blocked_patterns) valid refl k

-- While a cached allowlist holds the default patterns: a mount that is let through lies under a root
-- of the allowlist in force, which is then cached, and matches no pattern that it blocks, the default
-- patterns among them; it can be written only if both the mount and the root say so; and its path in
-- the container is a valid one.
pub validate_mount-Contained :
    (h : HostFiles) (m : AdditionalMount) (l l' : Loaded) (v : ValidMount)
    → KeepsDefaults l.cached
    → validate_mount h m l ≡ (mounted v, l')
    → (a : MountAllowlist) × (l'.cached ≡ some a) × HasDefaults a × Contained h a m v
unfolding validate_mount
validate_mount-Contained h m l l' v kept e =
    by_loaded (load_mount_allowlist h l).0 refl (ap (λ p. p.0) e)
  where
    loaded : IsLoaded (load_mount_allowlist h l)
    loaded = load-IsLoaded h l kept

    by_loaded :
        (o : Option MountAllowlist)
        → (load_mount_allowlist h l).0 ≡ o
        → against h m o ≡ mounted v
        → (a : MountAllowlist) × (l'.cached ≡ some a) × HasDefaults a × Contained h a m v
    by_loaded none same k = absurd (cc)
    by_loaded (some a) same k = (
      a,
      ap (λ (p : MountResult × Loaded). p.1.cached) (sym e) ∙ loaded.1 a same,
      subst KeepsDefaults same loaded.0,
      against-Contained h a m v k,
    )
