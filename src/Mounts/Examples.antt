-- ===== src/Mounts/Examples.antt =====
-- An allowlist of one root, and three mounts under it.
use pocketclaw_telegram.Runner.Blocks.{trim_text}
use pocketclaw_telegram.Mounts.{
  matches_blocked_pattern, AllowedRoot, HostFiles, Loaded, MountAllowlist, AdditionalMount,
  ValidMount, validate_mount, load_mount_allowlist, is_valid_container_path,
  default_blocked_patterns, find_allowed_root, mounted, refused_mount, blocked_by,
}
use pocketclaw_telegram.Prelude.{
  true, if◌then◌else◌, none, ◌∷◌, some, ◌==◌, false, [], ◌≡◌, ◌++◌, refl,
}
use pocketclaw_telegram.Mounts.Contained.{HasDefaults, Contained, validate_mount-Contained}

abbrev projects : AllowedRoot
projects = record { path = "/home/me/projects"; allow_read_write = true }

abbrev host : HostFiles
host = record {
  home = "/home/me";
  join = λ a b. a;
  absolute = λ p. p;
  real_path = λ p.
      if p == "/home/me/projects"
      then some ("home" ∷ "me" ∷ "projects" ∷ [])
      else if p == "/home/me/projects/site"
      then some ("home" ∷ "me" ∷ "projects" ∷ "site" ∷ [])
      else if p == "/home/me/projects/keys"
      then some ("home" ∷ "me" ∷ "projects" ∷ ".ssh" ∷ [])
      else none;
  allowlist_file = some "{}";
  parse_allowlist =
      λ s. some (record { allowed_roots = projects ∷ []; blocked_patterns = "secret" ∷ [] });
}

abbrev fresh_load : Loaded
fresh_load = record { cached = none; failed = false }

abbrev allowlist : MountAllowlist
allowlist = record {
  allowed_roots = projects ∷ [];
  blocked_patterns = default_blocked_patterns ++ "secret" ∷ [];
}

abbrev site : AdditionalMount
site = record { host_path = "/home/me/projects/site"; container_path = none; readonly = some false }

abbrev site_mount : ValidMount
site_mount = record {
  host_path = "home" ∷ "me" ∷ "projects" ∷ "site" ∷ [];
  container_path = "site";
  readonly = false;
}

site_passes :
    validate_mount host site fresh_load
    ≡ (mounted site_mount, record { cached = some allowlist; failed = false })
unfolding validate_mount load_mount_allowlist is_valid_container_path matches_blocked_pattern
    find_allowed_root trim_text
site_passes = refl

-- A link to the keys is followed, and refused.
keys_are_blocked :
    (validate_mount host (record site { host_path = "/home/me/projects/keys" }) fresh_load).0
    ≡ refused_mount (blocked_by ".ssh")
unfolding validate_mount load_mount_allowlist is_valid_container_path matches_blocked_pattern
    find_allowed_root trim_text
keys_are_blocked = refl

validate_mount-Contained_example :
    (a : MountAllowlist) × (some allowlist ≡ some a)
    × HasDefaults a
    × Contained host a site site_mount
validate_mount-Contained_example =
    validate_mount-Contained host site fresh_load
      (record { cached = some allowlist; failed = false }) site_mount tt site_passes
