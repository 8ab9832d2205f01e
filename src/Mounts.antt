-- ===== src/Mounts.antt =====
-- What an agent's container may mount from the host: src/modules/mount-security/index.ts. A real path
-- is the list of its segments below the root directory.
pub mod Contained
mod Examples
use Prim.Native.String
use Prim.Native.Char.{code}
use pocketclaw_telegram.Runner.Blocks.{strip_prefix, trim_text}
use pocketclaw_telegram.Prelude.{
  String, List, Option, Bool, ◌∷◌, true, find, if◌then◌else◌, none, some, [], any, ◌==◌, is_some,
  false, not, ◌++◌, ◌||◌, ◌&&◌, eqb,
}

pub record AdditionalMount : Type 0 where
  pub host_path : String
  pub container_path : Option String
  pub readonly : Option Bool

pub record AllowedRoot : Type 0 where
  pub path : String
  pub allow_read_write : Bool

pub record MountAllowlist : Type 0 where
  pub allowed_roots : List AllowedRoot
  pub blocked_patterns : List String

-- `cachedAllowlist` and `allowlistLoadError`
pub record Loaded : Type 0 where
  pub cached : Option MountAllowlist
  pub failed : Bool

-- The host's files: the home directory; `path.join` and `path.resolve`; `fs.realpathSync`, `none`
-- where the path does not exist; the file of the allowlist, `none` where it is not there; and
-- `JSON.parse` of it with the checks of its shape, `none` where one of them throws.
pub record HostFiles : Type 0 where
  pub home : String
  pub join : String → String → String
  pub absolute : String → String
  pub real_path : String → Option (List String)
  pub allowlist_file : Option String
  pub parse_allowlist : String → Option MountAllowlist

abbrev pub default_blocked_patterns : List String
default_blocked_patterns =
    ".ssh" ∷ ".gnupg" ∷ ".gpg" ∷ ".aws" ∷ ".azure" ∷ ".gcloud" ∷ ".kube" ∷ ".docker" ∷ "credentials"
    ∷ ".env" ∷ ".netrc" ∷ ".npmrc" ∷ ".pypirc" ∷ "id_rsa" ∷ "id_ed25519" ∷ "private_key" ∷ ".secret"
    ∷ []

-- `[...new Set([...defaults, ...patterns])]`, on the list that has been built so far.
abbrev pub merged : List String → List String → List String
merged seen [] = seen
merged seen (p ∷ ps) = merged (if any (λ q. q == p) seen then seen else seen ++ p ∷ []) ps

abbrev pub parsed : Loaded → Option MountAllowlist → Option MountAllowlist × Loaded
parsed l none = (none, record l { failed = true })
parsed l (some a) =
    let full = record a { blocked_patterns = merged default_blocked_patterns a.blocked_patterns } in
    (some full, record l { cached = some full })

abbrev pub read_file : HostFiles → Loaded → Option String → Option MountAllowlist × Loaded
read_file h l none = (none, l)
read_file h l (some content) = parsed l (h.parse_allowlist content)

-- A file that is not there is looked for again; one that is wrong is not.
unfoldable pub load_mount_allowlist : HostFiles → Loaded → Option MountAllowlist × Loaded
load_mount_allowlist h l = elim l.cached [
  | some a ↦ (some a, l)
  | none ↦ if l.failed then (none, l) else read_file h l h.allowlist_file
]

abbrev pub expand_path : HostFiles → String → String
expand_path h p = elim (strip_prefix "~/" p) [
  | some rest ↦ h.join h.home rest
  | none ↦ if p == "~" then h.home else h.absolute p
]

-- `s.includes(pattern)`
abbrev pub includes : String → String → Bool
includes pattern String.[] = is_some (strip_prefix pattern String.[])
includes pattern (String.◌∷◌ c s) =
    is_some (strip_prefix pattern (String.◌∷◌ c s)) || includes pattern s

abbrev pub path_text : List String → String
path_text [] = "/"
path_text (p ∷ []) = String.◌++◌ "/" p
path_text (p ∷ ps) = String.◌++◌ "/" (String.◌++◌ p (path_text ps))

abbrev pub blocks : List String → String → Bool
blocks path pattern =
    any (λ part. part == pattern || includes pattern part) ("" ∷ path)
    || includes pattern (path_text path)

unfoldable pub matches_blocked_pattern : List String → List String → Option String
matches_blocked_pattern path patterns = find (blocks path) patterns

-- `path.relative` of two real paths: a `..` for each segment that leads out, then the rest.
abbrev pub ups : List String → List String
ups [] = []
ups (p ∷ ps) = ".." ∷ ups ps

abbrev pub relative : List String → List String → List String
relative [] path = path
relative (r ∷ rs) [] = ups (r ∷ rs)
relative (r ∷ rs) (p ∷ ps) = if r == p then relative rs ps else ups (r ∷ rs) ++ p ∷ ps

-- `relative.startsWith('..')`; what `relative` returns here is never absolute.
abbrev pub leads_out : List String → Bool
leads_out [] = false
leads_out (p ∷ ps) = is_some (strip_prefix ".." p)

abbrev pub is_under : List String → Option (List String) → Bool
is_under path none = false
is_under path (some root) = not (leads_out (relative root path))

unfoldable pub find_allowed_root : HostFiles → List String → List AllowedRoot → Option AllowedRoot
find_allowed_root h path roots =
    find (λ r. is_under path (h.real_path (expand_path h r.path))) roots

unfoldable pub is_valid_container_path : String → Bool
is_valid_container_path p =
    not (includes ".." p)
    && not (is_some (strip_prefix "/" p))
    && not (p == "" || trim_text p == "")
    && not (includes ":" p)

-- The segments of a text, and the last of them that is not empty.
abbrev pub last_segment : String → Option String → String → String
last_segment current last String.[] =
    if current == "" then elim last [ none ↦ "" | some s ↦ s ] else current
last_segment current last (String.◌∷◌ c s) =
    let ends = eqb (code c) b'/' in
    last_segment (if ends then "" else String.◌++◌ current (String.◌∷◌ c String.[]))
      (if ends && not (current == "") then some current else last) s

abbrev pub base_name : String → String
base_name = last_segment "" none

pub record ValidMount : Type 0 where
  pub host_path : List String
  pub container_path : String
  pub readonly : Bool

pub data Refusal : Type 0 where
  no_allowlist invalid_container_path no_such_path outside_roots : Refusal
  blocked_by : String → Refusal

pub data MountResult : Type 0 where
  mounted : ValidMount → MountResult
  refused_mount : Refusal → MountResult

abbrev pub container_path_of : AdditionalMount → String
container_path_of m = elim m.container_path [
  | none ↦ base_name m.host_path
  | some p ↦ if p == "" then base_name m.host_path else p
]

-- Writing needs the mount to ask for it and the root to allow it.
abbrev pub effective_readonly : Option Bool → Bool → Bool
effective_readonly (some false) allows = not allows
effective_readonly (some true) allows = true
effective_readonly none allows = true

module _ (h : HostFiles) (m : AdditionalMount) where
  abbrev pub in_root : List String → Option AllowedRoot → MountResult
  in_root path none = refused_mount outside_roots
  in_root path (some root) = mounted (record {
    host_path = path;
    container_path = container_path_of m;
    readonly = effective_readonly m.readonly root.allow_read_write;
  })

  abbrev pub unblocked : MountAllowlist → List String → Option String → MountResult
  unblocked a path (some pattern) = refused_mount (blocked_by pattern)
  unblocked a path none = in_root path (find_allowed_root h path a.allowed_roots)

  abbrev pub at_path : MountAllowlist → Option (List String) → MountResult
  at_path a none = refused_mount no_such_path
  at_path a (some path) = unblocked a path (matches_blocked_pattern path a.blocked_patterns)

  abbrev pub against : Option MountAllowlist → MountResult
  against none = refused_mount no_allowlist
  against (some a) =
      if is_valid_container_path (container_path_of m)
      then at_path a (h.real_path (expand_path h m.host_path))
      else refused_mount invalid_container_path

unfoldable pub validate_mount : HostFiles → AdditionalMount → Loaded → MountResult × Loaded
validate_mount h m l = let (a, l') = load_mount_allowlist h l in (against h m a, l')

abbrev pub kept_mount : MountResult → List ValidMount → List ValidMount
kept_mount (mounted v) rest =
    record v { container_path = String.◌++◌ "/workspace/extra/" v.container_path } ∷ rest
kept_mount (refused_mount r) rest = rest

unfoldable pub validate_additional_mounts :
    HostFiles → List AdditionalMount → Loaded → List ValidMount × Loaded
validate_additional_mounts h [] l = ([], l)
validate_additional_mounts h (m ∷ ms) l =
    let (r, l') = validate_mount h m l in
    let (rest, l'') = validate_additional_mounts h ms l' in (kept_mount r rest, l'')
