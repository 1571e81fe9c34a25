-- ===== src/Policy/Engine.antt =====
-- `PolicyEngine.authorize` (packages/policy/src/policy-engine.ts) and the classes of operations
-- (packages/policy/src/capability-class.ts).
pub mod Permits
use Prim.Native.String.{◌++◌ as text_append}
use text.Mathlib.Text.{starts_with}
use my_pi.Prelude.{
  ◌≡◌, refl, String, List, Bool, true, false, ◌&&◌, ◌||◌, not, str_eq, if◌then◌else◌, any, is_some,
}
use my_pi.Prelude.Text.{without_last_slashes}
use my_pi.Policy.Paths.{is_sensitive}

pub data CapabilityClass : Type 0 where
  read write network exec debug secret : CapabilityClass

pub data WorkspacePolicyMode : Type 0 where
  read_only workspace_write review_required : WorkspacePolicyMode

pub record WorkspacePolicy : Type 0 where
  pub mode : WorkspacePolicyMode
  pub allowed_sensitive_paths : List String

pub data DenialReason : Type 0 where
  mode_denied secret_path_denied unavailable_class : DenialReason

pub data PolicyVerdict : Type 0 where
  allowed : PolicyVerdict
  denied : DenialReason → PolicyVerdict

-- `classAllowedInMode`
abbrev pub class_allowed_in_mode : CapabilityClass → WorkspacePolicyMode → Bool
class_allowed_in_mode CapabilityClass.read mode = true
class_allowed_in_mode CapabilityClass.write WorkspacePolicyMode.workspace_write = true
class_allowed_in_mode _ mode = false

-- `V1_UNAVAILABLE_CLASSES`
abbrev pub is_unavailable : CapabilityClass → Bool
is_unavailable CapabilityClass.read = false
is_unavailable CapabilityClass.write = false
is_unavailable _ = true

abbrev pub reads_or_writes : CapabilityClass → Bool
reads_or_writes cls = not (is_unavailable cls)

-- A path is the allowed one or lies below it.
unfoldable pub is_allowed_by : String → String → Bool
unfolding without_last_slashes
is_allowed_by path allowed_path =
    str_eq path (without_last_slashes allowed_path)
    || starts_with path (text_append (without_last_slashes allowed_path) "/")

abbrev pub is_allowed : PolicyVerdict → Bool
is_allowed PolicyVerdict.allowed = true
is_allowed (PolicyVerdict.denied reason) = false

-- The arguments are `toLowerCase` and the rules of the engine's `SensitivePathPolicy`.
module _ (lower : String → String) (rules : List String) where
  -- `PolicyEngine.authorize`
  unfoldable pub authorize : WorkspacePolicy → CapabilityClass → String → PolicyVerdict
  unfolding is_sensitive is_allowed_by
  authorize policy cls path =
      if is_unavailable cls
      then PolicyVerdict.denied DenialReason.unavailable_class
      else if not (class_allowed_in_mode cls policy.mode)
      then PolicyVerdict.denied DenialReason.mode_denied
      else if reads_or_writes cls
          && (is_some (is_sensitive lower rules path)
              && not (any (is_allowed_by path) policy.allowed_sensitive_paths))
      then PolicyVerdict.denied DenialReason.secret_path_denied
      else PolicyVerdict.allowed
