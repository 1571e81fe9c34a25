-- ===== src/Policy/Samples.antt =====
-- A small policy, and the theorems at it.
use mathlib.Core.List.{Memᴰ}
use Prim.Native.Char.{Char, code}
use Prim.Native.String.{◌++◌ as text_append, char_at}
use text.Mathlib.TextLemmas.{nil-append, cons-append}
use my_pi.Prelude.{
  ℕ, ◌≡◌, ◌≢◌, ◌↔◌, refl, ap, arith, sym, ◌∙◌, String, Option, none, some, [], ◌∷◌, true, is_some,
}
use my_pi.Prelude.Text.{without_last_slashes}
use my_pi.Prelude.Outcome.{ok}
use my_pi.Prelude.Sorting.{code_units}
use my_pi.Policy.Paths.{
  default_sensitive_patterns, is_sensitive, split_first, has_double_star, matches_sensitive_pattern,
  matches_units, matches, repeated, groups, glob_to_regex,
}
use my_pi.Policy.Paths.Exact.{is_sensitive-segment}
use my_pi.Policy.Engine.{
  CapabilityClass, WorkspacePolicyMode, WorkspacePolicy, DenialReason, PolicyVerdict, is_allowed,
  is_allowed_by, authorize,
}
use my_pi.Policy.Engine.Permits.{IsOpen, PathPasses, authorize-PathPasses}
use my_pi.Policy.Audit.{
  AuditEvent, new_sink, reversed, list, append_all, append_all-list, PolicyDecisionKind,
  DataClassification,
}
use my_pi.Policy.Decision.{PrincipalRef, PolicyInput}
use my_pi.Policy.Approval.{
  ApprovalBinding, ApprovalReceipt, canonical, make_approval_receipt, verify_approval_receipt,
}
use my_pi.Policy.Approval.Delimited.{Delimited}
use my_pi.Policy.Approval.Binding.{IsToCome, verify_approval_receipt-make}

-- Of these texts none has a letter in upper case.
abbrev lower : String → String
lower s = s

is_sensitive-segment_example :
    is_some (is_sensitive lower default_sensitive_patterns "app/.env/local") ≡ true
unfolding code_units split_first has_double_star
is_sensitive-segment_example =
    is_sensitive-segment lower default_sensitive_patterns "app/.env/local" ".env" (Memᴰ.head refl)
      refl refl (Memᴰ.tail (Memᴰ.head refl))

abbrev policy : WorkspacePolicy
policy = record {
  mode = WorkspacePolicyMode.workspace_write;
  allowed_sensitive_paths = "app/.env/" ∷ [];
}

authorize-PathPasses_example :
    (is_allowed (authorize lower default_sensitive_patterns policy CapabilityClass.write "app/.env")
      ≡ true)
    ↔ (IsOpen CapabilityClass.write WorkspacePolicyMode.workspace_write
        × PathPasses lower default_sensitive_patterns "app/.env" ("app/.env/" ∷ []))
authorize-PathPasses_example =
    authorize-PathPasses lower default_sensitive_patterns policy CapabilityClass.write "app/.env"

-- A file beside a listed one, whose name goes on from it, stays denied.
sibling_denied :
    authorize lower default_sensitive_patterns policy CapabilityClass.write "app/.env.local"
    ≡ PolicyVerdict.denied DenialReason.secret_path_denied
unfolding authorize is_sensitive is_allowed_by without_last_slashes matches_sensitive_pattern
    matches_units matches repeated groups code_units split_first has_double_star glob_to_regex
sibling_denied = refl

abbrev audit : String → AuditEvent
audit id = record {
  id = id;
  occurred_at = "t";
  actor_ref = none;
  agent_session_id = none;
  project_id = none;
  repository_id = none;
  worktree_id = none;
  operation = "read";
  policy_decision = some PolicyDecisionKind.allow;
  resource_ref = none;
  change_ref = none;
  result_code = none;
  request_id = none;
  correlation_id = none;
  classification = none;
}

append_all-list_example :
    list 5 (append_all (audit "1" ∷ audit "" ∷ audit "2" ∷ audit "3" ∷ []) (new_sink 2))
    ≡ ok (audit "3" ∷ audit "2" ∷ [])
unfolding reversed
append_all-list_example = append_all-list (audit "1" ∷ audit "" ∷ audit "2" ∷ audit "3" ∷ []) 2 5

abbrev principal : PrincipalRef
principal = record {
  id = "principal_0123456789ab";
  kind = "human";
  source = "authenticated-adapter";
}

abbrev change_input : PolicyInput
change_input = record {
  principal = some principal;
  project_id = none;
  repository_id = none;
  worktree_id = none;
  agent_session_id = none;
  operation = "change.apply";
  resource_class = "file";
  intent_kind = none;
  host = none;
  security_profile = some "review-required";
  classification = some DataClassification.restricted;
  policy_version = "1";
}

abbrev binding : ApprovalBinding
binding = record {
  operation_id = "op";
  plan_digest = "d1";
  resource_preconditions_digest = "d2";
  policy_version = "1";
  principal = principal;
  expires_at = "noon";
}

-- Each character after a backslash, and a quotation mark at the end.
unfoldable backslash : Char
backslash = char_at "\\" 0

unfoldable mark : Char
mark = char_at "\"" 0

unfoldable quoted : String → String
quoted String.[] = String.◌∷◌ mark ""
quoted (String.◌∷◌ c s) = String.◌∷◌ backslash (String.◌∷◌ c (quoted s))

abbrev first_code : String → ℕ
first_code String.[] = 0
first_code (String.◌∷◌ c s) = code c

abbrev after_first : String → String
after_first String.[] = ""
after_first (String.◌∷◌ c s) = s

abbrev first_of : String → String
first_of String.[] = ""
first_of (String.◌∷◌ c s) = String.◌∷◌ c ""

quoted-end : (a : String) → text_append (quoted "") a ≡ String.◌∷◌ mark a
unfolding quoted
quoted-end a = cons-append mark "" a ∙ ap (String.◌∷◌ mark) (nil-append a)

quoted-cons :
    (c : Char) (s a : String)
    → text_append (quoted (String.◌∷◌ c s)) a
      ≡ String.◌∷◌ backslash (String.◌∷◌ c (text_append (quoted s) a))
unfolding quoted
quoted-cons c s a =
    cons-append backslash (String.◌∷◌ c (quoted s)) a
    ∙ ap (String.◌∷◌ backslash) (cons-append c (quoted s) a)

ends-ne-goes_on : (a b : String) → String.◌∷◌ mark a ≢ String.◌∷◌ backslash b
unfolding backslash mark
ends-ne-goes_on a b e = absurd (omega (arith, ap first_code e))

cons-eq :
    (c d : Char) (s t : String)
    → String.◌∷◌ c "" ≡ String.◌∷◌ d ""
    → s ≡ t
    → String.◌∷◌ c s ≡ String.◌∷◌ d t
cons-eq c d s t first rest =
    sym (cons-append c "" s ∙ ap (String.◌∷◌ c) (nil-append s))
    ∙ ap (λ (x : String). text_append x s) first
    ∙ cons-append d "" s
    ∙ ap (String.◌∷◌ d) (nil-append s ∙ rest)

quoted-cancel :
    (s t a b : String) → text_append (quoted s) a ≡ text_append (quoted t) b → (s ≡ t) × (a ≡ b)
quoted-cancel String.[] String.[] a b e =
    (refl, ap after_first (sym (quoted-end a) ∙ e ∙ quoted-end b))
quoted-cancel String.[] (String.◌∷◌ d t) a b e =
    absurd (ends-ne-goes_on _ _ (sym (quoted-end a) ∙ e ∙ quoted-cons d t b))
quoted-cancel (String.◌∷◌ c s) String.[] a b e =
    absurd (ends-ne-goes_on _ _ (sym (quoted-end b) ∙ sym e ∙ quoted-cons c s a))
quoted-cancel (String.◌∷◌ c s) (String.◌∷◌ d t) a b e =
    let inner = ap after_first (sym (quoted-cons c s a) ∙ e ∙ quoted-cons d t b) in
    let (same, rest) = quoted-cancel s t a b (ap after_first inner) in
    (cons-eq c d s t (ap first_of inner) same, rest)

quoted-Delimited : Delimited quoted
quoted-Delimited = record { cancel = quoted-cancel }

abbrev noon : String → Option ℕ
noon text = some 12

abbrev receipt : ApprovalReceipt
receipt = record { binding = binding; binding_digest = canonical quoted lower noon binding }

verify_approval_receipt-make_example :
    (verify_approval_receipt quoted lower noon receipt binding 11 ≡ true) ↔ (
      (make_approval_receipt quoted lower noon binding ≡ ok receipt)
      × IsToCome quoted lower noon quoted-Delimited binding.expires_at 11)
verify_approval_receipt-make_example =
    verify_approval_receipt-make quoted lower noon quoted-Delimited receipt binding 11 refl
