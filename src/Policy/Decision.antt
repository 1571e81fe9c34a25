-- ===== src/Policy/Decision.antt =====
-- `BuiltinPolicyDecisionPoint.evaluate` (packages/policy/src/decision-point.ts) and
-- `isTrustedPrincipal` (packages/policy/src/principal.ts). The kind and the source of a principal
-- are texts, since the source checks them when it runs; the current time is an argument.
use text.Mathlib.Text.{starts_with}
use my_pi.Prelude.{
  ℕ, ◌+◌, ◌≡◌, refl, inl, inr, String, Option, none, some, List, [], ◌∷◌, Bool, true, false, ◌&&◌,
  ◌||◌, not, leb, str_eq, if◌then◌else◌, is_some, Bool-cases, Option-cases, length, take, drop, all,
  map, ◌==◌,
}
use my_pi.Prelude.Text.{truthy}
use my_pi.Prelude.Sorting.{code_units}
use my_pi.Policy.Audit.{DataClassification, PolicyDecisionKind}

pub record PrincipalRef : Type 0 where
  pub id : String
  pub kind : String
  pub source : String

pub record PolicyInput : Type 0 where
  pub principal : Option PrincipalRef
  pub project_id : Option String
  pub repository_id : Option String
  pub worktree_id : Option String
  pub agent_session_id : Option String
  pub operation : String
  pub resource_class : String
  pub intent_kind : Option String
  pub host : Option String
  pub security_profile : Option String
  pub classification : Option DataClassification
  pub policy_version : String

pub record PolicyDecision : Type 0 where
  pub decision : PolicyDecisionKind
  pub policy_version : String
  pub reasons : List String
  pub constraints : Option (List String)
  pub evaluated_at : String

-- The letter case that the flag `i` ignores.
abbrev fold_case : ℕ → ℕ
fold_case x = if leb 65 x && leb x 90 then x + 32 else x

abbrev is_hex : ℕ → Bool
is_hex x = (leb 48 x && leb x 57) || (leb 97 x && leb x 102)

unfoldable pub same_units : List ℕ → List ℕ → Bool
same_units [] [] = true
same_units [] (y ∷ ys) = false
same_units (x ∷ xs) [] = false
same_units (x ∷ xs) (y ∷ ys) = x == y && same_units xs ys

-- `/^principal_[a-f0-9]{12}$/i.test(id)`
unfoldable pub principal_id_ok : String → Bool
unfolding same_units code_units
principal_id_ok id =
    let units = map fold_case (code_units id) in
    same_units (take 10 units) (code_units "principal_")
    && (length (drop 10 units) == 12 && all is_hex (drop 10 units))

-- `isTrustedPrincipal`
unfoldable pub is_trusted_principal : PrincipalRef → Bool
unfolding principal_id_ok
is_trusted_principal p =
    principal_id_ok p.id
    && ((str_eq p.kind "human"
          || (str_eq p.kind "workload"
              || (str_eq p.kind "service" || str_eq p.kind "agent-session-attribution")))
        && (str_eq p.source "authenticated-adapter" || str_eq p.source "enterprise-control-plane"))

abbrev pub is_complete : PolicyInput → Bool
is_complete input =
    truthy input.operation && (truthy input.resource_class && truthy input.policy_version)

-- A principal is given that is not trusted.
abbrev pub is_untrusted : PolicyInput → Bool
unfolding is_trusted_principal
is_untrusted input = elim input.principal [ none ↦ false | some p ↦ not (is_trusted_principal p) ]

abbrev pub is_restricted : Option DataClassification → Bool
is_restricted (some DataClassification.restricted) = true
is_restricted _ = false

abbrev pub needs_review : PolicyInput → Bool
needs_review input = starts_with input.operation "change." && elim input.security_profile [
  | none ↦ false
  | some profile ↦ str_eq profile "review-required"
]

abbrev decided : PolicyDecisionKind → String → String → String → PolicyDecision
decided kind version reason now = record {
  decision = kind;
  policy_version = version;
  reasons = reason ∷ [];
  constraints = none;
  evaluated_at = now;
}

-- `evaluate`
unfoldable pub evaluate : PolicyInput → String → PolicyDecision
evaluate input now =
    if not (is_complete input)
    then decided PolicyDecisionKind.deny
        (if truthy input.policy_version then input.policy_version else "unknown")
        "required policy input is missing" now
    else if is_untrusted input
    then decided PolicyDecisionKind.deny input.policy_version
        "principal is not authenticated by a trusted adapter" now
    else if is_restricted input.classification && not (is_some input.principal)
    then decided PolicyDecisionKind.deny input.policy_version
        "restricted data requires an authenticated principal" now
    else if needs_review input
    then decided PolicyDecisionKind.review_required input.policy_version
        "change operation requires explicit review" now
    else decided PolicyDecisionKind.allow input.policy_version
        "builtin policy allows the bounded local operation" now

-- What the decision rests on: the input is complete, a principal that is given is trusted, one is
-- given for restricted data, and no review is called for.
abbrev pub is_clear : PolicyInput → Bool
is_clear input = is_complete input && (elim input.principal [
  | none ↦ not (is_restricted input.classification)
  | some p ↦ is_trusted_principal p
])

abbrev pub outcome_of : PolicyInput → PolicyDecisionKind
outcome_of input =
    if is_clear input
    then (if needs_review input
        then PolicyDecisionKind.review_required
        else PolicyDecisionKind.allow)
    else PolicyDecisionKind.deny

and_false : (b : Bool) → (b && false) ≡ false
and_false true = refl
and_false false = refl

-- An input is denied unless it is complete and its principal is a trusted one, or is left out where
-- the data are not restricted; what is not denied is reviewed if it is a change under the profile
-- for that, and allowed otherwise.
pub evaluate-outcome_of :
    (input : PolicyInput) (now : String) → (evaluate input now).decision ≡ outcome_of input
unfolding evaluate is_untrusted
evaluate-outcome_of input now = elim (Bool-cases (is_complete input)) [
  | inr missing ↦ rw missing refl
  | inl whole ↦ elim (Option-cases input.principal) [
    | inl nobody ↦ elim (Bool-cases (is_restricted input.classification)) [
      | inl secret ↦ rw (whole, nobody, secret) refl
      | inr open_data ↦ elim (Bool-cases (needs_review input)) [
        | inl review ↦ rw (whole, nobody, open_data, review) refl
        | inr free ↦ rw (whole, nobody, open_data, free) refl
      ]
    ]
    | inr (p, given) ↦ elim (Bool-cases (is_trusted_principal p)) [
      | inr unknown ↦ rw (whole, given, unknown) refl
      | inl trusted ↦ elim (Bool-cases (needs_review input)) [
        | inl review ↦
            rw (whole, given, trusted, and_false (is_restricted input.classification), review) refl
        | inr free ↦
            rw (whole, given, trusted, and_false (is_restricted input.classification), free) refl
      ]
    ]
  ]
]
