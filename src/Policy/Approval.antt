-- ===== src/Policy/Approval.antt =====
-- Approval receipts (packages/policy/src/approval.ts). `JSON.stringify` of a text, SHA-256 and
-- `Date.parse`, which may give no number, are arguments.
pub mod Delimited
pub mod Binding
use Prim.Native.String.{◌++◌ as text_append}
use my_pi.Prelude.{
  ℕ, ◌≡◌, refl, subst, inl, inr, String, Option, none, some, List, [], ◌∷◌, Bool, true, false, ◌&&◌,
  not, leb, str_eq, eq_iff, if◌then◌else◌, Bool-cases,
}
use my_pi.Prelude.Dict.{str_eq_refl}
use my_pi.Prelude.Text.{truthy}
use my_pi.Prelude.Outcome.{Outcome, ok, require, ◌>>◌, after_require, ok-injective, plain_error}
use my_pi.Prelude.Sorting.{sort_by}
use my_pi.Policy.Decision.{PrincipalRef}

pub record ApprovalBinding : Type 0 where
  pub operation_id : String
  pub plan_digest : String
  pub resource_preconditions_digest : String
  pub policy_version : String
  pub principal : PrincipalRef
  pub expires_at : String

pub record ApprovalReceipt : Type 0 where
  pub binding : ApprovalBinding
  pub binding_digest : String

-- The values that are made canonical; a number is its JSON text.
mutual
  pub data Json : Type 0 where
    null : Json
    boolean : Bool → Json
    number string : String → Json
    array : Jsons → Json
    object : Fields → Json

  pub data Jsons : Type 0 where
    end : Jsons
    item : Json → Jsons → Jsons

  pub data Fields : Type 0 where
    no_more : Fields
    field : String → Json → Fields → Fields

-- `texts.join(",")`
unfoldable pub joined : List String → String
joined [] = ""
joined (s ∷ []) = s
joined (s ∷ t ∷ rest) = text_append s (text_append "," (joined (t ∷ rest)))

abbrev pub entry_key : String × String → String
entry_key (key, text) = key

abbrev around : String → String → String → String
around first text last = text_append first (text_append text last)

unfoldable entry_texts : (String → String) → List (String × String) → List String
entry_texts quote [] = []
entry_texts quote ((key, text) ∷ entries) =
    text_append (quote key) (text_append ":" text) ∷ entry_texts quote entries

-- `stableJson`: the fields of an object in the order of their keys.
unfoldable mutual
  unfolding joined entry_texts

  pub stable_json : (String → String) → Json → String
  stable_json quote null = "null"
  stable_json quote (boolean b) = if b then "true" else "false"
  stable_json quote (number n) = n
  stable_json quote (string s) = quote s
  stable_json quote (array items) = around "[" (joined (item_texts quote items)) "]"
  stable_json quote (object fields) =
      around "{" (joined (entry_texts quote (sort_by entry_key (field_texts quote fields)))) "}"

  item_texts : (String → String) → Jsons → List String
  item_texts quote end = []
  item_texts quote (item value items) = stable_json quote value ∷ item_texts quote items

  field_texts : (String → String) → Fields → List (String × String)
  field_texts quote no_more = []
  field_texts quote (field key value fields) =
      (key, stable_json quote value) ∷ field_texts quote fields

abbrev principal_json : PrincipalRef → Json
principal_json p = Json.object (
    Fields.field "id" (Json.string p.id) (
      Fields.field "kind" (Json.string p.kind)
        (Fields.field "source" (Json.string p.source) Fields.no_more)))

abbrev binding_json : ApprovalBinding → Json
binding_json b = Json.object (
    Fields.field "operationId" (Json.string b.operation_id) (
      Fields.field "planDigest" (Json.string b.plan_digest) (
        Fields.field "resourcePreconditionsDigest" (Json.string b.resource_preconditions_digest) (
          Fields.field "policyVersion" (Json.string b.policy_version) (
            Fields.field "principal" (principal_json b.principal)
              (Fields.field "expiresAt" (Json.string b.expires_at) Fields.no_more))))))

abbrev binding_ok : ApprovalBinding → Bool
binding_ok b =
    truthy b.operation_id
    && (truthy b.plan_digest
        && (truthy b.resource_preconditions_digest
            && (truthy b.policy_version && truthy b.expires_at)))

module _ (quote : String → String) (sha256 : String → String) (date_parse : String → Option ℕ) where
  unfoldable pub canonical : ApprovalBinding → String
  unfolding stable_json
  canonical b = stable_json quote (binding_json b)

  -- `approvalBindingDigest`
  unfoldable pub approval_binding_digest : ApprovalBinding → String
  unfolding canonical
  approval_binding_digest b = sha256 (canonical b)

  -- `makeApprovalReceipt`
  unfoldable pub make_approval_receipt : ApprovalBinding → Outcome ApprovalReceipt
  unfolding approval_binding_digest
  make_approval_receipt b = do
    require (binding_ok b) plain_error
    ok (record { binding = b; binding_digest = approval_binding_digest b })

  -- `Date.parse(expiresAt) <= now`, false where the text is no date.
  abbrev pub is_expired : String → ℕ → Bool
  is_expired text now = elim (date_parse text) [ none ↦ false | some time ↦ leb time now ]

  -- `verifyApprovalReceipt`
  unfoldable pub verify_approval_receipt : ApprovalReceipt → ApprovalBinding → ℕ → Bool
  unfolding canonical approval_binding_digest
  verify_approval_receipt receipt current now =
      if is_expired receipt.binding.expires_at now
      then false
      else if not (str_eq (canonical receipt.binding) (canonical current))
      then false
      else str_eq (approval_binding_digest current) receipt.binding_digest
