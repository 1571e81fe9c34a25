-- ===== src/Policy/Approval/Binding.antt =====
-- What `verifyApprovalReceipt` (packages/policy/src/approval.ts) accepts. `JSON.stringify` makes
-- texts whose end can be told, as JSON's texts are delimited.
use Prim.Native.String.{◌++◌ as text_append}
use my_pi.Prelude.{
  ℕ, ◌≡◌, ◌<◌, ◌↔◌, refl, ap, sym, subst, ◌∙◌, String, Option, none, some, Bool, true, false, leb,
  not, eq_iff, if◌then◌else◌, arith,
}
use my_pi.Prelude.Outcome.{ok, require, ◌>>◌, ok-injective, plain_error}
use my_pi.Prelude.Dict.{str_eq_refl}
use mathlib.Core.Option.{some-injective}
use my_pi.Prelude.Sorting.{sort_by, insert_by, text_before, units_before, code_units}
use my_pi.Policy.Approval.{
  ApprovalBinding, ApprovalReceipt, stable_json, canonical, approval_binding_digest, binding_ok,
  is_expired, make_approval_receipt, verify_approval_receipt,
}
use my_pi.Policy.Approval.Delimited.{
  Delimited, Delimited-prefix, Delimited-suffix, Delimited-pair, Delimited-injective,
}

-- The parts of a principal and of a binding, in the order of their keys.
abbrev Principal : Type 0
Principal = String × (String × String)

abbrev Parts : Type 0
Parts = String × (String × (String × (String × (Principal × String))))

abbrev parts : ApprovalBinding → Parts
parts b = (
  b.expires_at,
  (
    b.operation_id,
    (
      b.plan_digest,
      (
        b.policy_version,
        ((b.principal.id, (b.principal.kind, b.principal.source)), b.resource_preconditions_digest),
      ),
    ),
  ),
)

abbrev binding_of : Parts → ApprovalBinding
binding_of p = record {
  expires_at = p.0;
  operation_id = p.1.0;
  plan_digest = p.1.1.0;
  policy_version = p.1.1.1.0;
  principal = record { id = p.1.1.1.1.0.0; kind = p.1.1.1.1.0.1.0; source = p.1.1.1.1.0.1.1 };
  resource_preconditions_digest = p.1.1.1.1.1;
}

module _ (quote : String → String) where
  abbrev entry {ℓ} : {A : Type ℓ} → String → (A → String) → A → String
  entry key f x = text_append (quote key) (text_append ":" (f x))

  abbrev then_entry {ℓ κ} : {A : Type ℓ} {B : Type κ} → (A → String) → (B → String) → A × B → String
  then_entry f g p = text_append (f p.0) (text_append "," (g p.1))

  abbrev braced {ℓ} : {A : Type ℓ} → (A → String) → A → String
  braced f x = text_append "{" (text_append (f x) "}")

  abbrev principal_text : Principal → String
  principal_text =
      braced
        (then_entry (entry "id" quote) (then_entry (entry "kind" quote) (entry "source" quote)))

  abbrev parts_text : Parts → String
  parts_text = braced (
      then_entry (entry "expiresAt" quote) (
        then_entry (entry "operationId" quote) (
          then_entry (entry "planDigest" quote) (
            then_entry (entry "policyVersion" quote) (
              then_entry (entry "principal" principal_text)
                (entry "resourcePreconditionsDigest" quote))))))

  canonical-parts_text :
      (sha256 : String → String) (date_parse : String → Option ℕ) (b : ApprovalBinding)
      → canonical quote sha256 date_parse b ≡ parts_text (parts b)
  unfolding canonical stable_json sort_by insert_by text_before units_before code_units
  canonical-parts_text sha256 date_parse b = refl

  module _ (quoted : Delimited quote) where
    entry-Delimited {ℓ} :
        {A : Type ℓ} (key : String) (f : A → String) → Delimited f → Delimited (entry key f)
    entry-Delimited key f d =
        Delimited-prefix (quote key) (λ x. text_append ":" (f x)) (Delimited-prefix ":" f d)

    text-Delimited : (key : String) → Delimited (entry key quote)
    text-Delimited key = entry-Delimited key quote quoted

    then_entry-Delimited {ℓ κ} :
        {A : Type ℓ} {B : Type κ} (f : A → String) (g : B → String)
        → Delimited f
        → Delimited g
        → Delimited (then_entry f g)
    then_entry-Delimited f g d h =
        Delimited-pair f (λ y. text_append "," (g y)) d (Delimited-prefix "," g h)

    braced-Delimited {ℓ} : {A : Type ℓ} (f : A → String) → Delimited f → Delimited (braced f)
    braced-Delimited f d =
        Delimited-prefix "{" (λ x. text_append (f x) "}") (Delimited-suffix "}" f d)

    principal_text-Delimited : Delimited principal_text
    principal_text-Delimited = braced-Delimited _ (
        then_entry-Delimited _ _ (text-Delimited "id")
          (then_entry-Delimited _ _ (text-Delimited "kind") (text-Delimited "source")))

    parts_text-Delimited : Delimited parts_text
    parts_text-Delimited = braced-Delimited _ (
        then_entry-Delimited _ _ (text-Delimited "expiresAt") (
          then_entry-Delimited _ _ (text-Delimited "operationId") (
            then_entry-Delimited _ _ (text-Delimited "planDigest") (
              then_entry-Delimited _ _ (text-Delimited "policyVersion") (
                then_entry-Delimited _ _
                  (entry-Delimited "principal" principal_text principal_text-Delimited)
                  (text-Delimited "resourcePreconditionsDigest"))))))

    -- The canonical text tells the binding.
    canonical-injective :
        (sha256 : String → String) (date_parse : String → Option ℕ) (b c : ApprovalBinding)
        → canonical quote sha256 date_parse b ≡ canonical quote sha256 date_parse c
        → b ≡ c
    canonical-injective sha256 date_parse b c e = ap binding_of (
        Delimited-injective parts_text parts_text-Delimited (parts b) (parts c) (
          sym (canonical-parts_text sha256 date_parse b)
          ∙ e
          ∙ canonical-parts_text sha256 date_parse c))

to_come :
    (o : Option ℕ) (now : ℕ)
    → ((elim o as (λ _. Bool) [ none ↦ false | some time ↦ leb time now ]) ≡ false)
      ↔ ((time : ℕ) → o ≡ some time → now < time)
to_come none now = (λ h time e. cc e, λ h. refl)
to_come (some t) now = (
  λ h time e. subst (◌<◌ now) (some-injective _ _ e) (ground (arith, h)),
  λ h. let late = h t refl in ground arith,
)

verify-cases :
    (a b c : Bool)
    → (if a then false else if not b then false else c) ≡ true
    → (a ≡ false) × (b ≡ true) × (c ≡ true)
verify-cases a b c h = ground arith

verify-true :
    (a b c : Bool)
    → a ≡ false
    → b ≡ true
    → c ≡ true
    → (if a then false else if not b then false else c) ≡ true
verify-true a b c p q r = ground arith

module _ (quote : String → String) (sha256 : String → String) (date_parse : String → Option ℕ)
    (quoted : Delimited quote) where
  -- The time that a text gives, if it gives one, has not come.
  abbrev pub IsToCome : String → ℕ → Type 0
  IsToCome text now = (time : ℕ) → date_parse text ≡ some time → now < time

  is_expired-IsToCome :
      (text : String) (now : ℕ)
      → (is_expired quote sha256 date_parse text now ≡ false) ↔ IsToCome text now
  is_expired-IsToCome text now = to_come (date_parse text) now

  abbrev receipt_of : ApprovalBinding → ApprovalReceipt
  receipt_of b = record {
    binding = b;
    binding_digest = approval_binding_digest quote sha256 date_parse b;
  }

  make_approval_receipt-receipt_of :
      (b : ApprovalBinding)
      → binding_ok b ≡ true
      → make_approval_receipt quote sha256 date_parse b ≡ ok (receipt_of b)
  unfolding make_approval_receipt
  make_approval_receipt-receipt_of b whole =
      ap (λ (x : Bool). require x plain_error >> ok (receipt_of b)) whole

  verify_approval_receipt-receipt_of :
      (b : ApprovalBinding) (now : ℕ)
      → is_expired quote sha256 date_parse b.expires_at now ≡ false
      → verify_approval_receipt quote sha256 date_parse (receipt_of b) b now ≡ true
  unfolding verify_approval_receipt
  verify_approval_receipt-receipt_of b now early =
      verify-true _ _ _ early (str_eq_refl (canonical quote sha256 date_parse b))
        (str_eq_refl (approval_binding_digest quote sha256 date_parse b))

  -- Where the JSON texts of strings are delimited, and whatever the receipt, made or forged: for a
  -- binding that has all its parts, the receipt verifies exactly when it is the one that
  -- `makeApprovalReceipt` makes for that binding, and the time that the binding expires at, if its
  -- text is a date, is later than now.
  pub verify_approval_receipt-make :
      (receipt : ApprovalReceipt) (current : ApprovalBinding) (now : ℕ)
      → binding_ok current ≡ true
      → (verify_approval_receipt quote sha256 date_parse receipt current now ≡ true) ↔ (
          (make_approval_receipt quote sha256 date_parse current ≡ ok receipt)
          × IsToCome current.expires_at now)
  unfolding verify_approval_receipt
  verify_approval_receipt-make receipt current now whole = (
    λ h.
        let (early, same, digest) = verify-cases _ _ _ h in
        let binding : receipt.binding ≡ current =
          canonical-injective quote quoted sha256 date_parse receipt.binding current
            ((eq_iff _ _).0 same) in
        (
          make_approval_receipt-receipt_of current whole
              ∙ ap (λ (r : ApprovalReceipt). ok r)
                  (λ i. record {
                    binding = sym binding i;
                    binding_digest = (eq_iff _ _).0 digest i;
                  }),
          (is_expired-IsToCome current.expires_at now).0 (
              ap (λ (b : ApprovalBinding). is_expired quote sha256 date_parse b.expires_at now)
                (sym binding)
              ∙ early),
        ),
    λ p.
        subst
          (λ (r : ApprovalReceipt).
            verify_approval_receipt quote sha256 date_parse r current now ≡ true)
          (ok-injective (receipt_of current) receipt
            (sym (make_approval_receipt-receipt_of current whole) ∙ p.0))
          (verify_approval_receipt-receipt_of current now
            ((is_expired-IsToCome current.expires_at now).1 p.1)),
  )
