-- ===== src/Policy/Engine/Permits.antt =====
-- What `PolicyEngine.authorize` (packages/policy/src/policy-engine.ts) allows, said without its
-- tests.
use Prim.Native.String.{◌++◌ as text_append}
use text.Mathlib.TextEquality.{starts_with_iff}
use text.Mathlib.TextLemmas.{append_assoc}
use text.Mathlib.Text.{starts_with}
use mathlib.Core.List.{Memᴰ}
use my_pi.Prelude.{
  ◌≡◌, ◌↔◌, ◌⊎◌, refl, ap, sym, ◌∙◌, inl, inr, String, List, [], ◌∷◌, Bool, true, false, ◌&&◌, ◌||◌,
  not, str_eq, eq_iff, if◌then◌else◌, any, is_some, Bool-cases,
}
use my_pi.Prelude.Text.{without_last_slashes}
use my_pi.Policy.Paths.{is_sensitive, matches_sensitive_pattern}
use my_pi.Policy.Paths.Exact.{is_sensitive-is_some, any_member}
use my_pi.Policy.Paths.Below.{IsTrimmed, without_last_slashes-IsTrimmed, IsTrimmed-eq}
use my_pi.Policy.Engine.{
  CapabilityClass, WorkspacePolicyMode, WorkspacePolicy, DenialReason, PolicyVerdict, is_allowed,
  is_allowed_by, authorize,
}

-- A path is the base, or is below it after a slash.
pub data IsAtOrBelow (path base : String) : Type 0 where
  at : path ≡ base → IsAtOrBelow path base
  below : (rest : String) → path ≡ text_append base (text_append "/" rest) → IsAtOrBelow path base

-- A listed path lets a path pass: less all its last slashes, it is the path or above it.
pub record LetsPass (path listed : String) : Type 0 where
  pub base : String
  pub trimmed : IsTrimmed listed base
  pub place : IsAtOrBelow path base

or_true : (a b : Bool) → (a || b) ≡ true → (a ≡ true) ⊎ (b ≡ true)
or_true true b h = inl refl
or_true false b h = inr h

or_left : (a b : Bool) → a ≡ true → (a || b) ≡ true
or_left true b h = refl
or_left false b h = cc

or_right : (a b : Bool) → b ≡ true → (a || b) ≡ true
or_right true b h = refl
or_right false b h = h

is_allowed_by-LetsPass :
    (path listed : String) → (is_allowed_by path listed ≡ true) ↔ LetsPass path listed
unfolding is_allowed_by
is_allowed_by-LetsPass path listed = (
  λ h. record {
    base = base;
    trimmed = without_last_slashes-IsTrimmed listed;
    place = elim (or_true (str_eq path base) (starts_with path (text_append base "/")) h) [
      | inl same ↦ at ((eq_iff path base).0 same)
      | inr under ↦
          let (rest, e) = (starts_with_iff path (text_append base "/")).0 under in
          below rest (sym e ∙ append_assoc base "/" rest)
    ];
  },
  λ p. go p.base (IsTrimmed-eq listed p.base p.trimmed) p.place,
)
  where
    base : String
    base = without_last_slashes listed

    go :
        (b : String)
        → b ≡ without_last_slashes listed
        → IsAtOrBelow path b
        → (str_eq path (without_last_slashes listed)
            || starts_with path (text_append (without_last_slashes listed) "/"))
          ≡ true
    go b e (at same) = or_left _ _ ((eq_iff path (without_last_slashes listed)).1 (same ∙ e))
    go b e (below rest same) = or_right _ _ (
        (starts_with_iff path (text_append (without_last_slashes listed) "/")).1 (
          rest,
          append_assoc (without_last_slashes listed) "/" rest
              ∙ ap (λ (x : String). text_append x (text_append "/" rest)) (sym e)
              ∙ sym same,
        ))

any-Memᴰ {ℓ} :
    {A : Type ℓ} (p : A → Bool) (xs : List A) → any p xs ≡ true → (x : A) × Memᴰ x xs × (p x ≡ true)
any-Memᴰ p [] h = cc h
any-Memᴰ p (x ∷ xs) h = elim (or_true (p x) (any p xs) h) [
  | inl here ↦ (x, Memᴰ.head refl, here)
  | inr later ↦ let (y, member, e) = any-Memᴰ p xs later in (y, Memᴰ.tail member, e)
]

-- What a mode lets agents do at all: reads in each, and writes in the mode for them.
pub data IsOpen : CapabilityClass → WorkspacePolicyMode → Type 0 where
  reading : (mode : WorkspacePolicyMode) → IsOpen CapabilityClass.read mode
  writing : IsOpen CapabilityClass.write WorkspacePolicyMode.workspace_write

abbrev is_open : CapabilityClass → WorkspacePolicyMode → Bool
is_open CapabilityClass.read mode = true
is_open CapabilityClass.write WorkspacePolicyMode.workspace_write = true
is_open _ mode = false

not_open :
    (cls : CapabilityClass) (mode : WorkspacePolicyMode)
    → is_open cls mode ≡ false
    → IsOpen cls mode
    → ⊥
not_open cls mode h (reading m) = cc h
not_open cls mode h writing = cc h

when_open {ℓ κ μ} : (A : Type ℓ) (B : Type κ) (C : Type μ) → B → (A ↔ C) → (A ↔ (B × C))
when_open A B C b e = (λ a. (b, e.0 a), λ p. e.1 p.1)

-- The last two returns of `authorize`, for whether a path is sensitive and whether it is listed.
abbrev path_verdict : Bool → Bool → PolicyVerdict
path_verdict a b =
    if a && not b
    then PolicyVerdict.denied DenialReason.secret_path_denied
    else PolicyVerdict.allowed

path_verdict-allowed :
    (a b : Bool) → is_allowed (path_verdict a b) ≡ true → (a ≡ false) ⊎ (b ≡ true)
path_verdict-allowed true true h = inr refl
path_verdict-allowed true false h = cc
path_verdict-allowed false b h = inl refl

path_verdict-listed : (a b : Bool) → b ≡ true → is_allowed (path_verdict a b) ≡ true
path_verdict-listed true true h = refl
path_verdict-listed true false h = cc
path_verdict-listed false b h = refl

path_verdict-plain : (a b : Bool) → a ≡ false → is_allowed (path_verdict a b) ≡ true
path_verdict-plain true b h = cc
path_verdict-plain false b h = refl

module _ (lower : String → String) (rules : List String) where
  -- No rule matches the path, or a listed path lets it pass.
  abbrev pub PathPasses : String → List String → Type 0
  PathPasses path listed =
      ((rule : String) → Memᴰ rule rules → matches_sensitive_pattern lower path rule ≡ false)
      ⊎ ((entry : String) × Memᴰ entry listed × LetsPass path entry)

  path_verdict-PathPasses :
      (path : String) (listed : List String)
      → (is_allowed (
            path_verdict
              (is_some (is_sensitive lower rules path))
              (any (is_allowed_by path) listed))
          ≡ true)
        ↔ PathPasses path listed
  path_verdict-PathPasses path listed = (
    λ h. elim (path_verdict-allowed a b h) [
      | inl plain ↦ inl (λ rule member. unmatched plain rule member)
      | inr found ↦
          let (entry, member, passes) = any-Memᴰ (is_allowed_by path) listed found in
          inr (entry, member, (is_allowed_by-LetsPass path entry).0 passes)
    ],
    λ p. elim p [
      | inl free ↦ path_verdict-plain a b (plain_of free)
      | inr (entry, member, passes) ↦ path_verdict-listed a b (
          any_member (is_allowed_by path) entry listed member
            ((is_allowed_by-LetsPass path entry).1 passes))
    ],
  )
    where
      a : Bool
      a = is_some (is_sensitive lower rules path)

      b : Bool
      b = any (is_allowed_by path) listed

      unmatched :
          is_some (is_sensitive lower rules path) ≡ false
          → (rule : String) → Memᴰ rule rules
          → matches_sensitive_pattern lower path rule ≡ false
      unmatched plain rule member = elim (Bool-cases (matches_sensitive_pattern lower path rule)) [
        | inl hit ↦
            let some_hit =
              is_sensitive-is_some lower rules path
              ∙ any_member (matches_sensitive_pattern lower path) rule rules member hit in
            cc (plain, some_hit)
        | inr miss ↦ miss
      ]

      plain_of :
          ((rule : String) → Memᴰ rule rules → matches_sensitive_pattern lower path rule ≡ false)
          → is_some (is_sensitive lower rules path) ≡ false
      plain_of free = elim (Bool-cases (is_some (is_sensitive lower rules path))) [
        | inl hit ↦
            let (rule, member, e) =
              any-Memᴰ (matches_sensitive_pattern lower path) rules
                (sym (is_sensitive-is_some lower rules path) ∙ hit) in
            cc (e, free rule member)
        | inr miss ↦ miss
      ]

  authorize_in :
      (mode : WorkspacePolicyMode) (cls : CapabilityClass) (path : String) (listed : List String)
      → (is_allowed (
            authorize lower rules
              (record { mode = mode; allowed_sensitive_paths = listed })
              cls
              path)
          ≡ true)
        ↔ (IsOpen cls mode × PathPasses path listed)
  unfolding authorize
  authorize_in mode CapabilityClass.read path listed =
      when_open _ _ _ (IsOpen.reading mode) (path_verdict-PathPasses path listed)
  authorize_in WorkspacePolicyMode.workspace_write CapabilityClass.write path listed =
      when_open _ _ _ IsOpen.writing (path_verdict-PathPasses path listed)
  authorize_in WorkspacePolicyMode.read_only CapabilityClass.write path listed =
      (λ h. cc h, λ o. absurd (not_open _ _ refl o.0))
  authorize_in WorkspacePolicyMode.review_required CapabilityClass.write path listed =
      (λ h. cc h, λ o. absurd (not_open _ _ refl o.0))
  authorize_in mode CapabilityClass.network path listed =
      (λ h. cc h, λ o. absurd (not_open _ _ refl o.0))
  authorize_in mode CapabilityClass.exec path listed =
      (λ h. cc h, λ o. absurd (not_open _ _ refl o.0))
  authorize_in mode CapabilityClass.debug path listed =
      (λ h. cc h, λ o. absurd (not_open _ _ refl o.0))
  authorize_in mode CapabilityClass.secret path listed =
      (λ h. cc h, λ o. absurd (not_open _ _ refl o.0))

  -- The engine allows an operation on a path exactly when it is a read, or a write in the mode for
  -- writes, and either no rule matches the path or the workspace lists a path that, less all its
  -- last slashes, is the path or is a directory above it: a path that only begins with the same
  -- letters does not count.
  pub authorize-PathPasses :
      (policy : WorkspacePolicy) (cls : CapabilityClass) (path : String)
      → (is_allowed (authorize lower rules policy cls path) ≡ true)
        ↔ (IsOpen cls policy.mode × PathPasses path policy.allowed_sensitive_paths)
  authorize-PathPasses policy cls path =
      authorize_in policy.mode cls path policy.allowed_sensitive_paths
