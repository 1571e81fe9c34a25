-- ===== src/Policy/Paths/Exact.antt =====
-- A pattern matches itself, whatever wildcards stand in it, in any place of a path.
use mathlib.Core.List.{Memᴰ}
use my_pi.Prelude.{
  ℕ, ◌≡◌, refl, ◌∙◌, inl, inr, String, List, [], ◌∷◌, Bool, true, false, ◌||◌, arith, ◌==◌, ==_iff,
  any, is_some, Bool-cases,
}
use my_pi.Prelude.Sorting.{code_units}
use my_pi.Policy.Paths.{
  asterisk, question, not_slash, repeated, matches, segment_to_regex, split, has_slash,
  has_double_star, matches_units, matches_sensitive_pattern, is_sensitive,
}

repeated_none :
    (p : ℕ → Bool) (rest : List ℕ → Bool) (xs : List ℕ) → rest xs ≡ true → repeated p rest xs ≡ true
unfolding repeated
repeated_none p rest [] h = h
repeated_none p rest (x ∷ xs) h = rw h refl

free_of : (x : ℕ) (xs : List ℕ) → has_slash (x ∷ xs) ≡ false → not_slash x ≡ true
free_of x xs h = ground (arith, h)

or_true : (b : Bool) → (b || true) ≡ true
or_true true = refl
or_true false = refl

-- The text of a segment matches the segment as a pattern.
segment_to_regex-matches :
    (segment : List ℕ)
    → has_slash segment ≡ false
    → matches (segment_to_regex segment) segment ≡ true
unfolding matches repeated
segment_to_regex-matches [] h = refl
segment_to_regex-matches (x ∷ xs) h =
    let rest = segment_to_regex-matches xs (ground (arith, h)) in
    let free = free_of x xs h in
    elim (Bool-cases (x == asterisk)) [
      | inl star ↦ rw star (
          rw (free, repeated_none not_slash (matches (segment_to_regex xs)) xs rest)
            (or_true (matches (segment_to_regex xs) (x ∷ xs))))
      | inr other ↦ elim (Bool-cases (x == question)) [
        | inl mark ↦ rw (other, mark) (rw (free, rest) refl)
        | inr plain ↦ rw (other, plain) (rw ((==_iff x x).1 refl, rest) refl)
      ]
    ]

pub any_member {ℓ} :
    {A : Type ℓ} (p : A → Bool) (x : A) (xs : List A) → Memᴰ x xs → p x ≡ true → any p xs ≡ true
any_member p x [] member h = elim member [ ]
any_member p x (y ∷ ys) (Memᴰ.head same) h = rw (← same, h) refl
any_member p x (y ∷ ys) (Memᴰ.tail member) h = rw (any_member p x ys member h) (or_true (p y))

module _ (lower : String → String) where
  pub is_sensitive-is_some :
      (rules : List String) (path : String)
      → is_some (is_sensitive lower rules path) ≡ any (matches_sensitive_pattern lower path) rules
  unfolding is_sensitive
  is_sensitive-is_some [] path = refl
  is_sensitive-is_some (rule ∷ rules) path =
      elim (Bool-cases (matches_sensitive_pattern lower path rule)) [
        | inl hit ↦ rw hit refl
        | inr miss ↦ rw miss (is_sensitive-is_some rules path)
      ]

  -- A path one of whose segments is a rule of the policy, both in lower case, is sensitive, where
  -- the rule has no slash and no two stars in a row.
  pub is_sensitive-segment :
      (rules : List String) (path rule : String)
      → Memᴰ rule rules
      → has_slash (code_units (lower rule)) ≡ false
      → has_double_star (code_units (lower rule)) ≡ false
      → Memᴰ (code_units (lower rule)) (split (code_units (lower path)))
      → is_some (is_sensitive lower rules path) ≡ true
  unfolding matches_sensitive_pattern matches_units
  is_sensitive-segment rules path rule member flat single segment =
      let units = code_units (lower rule) in
      let hit =
        any_member (matches (segment_to_regex units)) units (split (code_units (lower path)))
          segment (segment_to_regex-matches units flat) in
      is_sensitive-is_some rules path
      ∙ any_member (matches_sensitive_pattern lower path) rule rules member (rw (flat, single) hit)
