-- ===== src/Hashline/Edits.antt =====
-- Applying hunks as a relation between texts.
use mathlib.Core.List.{append_assoc}
use my_pi.Prelude.{
  ℕ, suc, ◌+◌, ◌≡◌, ◌↔◌, refl, ap, sym, subst, ◌∙◌, inl, inr, none, some, List, [], ◌∷◌, ◌++◌, true,
  false, not, arith, ◌==◌, ==_iff, both, length, length-append, take, drop, Bool-cases,
  Option-cases,
}
use my_pi.Prelude.Outcome.{ok, >>=-eq-ok, after_require, ok-injective, parse_failed}
use my_pi.Hashline.{Text, Hunk, is_prefix, index_of, is_nil, apply_hunk, apply_hunks}

-- Each hunk's old text, which is not empty, is replaced where it first stands, if it does not stand
-- in what follows.
pub data Edits : Text → List Hunk → Text → Type 0 where
  unchanged : {text : Text} → Edits text [] text
  replace :
      {hunks : List Hunk} {out : Text} (hunk : Hunk) (before after : Text)
      → is_nil hunk.old ≡ false
      → index_of hunk.old (before ++ hunk.old ++ after) ≡ some (length before)
      → index_of hunk.old after ≡ none
      → Edits (before ++ hunk.new ++ after) hunks out
      → Edits (before ++ hunk.old ++ after) (hunk ∷ hunks) out

some_injective : (a b : ℕ) → some a ≡ some b → a ≡ b
some_injective a b h = cc

is_prefix-split :
    (part text : Text) → is_prefix part text ≡ true → part ++ drop (length part) text ≡ text
unfolding is_prefix
is_prefix-split [] text h = refl
is_prefix-split (x ∷ xs) [] h = cc
is_prefix-split (x ∷ xs) (y ∷ ys) h =
    let (same, rest) = both (x == y) (is_prefix xs ys) h in
    ap (λ z. z ∷ (xs ++ drop (length xs) ys)) ((==_iff x y).0 same)
    ∙ ap (λ zs. y ∷ zs) (is_prefix-split xs ys rest)

-- A match at an index takes a text apart into what stands before it, the part, and the rest.
index_of-split :
    (part text : Text) (n : ℕ)
    → index_of part text ≡ some n
    → (before : Text) × (after : Text) × (before ++ part ++ after ≡ text) × (length before ≡ n)
unfolding index_of
index_of-split part [] n h = elim (Bool-cases (is_prefix part [])) [
  | inl here ↦
      ([], drop (length part) [], is_prefix-split part [] here, some_injective 0 n (rw here at h))
  | inr nowhere ↦ let missing = rw nowhere at h in cc
]
index_of-split part (x ∷ xs) n h = elim (Bool-cases (is_prefix part (x ∷ xs))) [
  | inl here ↦ (
    [],
    drop (length part) (x ∷ xs),
    is_prefix-split part (x ∷ xs) here,
    some_injective 0 n (rw here at h),
  )
  | inr later ↦ elim (Option-cases (index_of part xs)) [
    | inl nowhere ↦ let missing = rw (later, nowhere) at h in cc
    | inr (k, there) ↦
        let (before, after, split, count) = index_of-split part xs k there in
        (
          x ∷ before,
          after,
          ap (λ zs. x ∷ zs) split,
          ap (λ m. suc m) count ∙ some_injective (suc k) n (rw (later, there) at h),
        )
  ]
]

take-length : (xs ys : Text) → take (length xs) (xs ++ ys) ≡ xs
take-length [] ys = refl
take-length (x ∷ xs) ys = ap (λ zs. x ∷ zs) (take-length xs ys)

drop-length : (xs ys : Text) → drop (length xs) (xs ++ ys) ≡ ys
drop-length [] ys = refl
drop-length (x ∷ xs) ys = drop-length xs ys

take_before : (before old after : Text) → take (length before) (before ++ old ++ after) ≡ before
take_before before old after =
    ap (take (length before)) (append_assoc before old after) ∙ take-length before (old ++ after)

drop_behind :
    (before old after : Text) → drop (length before + length old) (before ++ old ++ after) ≡ after
drop_behind before old after =
    ap (λ n. drop n (before ++ old ++ after)) (sym (length-append before old))
    ∙ drop-length (before ++ old) after

-- What a hunk that is applied has done.
record IsReplaced (text : Text) (hunk : Hunk) (out : Text) : Type 0 where
  before : Text
  after : Text
  anchor : is_nil hunk.old ≡ false
  whole : before ++ hunk.old ++ after ≡ text
  first : index_of hunk.old text ≡ some (length before)
  alone : index_of hunk.old after ≡ none
  result : before ++ hunk.new ++ after ≡ out

apply_hunk-eq-ok :
    (text : Text) (hunk : Hunk) (out : Text)
    → apply_hunk text hunk ≡ ok out
    → IsReplaced text hunk out
unfolding apply_hunk
apply_hunk-eq-ok text hunk out h =
    let (anchor, h₁) = after_require (not (is_nil hunk.old)) parse_failed _ h in
    elim (Option-cases (index_of hunk.old text)) [
      | inl nowhere ↦ let missing = rw nowhere at h₁ in cc
      | inr (n, there) ↦
          let (before, after, whole, count) = index_of-split hunk.old text n there in
          let behind =
            ap (λ t. drop (n + length hunk.old) t) (sym whole)
            ∙ ap (λ k. drop (k + length hunk.old) (before ++ hunk.old ++ after)) (sym count)
            ∙ drop_behind before hunk.old after in
          let ahead =
            ap (take n) (sym whole)
            ∙ ap (λ k. take k (before ++ hunk.old ++ after)) (sym count)
            ∙ take_before before hunk.old after in
          elim (Option-cases (index_of hunk.old after)) [
            | inr (m, again) ↦ let twice = rw (there, behind, again) at h₁ in cc
            | inl alone ↦ record {
              before = before;
              after = after;
              anchor = ground (arith, anchor);
              whole = whole;
              first = there ∙ ap (λ k. some k) (sym count);
              alone = alone;
              result =
                  ok-injective (before ++ hunk.new ++ after) out
                    (rw (there, behind, alone, behind, ahead) at h₁);
            }
          ]
    ]

apply_hunk-replace :
    (hunk : Hunk) (before after : Text)
    → is_nil hunk.old ≡ false
    → index_of hunk.old (before ++ hunk.old ++ after) ≡ some (length before)
    → index_of hunk.old after ≡ none
    → apply_hunk (before ++ hunk.old ++ after) hunk ≡ ok (before ++ hunk.new ++ after)
unfolding apply_hunk
apply_hunk-replace hunk before after anchor first alone =
    rw
      (
        anchor,
        first,
        drop_behind before hunk.old after,
        alone,
        drop_behind before hunk.old after,
        take_before before hunk.old after,
      )
      refl

apply_hunks-Edits :
    (text : Text) (hunks : List Hunk) (out : Text)
    → apply_hunks text hunks ≡ ok out
    → Edits text hunks out
unfolding apply_hunks
apply_hunks-Edits text [] out h = subst (Edits text []) (ok-injective text out h) Edits.unchanged
apply_hunks-Edits text (hunk ∷ hunks) out h =
    let (next, applied, h₁) = >>=-eq-ok (apply_hunk text hunk) _ h in
    let r = apply_hunk-eq-ok text hunk next applied in
    let later =
      subst (λ t. Edits t hunks out) (sym r.result) (apply_hunks-Edits next hunks out h₁) in
    subst (λ t. Edits t (hunk ∷ hunks) out) r.whole
      (Edits.replace hunk r.before r.after r.anchor (ap (index_of hunk.old) r.whole ∙ r.first)
        r.alone later)

Edits-apply_hunks :
    (text : Text) (hunks : List Hunk) (out : Text)
    → Edits text hunks out
    → apply_hunks text hunks ≡ ok out
unfolding apply_hunks
Edits-apply_hunks text hunks out Edits.unchanged = refl
Edits-apply_hunks text hunks out
      (Edits.replace {hunks = rest} hunk before after anchor first alone later) =
    rw (apply_hunk-replace hunk before after anchor first alone)
      (Edits-apply_hunks (before ++ hunk.new ++ after) rest out later)

-- Applying hunks returns a text exactly when each one's old text, which is not empty, stands in the
-- text so far and not again behind its first place, and it is replaced there: the text returned is
-- the one that these replacements make.
pub apply_hunks-iff_Edits :
    (text : Text) (hunks : List Hunk) (out : Text)
    → (apply_hunks text hunks ≡ ok out) ↔ Edits text hunks out
apply_hunks-iff_Edits text hunks out =
    (apply_hunks-Edits text hunks out, Edits-apply_hunks text hunks out)
