-- ===== src/Hashline.antt =====
-- Patches of a text by unique anchors (packages/hashline/src/patch.ts). Texts are lists of UTF-16
-- code units, and the length of one in UTF-8 is an argument. What `parsePatch` checks of the types of
-- its input holds by the types here.
pub mod Edits
mod Samples
use my_pi.Prelude.{
  ℕ, zero, suc, ◌+◌, ◌*◌, Option, none, some, List, [], ◌∷◌, ◌++◌, Bool, true, false, ◌&&◌, ◌||◌,
  not, leb, ltb, ◌==◌, if◌then◌else◌, length, take, drop, any,
}
use my_pi.Prelude.Outcome.{
  Outcome, ok, err, require, ◌>>◌, ◌>>=◌, parse_failed, ambiguous_anchor, output_limit,
}

abbrev pub Text : Type 0
Text = List ℕ

pub record Hunk : Type 0 where
  pub old : Text
  pub new : Text

-- `MAX_PATCH_HUNKS` and `MAX_PATCH_TEXT_BYTES`
abbrev pub max_patch_hunks : ℕ
max_patch_hunks = 1000

abbrev pub max_patch_text_bytes : ℕ
max_patch_text_bytes = 1024 * 1024

abbrev pub is_too_long : (Text → ℕ) → Hunk → Bool
is_too_long byte_length hunk =
    ltb max_patch_text_bytes (byte_length hunk.old)
    || ltb max_patch_text_bytes (byte_length hunk.new)

-- `parsePatch`
unfoldable pub parse_patch : (Text → ℕ) → List Hunk → Outcome (List Hunk)
parse_patch byte_length hunks = do
  require (leb (length hunks) max_patch_hunks) output_limit
  require (not (any (is_too_long byte_length) hunks)) output_limit
  ok hunks

unfoldable pub is_prefix : Text → Text → Bool
is_prefix [] text = true
is_prefix (x ∷ xs) [] = false
is_prefix (x ∷ xs) (y ∷ ys) = x == y && is_prefix xs ys

abbrev pub one_later : Option ℕ → Option ℕ
one_later none = none
one_later (some n) = some (suc n)

-- `text.indexOf(part)`, where -1 is none.
unfoldable pub index_of : Text → Text → Option ℕ
unfolding is_prefix
index_of part [] = if is_prefix part [] then some 0 else none
index_of part (x ∷ xs) =
    let later = index_of part xs in if is_prefix part (x ∷ xs) then some 0 else one_later later

abbrev pub is_nil : Text → Bool
is_nil [] = true
is_nil (x ∷ xs) = false

-- The body of the loop in `applyHunks`: the search goes on behind the first match, and stops at a
-- second one.
unfoldable pub apply_hunk : Text → Hunk → Outcome Text
unfolding index_of
apply_hunk out hunk = do
  require (not (is_nil hunk.old)) parse_failed
  elim (index_of hunk.old out) [
    | none ↦ err parse_failed
    | some idx ↦ elim (index_of hunk.old (drop (idx + length hunk.old) out)) [
      | some again ↦ err ambiguous_anchor
      | none ↦ ok (take idx out ++ hunk.new ++ drop (idx + length hunk.old) out)
    ]
  ]

-- `applyHunks`
unfoldable pub apply_hunks : Text → List Hunk → Outcome Text
unfolding apply_hunk
apply_hunks text [] = ok text
apply_hunks text (hunk ∷ hunks) = do out ← apply_hunk text hunk; apply_hunks out hunks
