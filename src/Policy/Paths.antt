-- ===== src/Policy/Paths.antt =====
-- The sensitive paths (packages/policy/src/sensitive-paths.ts). The regular expressions that the
-- source builds are lists of pieces here, matched on UTF-16 code units as a whole.
pub mod Exact
pub mod Below
use my_pi.Prelude.{
  ℕ, ◌≡◌, String, Option, none, some, List, [], ◌∷◌, ◌++◌, Bool, true, false, ◌&&◌, ◌||◌, not, ◌==◌,
  if◌then◌else◌, any, map,
}
use my_pi.Prelude.Sorting.{code_units}

abbrev pub default_sensitive_patterns : List String
default_sensitive_patterns =
    ".env" ∷ ".env.*" ∷ "*.pem" ∷ "*.key" ∷ "*.p12" ∷ "*.pfx" ∷ ".npmrc" ∷ ".netrc"
    ∷ ".git-credentials" ∷ ".aws/**" ∷ ".ssh/**" ∷ "credentials*" ∷ "secrets*" ∷ []

-- `/`, `*` and `?`
abbrev pub slash : ℕ
slash = 47

abbrev pub asterisk : ℕ
asterisk = 42

abbrev pub question : ℕ
question = 63

pub data Piece : Type 0 where
  -- One unit; any unit but a slash; so many of those.
  literal : ℕ → Piece
  one many : Piece
  -- `(?:[^/]+/)*[^/]*`
  directories : Piece
  -- `(?:/.*)?`, which stands last
  below : Piece

abbrev pub not_slash : ℕ → Bool
not_slash x = not (x == slash)

-- What `.` matches: all but the line ends.
abbrev pub is_dot : ℕ → Bool
is_dot x = not (x == 10 || (x == 13 || (x == 8232 || x == 8233)))

-- So many units that satisfy a test, and then the rest.
unfoldable pub repeated : (ℕ → Bool) → (List ℕ → Bool) → List ℕ → Bool
repeated p rest [] = rest []
repeated p rest (x ∷ xs) = rest (x ∷ xs) || (p x && repeated p rest xs)

-- So many groups `[^/]+/`, of which one has been started or not, then `[^/]*` and the rest.
unfoldable pub groups : (List ℕ → Bool) → Bool → List ℕ → Bool
unfolding repeated
groups rest started [] = not started && rest []
groups rest false (x ∷ xs) =
    repeated not_slash rest (x ∷ xs) || (not_slash x && groups rest true xs)
groups rest true (x ∷ xs) = if x == slash then groups rest false xs else groups rest true xs

abbrev pub is_end : List ℕ → Bool
is_end [] = true
is_end (x ∷ xs) = false

-- `new RegExp("^" + source + "$").test(text)`
unfoldable pub matches : List Piece → List ℕ → Bool
unfolding repeated groups
matches [] = is_end
matches (Piece.literal c ∷ ps) = λ xs. elim xs [ [] ↦ false | x ∷ rest ↦ x == c && matches ps rest ]
matches (Piece.one ∷ ps) = λ xs. elim xs [ [] ↦ false | x ∷ rest ↦ not_slash x && matches ps rest ]
matches (Piece.many ∷ ps) = repeated not_slash (matches ps)
matches (Piece.directories ∷ ps) = groups (matches ps) false
matches (Piece.below ∷ ps) = λ xs.
    matches ps xs
    || elim xs [ [] ↦ false | x ∷ rest ↦ x == slash && repeated is_dot (matches ps) rest ]

-- `segmentToRegex`
abbrev pub unit_piece : ℕ → Piece
unit_piece x =
    if x == asterisk then Piece.many else if x == question then Piece.one else Piece.literal x

abbrev pub segment_to_regex : List ℕ → List Piece
segment_to_regex segment = map unit_piece segment

-- `text.split("/")`, whose first part is given apart.
unfoldable pub split_first : List ℕ → List ℕ × List (List ℕ)
split_first [] = ([], [])
split_first (x ∷ xs) =
    let (first, others) = split_first xs in
    if x == slash then ([], first ∷ others) else (x ∷ first, others)

abbrev pub split : List ℕ → List (List ℕ)
unfolding split_first
split text = let (first, others) = split_first text in first ∷ others

abbrev pub is_double_star : List ℕ → Bool
is_double_star (a ∷ b ∷ []) = a == asterisk && b == asterisk
is_double_star _ = false

abbrev pub is_empty : List ℕ → Bool
is_empty = is_end

-- The sources of the segments, with a slash between them; an empty segment has none.
unfoldable pub join_sources : List (List ℕ) → List (List Piece)
join_sources [] = []
join_sources (s ∷ segments) =
    let rest = join_sources segments in
    if is_empty s
    then rest
    else (if is_double_star s then Piece.directories ∷ [] else segment_to_regex s) ∷ rest

unfoldable pub join : List (List Piece) → List Piece
join [] = []
join (s ∷ []) = s
join (s ∷ t ∷ rest) = s ++ Piece.literal slash ∷ join (t ∷ rest)

unfoldable pub ends_in_double_star : List (List ℕ) → Bool
ends_in_double_star [] = false
ends_in_double_star (s ∷ []) = is_double_star s
ends_in_double_star (s ∷ t ∷ rest) = ends_in_double_star (t ∷ rest)

-- `segments.slice(0, -1)`
unfoldable pub all_but_last {ℓ} : {A : Type ℓ} → List A → List A
all_but_last [] = []
all_but_last (x ∷ []) = []
all_but_last (x ∷ y ∷ rest) = x ∷ all_but_last (y ∷ rest)

-- `globToRegex`
unfoldable pub glob_to_regex : List ℕ → List Piece
unfolding split_first join_sources join ends_in_double_star all_but_last
glob_to_regex pattern =
    let segments = split pattern in
    if ends_in_double_star segments
    then join (join_sources (all_but_last segments)) ++ Piece.below ∷ []
    else join (join_sources segments)

-- `pattern.includes("**")`
unfoldable pub has_double_star : List ℕ → Bool
has_double_star [] = false
has_double_star (x ∷ []) = false
has_double_star (x ∷ y ∷ rest) = (x == asterisk && y == asterisk) || has_double_star (y ∷ rest)

abbrev pub has_slash : List ℕ → Bool
has_slash text = any (λ (x : ℕ). x == slash) text

-- `matchesSensitivePattern` of texts in lower case
unfoldable pub matches_units : List ℕ → List ℕ → Bool
unfolding matches glob_to_regex has_double_star split_first
matches_units path pattern =
    if not (has_slash pattern) && not (has_double_star pattern)
    then any (matches (segment_to_regex pattern)) (split path)
    else matches (glob_to_regex pattern) path

-- `toLowerCase` is an argument.
module _ (lower : String → String) where
  -- `matchesSensitivePattern`
  unfoldable pub matches_sensitive_pattern : String → String → Bool
  unfolding code_units matches_units
  matches_sensitive_pattern path pattern =
      matches_units (code_units (lower path)) (code_units (lower pattern))

  -- `SensitivePathPolicy.isSensitive` for its rules
  unfoldable pub is_sensitive : List String → String → Option String
  unfolding matches_sensitive_pattern
  is_sensitive [] path = none
  is_sensitive (rule ∷ rules) path =
      let later = is_sensitive rules path in
      if matches_sensitive_pattern path rule then some rule else later
