-- ===== src/Graph/Theater/Frames.antt =====
-- `computeQualityState`, `createTheaterFrame` and `validateTheaterFrame`.
use Prim.Native.String.{◌++◌ as text_append}
use my_pi.Prelude.{
  ℕ, ◌≡◌, ◌↔◌, refl, subst, ◌∙◌, ◌==◌, String, Option, none, some, List, [], ◌∷◌, ◌++◌, Bool, true,
  false, ◌||◌, arith, str_eq, eq_iff, if◌then◌else◌, length, any, any-append, is_some, Bool-cases,
  inl, inr,
}
use my_pi.Prelude.Dict.{str_eq_refl}
use my_pi.Prelude.Sorting.{distinct_by}
use my_pi.Prelude.Text.{is_given}
use my_pi.Graph.Model.{GraphKind, GraphAttributes, GraphSnapshot}
use my_pi.Graph.Normalize.{validate_snapshot}
use my_pi.Graph.Theater.{TheaterEvent, or_text}

pub record QualityState : Type 0 where
  pub degraded : Bool
  pub truncated : Bool
  pub stale : Bool
  pub empty : Bool
  pub reasons : List String
  pub generated_at : String
  pub as_of : Option String

-- `Partial<QualityState>`
pub record PartialQuality : Type 0 where
  pub degraded : Option Bool
  pub truncated : Option Bool
  pub stale : Option Bool
  pub empty : Option Bool
  pub reasons : Option (List String)
  pub generated_at : Option String
  pub as_of : Option String

pub record QualityOptions : Type 0 where
  pub as_of : Option String
  pub is_stale : Bool
  pub reason : Option String

pub record TheaterCapabilities : Type 0 where
  pub live : Bool
  pub replay : Bool
  pub expand : Bool
  pub trace : Bool
  pub renderer_3d : Bool

-- `Partial<TheaterCapabilities>`
pub record PartialCapabilities : Type 0 where
  pub live : Option Bool
  pub replay : Option Bool
  pub expand : Option Bool
  pub trace : Option Bool
  pub renderer_3d : Option Bool

pub record TheaterScope : Type 0 where
  pub project_id : String
  pub worktree_id : Option String
  pub kind : GraphKind
  pub subject_id : Option String

pub record TheaterCursor : Type 0 where
  pub first_sequence : Option String
  pub last_sequence : Option String
  pub next_sequence : Option String

pub record TheaterFrame : Type 0 where
  pub scope : TheaterScope
  pub graph : GraphSnapshot
  pub events : List TheaterEvent
  pub cursor : TheaterCursor
  pub quality : QualityState
  pub capabilities : TheaterCapabilities

pub record TheaterFrameInput : Type 0 where
  pub scope : TheaterScope
  pub graph : GraphSnapshot
  pub events : List TheaterEvent
  pub cursor : TheaterCursor
  pub quality : PartialQuality
  pub capabilities : PartialCapabilities

-- `xs.push(x)` under a condition, when it is the last that happens to `xs`.
abbrev pub reason_if : Bool → String → List String
reason_if true s = s ∷ []
reason_if false s = []

abbrev pub degraded_reason : GraphSnapshot → String
degraded_reason graph = elim graph.degraded [
  | none ↦ ""
  | some d ↦ text_append "Graph degraded: " d.reason
]

abbrev pub or_else {ℓ} : {A : Type ℓ} → A → Option A → A
or_else d none = d
or_else d (some a) = a

abbrev pub given : Option String → Option String
given o = if is_given o then o else none

-- `computeQualityState`; its argument `events` is not used.
unfoldable pub compute_quality_state : GraphSnapshot → QualityOptions → String → QualityState
compute_quality_state graph options now = record {
  degraded = is_some graph.degraded;
  truncated = graph.truncated;
  stale = options.is_stale;
  empty = length graph.nodes == 0;
  reasons =
      reason_if (is_some graph.degraded) (degraded_reason graph)
      ++ reason_if graph.truncated "Graph nodes or edges truncated within bounds"
      ++ reason_if (length graph.nodes == 0) "Graph contains zero nodes"
      ++ reason_if options.is_stale
          (or_else "Graph data is stale or agent heartbeat expired" options.reason);
  generated_at = or_else now graph.generated_at;
  as_of = given options.as_of;
}

abbrev pub no_options : QualityOptions
no_options = record { as_of = none; is_stale = false; reason = none }

abbrev pub has_text : List String → String → Bool
has_text xs s = any (λ (x : String). str_eq x s) xs

-- `[...new Set(xs)]`: the elements already seen are left out.
unfoldable pub unique_after : List String → List String → List String
unique_after seen [] = []
unique_after seen (x ∷ xs) = elim (has_text seen x) [
  | true ↦ unique_after seen xs
  | false ↦ x ∷ unique_after (x ∷ seen) xs
]

abbrev pub first_of : List TheaterEvent → Option String
first_of [] = none
first_of (event ∷ events) = some event.sequence

unfoldable pub last_of : List TheaterEvent → Option String
last_of [] = none
last_of (event ∷ events) = elim (last_of events) [
  | none ↦ some event.sequence
  | some later ↦ some later
]

abbrev pub frame_quality : QualityState → PartialQuality → QualityState
unfolding unique_after
frame_quality computed own = record {
  degraded = or_else computed.degraded own.degraded;
  truncated = or_else computed.truncated own.truncated;
  stale = or_else computed.stale own.stale;
  empty = or_else computed.empty own.empty;
  reasons = unique_after [] (computed.reasons ++ or_else [] own.reasons);
  generated_at = or_else computed.generated_at own.generated_at;
  as_of = or_text own.as_of computed.as_of;
}

-- `createTheaterFrame`
unfoldable pub create_theater_frame : TheaterFrameInput → String → TheaterFrame
unfolding compute_quality_state last_of frame_quality
create_theater_frame input now = record {
  scope = input.scope;
  graph = input.graph;
  events = input.events;
  cursor = record {
    first_sequence = given (or_text input.cursor.first_sequence (first_of input.events));
    last_sequence = given (or_text input.cursor.last_sequence (last_of input.events));
    next_sequence = given input.cursor.next_sequence;
  };
  quality = frame_quality (compute_quality_state input.graph no_options now) input.quality;
  capabilities = record {
    live = or_else true input.capabilities.live;
    replay = or_else true input.capabilities.replay;
    expand = or_else true input.capabilities.expand;
    trace = or_else true input.capabilities.trace;
    renderer_3d = or_else true input.capabilities.renderer_3d;
  };
}

-- The `ok` of `validateTheaterFrame`; what else it checks holds by the types.
abbrev pub validate_theater_frame : (GraphAttributes → ℕ) → TheaterFrame → Bool
validate_theater_frame json_bytes frame = validate_snapshot json_bytes frame.graph

reasons_iff :
    (a b c d : Bool) (s t u v : String)
    → ((reason_if a s ++ reason_if b t ++ reason_if c u ++ reason_if d v) ≡ [])
      ↔ ((a || (b || (c || d))) ≡ false)
reasons_iff true b c d s t u v = (λ h. cc, λ h. cc)
reasons_iff false true c d s t u v = (λ h. cc, λ h. cc)
reasons_iff false false true d s t u v = (λ h. cc, λ h. cc)
reasons_iff false false false true s t u v = (λ h. cc, λ h. cc)
reasons_iff false false false false s t u v = (λ h. refl, λ h. refl)

-- The reasons of a computed quality are none exactly when no flag of it is set.
compute_quality_state-reasons :
    (graph : GraphSnapshot) (options : QualityOptions) (now : String)
    → let q = compute_quality_state graph options now in
      (q.reasons ≡ []) ↔ ((q.degraded || (q.truncated || (q.empty || q.stale))) ≡ false)
unfolding compute_quality_state
compute_quality_state-reasons graph options now =
    reasons_iff (is_some graph.degraded) graph.truncated (length graph.nodes == 0) options.is_stale
      (degraded_reason graph) "Graph nodes or edges truncated within bounds"
      "Graph contains zero nodes"
      (or_else "Graph data is stale or agent heartbeat expired" options.reason)

seen_same :
    (b : Bool) (seen : List String) (x s : String)
    → str_eq x s ≡ true
    → has_text seen x ≡ b
    → has_text seen s ≡ b
seen_same b seen x s same h = subst (λ t. has_text seen t ≡ b) ((eq_iff x s).0 same) h

has_text-unique_after :
    (seen xs : List String) (s : String)
    → (has_text seen s || has_text (unique_after seen xs) s) ≡ (has_text seen s || has_text xs s)
unfolding unique_after
has_text-unique_after seen [] s = refl
has_text-unique_after seen (x ∷ xs) s = elim (Bool-cases (has_text seen x)) [
  | inl old ↦ elim (Bool-cases (str_eq x s)) [
    | inl same ↦ let here = seen_same true seen x s same old in rw (unique_after, here) refl
    | inr other ↦ rw (unique_after, old, other) (has_text-unique_after seen xs s)
  ]
  | inr new ↦ elim (Bool-cases (str_eq x s)) [
    | inl same ↦ rw (unique_after, new, same) refl
    | inr other ↦
        let later = has_text-unique_after (x ∷ seen) xs s in
        rw (unique_after, new, other) (rw other at later)
  ]
]

distinct_after :
    (seen xs : List String) (s : String)
    → has_text seen s ≡ true
    → has_text (unique_after seen xs) s ≡ false
unfolding unique_after
distinct_after seen [] s h = refl
distinct_after seen (x ∷ xs) s h = elim (Bool-cases (has_text seen x)) [
  | inl old ↦ rw (unique_after, old) (distinct_after seen xs s h)
  | inr new ↦ elim (Bool-cases (str_eq x s)) [
    | inl same ↦ let missing = seen_same false seen x s same new in cc
    | inr other ↦ rw (unique_after, new, other) (distinct_after (x ∷ seen) xs s (ground (arith, h)))
  ]
]

abbrev pub itself : String → String
itself s = s

unique_after-distinct : (seen xs : List String) → distinct_by itself (unique_after seen xs) ≡ true
unfolding unique_after
unique_after-distinct seen [] = refl
unique_after-distinct seen (x ∷ xs) = elim (Bool-cases (has_text seen x)) [
  | inl old ↦ rw (unique_after, old) (unique_after-distinct seen xs)
  | inr new ↦
      let later = distinct_after (x ∷ seen) xs x (rw (str_eq_refl x) refl) in
      rw (unique_after, new, later) (unique_after-distinct (x ∷ seen) xs)
]

-- The reasons of a frame are all different, and a text is one of them exactly when it is a computed
-- reason or a given one.
pub create_theater_frame-reasons :
    (input : TheaterFrameInput) (now reason : String)
    → let computed = (compute_quality_state input.graph no_options now).reasons in
      let reasons = (create_theater_frame input now).quality.reasons in
      (distinct_by itself reasons ≡ true)
      × (has_text reasons reason
          ≡ (has_text computed reason || has_text (or_else [] input.quality.reasons) reason))
unfolding create_theater_frame
create_theater_frame-reasons input now reason =
    let computed = (compute_quality_state input.graph no_options now).reasons in
    let own = or_else [] input.quality.reasons in
    (
      unique_after-distinct [] (computed ++ own),
      has_text-unique_after [] (computed ++ own) reason
          ∙ any-append (λ (x : String). str_eq x reason) computed own,
    )
