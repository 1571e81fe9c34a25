-- ===== src/Policy/Audit.antt =====
-- `BoundedAuditSink` (packages/policy/src/audit.ts), and the log that it keeps the end of.
use Prim.Native.Nat.{min}
use mathlib.Core.List.{append-nil, append_assoc}
use my_pi.Prelude.{
  ℕ, zero, suc, ◌+◌, ◌-◌, ◌≤◌, ◌≡◌, refl, ap, sym, ◌∙◌, inl, inr, String, Option, List, [], ◌∷◌,
  ◌++◌, Bool, true, false, ◌&&◌, arith, leb, ltb, if◌then◌else◌, length, drop, length-append,
  length-drop, filter, Bool-cases,
}
use my_pi.Prelude.Text.{js_length, truthy}
use my_pi.Prelude.Outcome.{Outcome, ok, err, require, ◌>>◌, plain_error}

pub data DataClassification : Type 0 where
  public internal confidential restricted : DataClassification

pub data PolicyDecisionKind : Type 0 where
  allow deny review_required allow_with_constraints : PolicyDecisionKind

pub record AuditEvent : Type 0 where
  pub id : String
  pub occurred_at : String
  pub actor_ref : Option String
  pub agent_session_id : Option String
  pub project_id : Option String
  pub repository_id : Option String
  pub worktree_id : Option String
  pub operation : String
  pub policy_decision : Option PolicyDecisionKind
  pub resource_ref : Option String
  pub change_ref : Option String
  pub result_code : Option String
  pub request_id : Option String
  pub correlation_id : Option String
  pub classification : Option DataClassification

pub record AuditSink : Type 0 where
  pub events : List AuditEvent
  pub max_events : ℕ

abbrev pub new_sink : ℕ → AuditSink
new_sink max_events = record { events = []; max_events = max_events }

abbrev pub event_ok : AuditEvent → Bool
event_ok event = truthy event.id && (truthy event.operation && leb (js_length event.operation) 128)

-- `while (this.events.length > this.maxEvents) this.events.shift();`
unfoldable pub shift_to {ℓ} : {A : Type ℓ} → ℕ → List A → List A
shift_to max [] = []
shift_to max (x ∷ xs) =
    let rest = shift_to max xs in if ltb max (length (x ∷ xs)) then rest else x ∷ xs

-- `append`
unfoldable pub append : AuditEvent → AuditSink → Outcome AuditSink
unfolding shift_to
append event sink = do
  require (event_ok event) plain_error
  ok (record sink { events = shift_to sink.max_events (sink.events ++ event ∷ []) })

-- `reverse`
unfoldable pub reversed {ℓ} : {A : Type ℓ} → List A → List A
reversed [] = []
reversed (x ∷ xs) = reversed xs ++ x ∷ []

-- `xs.slice(-n)` for a positive `n`
abbrev pub last_ones {ℓ} : {A : Type ℓ} → ℕ → List A → List A
last_ones n xs = drop (length xs - n) xs

-- `list`
unfoldable pub list : ℕ → AuditSink → Outcome (List AuditEvent)
unfolding reversed
list limit sink = do
  require (leb 1 limit && leb limit 1000) plain_error
  ok (reversed (last_ones limit sink.events))

-- Calls of `append` in order; one that throws leaves the sink as it is.
unfoldable pub append_all : List AuditEvent → AuditSink → AuditSink
unfolding append
append_all [] sink = sink
append_all (event ∷ events) sink =
    append_all events (elim (append event sink) [ ok next ↦ next | err code ↦ sink ])

suc_add : (n m : ℕ) → suc (n + m) ≡ suc n + m
suc_add n m = omega arith

module _ {ℓ} {A : Type ℓ} where
  drop-nil : (n : ℕ) → drop {A = A} n [] ≡ []
  drop-nil zero = refl
  drop-nil (suc n) = refl

  drop-append_le : (n : ℕ) (xs ys : List A) → n ≤ length xs → drop n (xs ++ ys) ≡ drop n xs ++ ys
  drop-append_le zero xs ys h = refl
  drop-append_le (suc n) [] ys h = ground arith
  drop-append_le (suc n) (x ∷ xs) ys h = drop-append_le n xs ys (omega (arith, h))

  drop-drop : (m n : ℕ) (xs : List A) → drop m (drop n xs) ≡ drop (n + m) xs
  drop-drop m zero xs = ap (λ k. drop k xs) (omega arith)
  drop-drop m (suc n) [] = drop-nil m ∙ sym (drop-nil (suc n + m))
  drop-drop m (suc n) (x ∷ xs) = drop-drop m n xs ∙ ap (λ k. drop k (x ∷ xs)) (suc_add n m)

  last_ones-drop :
      (max n : ℕ) (xs : List A) → n ≤ length xs - max → last_ones max (drop n xs) ≡ last_ones max xs
  last_ones-drop max n xs h =
      ap (λ k. drop (k - max) (drop n xs)) (length-drop n xs)
      ∙ drop-drop (length xs - n - max) n xs
      ∙ ap (λ k. drop k xs) (omega (arith, h))

  last_ones-append :
      (max : ℕ) (xs ys : List A) → last_ones max (last_ones max xs ++ ys) ≡ last_ones max (xs ++ ys)
  last_ones-append max xs ys =
      ap (last_ones max) (sym (drop-append_le (length xs - max) xs ys (omega arith)))
      ∙ last_ones-drop max (length xs - max) (xs ++ ys) (omega (arith, length-append xs ys))

  last_ones-last_ones :
      (m n : ℕ) (xs : List A) → last_ones m (last_ones n xs) ≡ last_ones (min m n) xs
  last_ones-last_ones m n xs =
      ap (λ k. drop (k - m) (last_ones n xs)) (length-drop (length xs - n) xs)
      ∙ drop-drop (length xs - (length xs - n) - m) (length xs - n) xs
      ∙ ap (λ k. drop k xs) (omega arith)

  shift_to-last_ones : (max : ℕ) (xs : List A) → shift_to max xs ≡ last_ones max xs
  unfolding shift_to
  shift_to-last_ones max [] = sym (drop-nil (0 - max))
  shift_to-last_ones max (x ∷ xs) = elim (Bool-cases (ltb max (length (x ∷ xs)))) [
    | inl over ↦ rw over (shift_to-last_ones max xs ∙ ap (λ k. drop k (x ∷ xs)) (next over))
    | inr under ↦ rw under (ap (λ k. drop k (x ∷ xs)) (whole under))
  ]
    where
      next : ltb max (length (x ∷ xs)) ≡ true → suc (length xs - max) ≡ suc (length xs) - max
      next h = ground (arith, h)

      whole : ltb max (length (x ∷ xs)) ≡ false → 0 ≡ suc (length xs) - max
      whole h = ground (arith, h)

-- A sink that keeps the end of a log keeps the end of the log with the further events.
append_all-events :
    (events log : List AuditEvent) (sink : AuditSink)
    → sink.events ≡ last_ones sink.max_events log
    → (append_all events sink).events ≡ last_ones sink.max_events (log ++ filter event_ok events)
unfolding append_all append
append_all-events [] log sink h = h ∙ ap (last_ones sink.max_events) (sym (append-nil log))
append_all-events (event ∷ events) log sink h = elim (Bool-cases (event_ok event)) [
  | inl good ↦
      rw (append_all, append, good)
        (append_all-events events (log ++ event ∷ [])
            (record sink { events = shift_to sink.max_events (sink.events ++ event ∷ []) })
            (shift_to-last_ones sink.max_events (sink.events ++ event ∷ [])
              ∙ ap (λ es. last_ones sink.max_events (es ++ event ∷ [])) h
              ∙ last_ones-append sink.max_events log (event ∷ []))
          ∙ ap (last_ones sink.max_events) (append_assoc log (event ∷ []) (filter event_ok events)))
  | inr bad ↦ rw (append_all, append, bad) (append_all-events events log sink h)
]

-- What `list` returns after any calls of `append` on a new sink: the most recent of the accepted
-- events, the newest first, as many as the limit and the sink's size allow; a limit out of its
-- bounds is refused.
pub append_all-list :
    (events : List AuditEvent) (max_events limit : ℕ)
    → list limit (append_all events (new_sink max_events)) ≡ (
        if leb 1 limit && leb limit 1000
        then ok (reversed (last_ones (min limit max_events) (filter event_ok events)))
        else err plain_error)
unfolding list
append_all-list events max_events limit =
    let kept =
      append_all-events events [] (new_sink max_events) (sym (drop-nil (0 - max_events))) in
    elim (Bool-cases (leb 1 limit && leb limit 1000)) [
      | inl good ↦ rw good (
          ap (λ es. ok (reversed es))
            (ap (last_ones limit) kept
              ∙ last_ones-last_ones limit max_events (filter event_ok events)))
      | inr bad ↦ rw bad refl
    ]
