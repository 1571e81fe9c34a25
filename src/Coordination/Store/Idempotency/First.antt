-- ===== src/Coordination/Store/Idempotency/First.antt =====
-- The first record of a call answers it for as long as it is not past.
use my_pi.Prelude.{
  ℕ, ◌≡◌, refl, ap, ◌∙◌, String, Option, none, some, List, [], ◌∷◌, ◌++◌, true, false, arith,
  if◌then◌else◌, inl, inr, ◌⊎◌, Bool-cases, Option-cases, All,
}
use my_pi.Prelude.Dict.{str_eq_refl}
use my_pi.Prelude.Outcome.{Outcome, ok, err, invalid_argument}
use my_pi.Coordination.Store.Idempotency.{
  StoredIdempotency, IdempotencyInput, idempotency_ok, is_past, live, is_keyed, lookup, answer,
  get_idempotency, rolled_back, check_idempotency, input_of, put_found, record_idempotency,
  IdempotencyCall, checking, recording, call_time, call, calls,
}

module _ (client key : String) (r : StoredIdempotency) where
  lookup-live :
      (now : ℕ) (rows : List StoredIdempotency)
      → is_past now r ≡ false
      → lookup client key rows ≡ some r
      → lookup client key (live now rows) ≡ some r
  unfolding lookup
  lookup-live now [] valid h = cc
  lookup-live now (o ∷ rows) valid h = elim (Bool-cases (is_keyed client key o)) [
    | inl mine ↦
        let same : o ≡ r = ground (arith, rw (lookup, mine) at h) in
        let kept : is_past now o ≡ false = ap (is_past now) same ∙ valid in
        rw kept (rw (lookup, mine) (ap some same))
    | inr other ↦
        let later = lookup-live now rows valid (rw (lookup, other) at h) in
        elim (Bool-cases (is_past now o)) [
          | inl past ↦ rw past later
          | inr kept ↦ rw kept (rw (lookup, other) later)
        ]
  ]

  lookup-snoc :
      (rows : List StoredIdempotency) (o : StoredIdempotency)
      → lookup client key rows ≡ some r
      → lookup client key (rows ++ o ∷ []) ≡ some r
  unfolding lookup
  lookup-snoc [] o h = cc
  lookup-snoc (x ∷ rows) o h = ground (arith, lookup-snoc rows o, h)

  lookup-new :
      (rows : List StoredIdempotency)
      → is_keyed client key r ≡ true
      → lookup client key rows ≡ none
      → lookup client key (rows ++ r ∷ []) ≡ some r
  unfolding lookup
  lookup-new [] mine h = rw mine refl
  lookup-new (x ∷ rows) mine h = ground (arith, lookup-new rows mine, h)

rolled_back-value {ℓ} :
    {A : Type ℓ} (before after : List StoredIdempotency) (o : Outcome A)
    → (rolled_back before (o, after)).0 ≡ o
rolled_back-value before after (ok a) = refl
rolled_back-value before after (err c) = refl

rolled_back-rows {ℓ} :
    {A : Type ℓ} (before after : List StoredIdempotency) (o : Outcome A)
    → ((rolled_back before (o, after)).1 ≡ before) ⊎ ((rolled_back before (o, after)).1 ≡ after)
rolled_back-rows before after (ok a) = inr refl
rolled_back-rows before after (err c) = inl refl

put_found-rows :
    (r : StoredIdempotency) (before after : List StoredIdempotency)
    (o : Outcome (Option StoredIdempotency))
    → let left = (rolled_back before (put_found r (o, after))).1 in
      (left ≡ before) ⊎ ((left ≡ after) ⊎ (left ≡ after ++ r ∷ []))
put_found-rows r before after (ok none) = inr (inr refl)
put_found-rows r before after (ok (some existing)) = inr (inl refl)
put_found-rows r before after (err c) = inl refl

checked-rows :
    (now : ℕ) (input : IdempotencyInput) (rows : List StoredIdempotency)
    → ((check_idempotency now input rows).1 ≡ rows)
      ⊎ ((check_idempotency now input rows).1 ≡ live now rows)
unfolding check_idempotency get_idempotency
checked-rows now input rows = elim (Bool-cases (idempotency_ok input)) [
  | inr partial ↦ rw partial (inl refl)
  | inl whole ↦ elim (Option-cases (lookup input.client_id input.key (live now rows))) [
    | inl absent ↦ rw (whole, absent) (inr refl)
    | inr (r, found) ↦ rw (whole, found) (rolled_back-rows rows (live now rows) (answer r input))
  ]
]

recorded-rows :
    (now : ℕ) (r : StoredIdempotency) (rows : List StoredIdempotency)
    → ((record_idempotency now r rows).1 ≡ rows)
      ⊎ (((record_idempotency now r rows).1 ≡ live now rows)
          ⊎ ((record_idempotency now r rows).1 ≡ live now rows ++ r ∷ []))
unfolding record_idempotency get_idempotency
recorded-rows now r rows = elim (Bool-cases (idempotency_ok (input_of r))) [
  | inr partial ↦ rw partial (inl refl)
  | inl whole ↦ elim (Option-cases (lookup r.client_id r.key (live now rows))) [
    | inl absent ↦ rw (whole, absent) (inr (inr refl))
    | inr (o, found) ↦
        rw (whole, found) (put_found-rows r rows (live now rows) (answer o (input_of r)))
  ]
]

module _ (r : StoredIdempotency) where
  call-lookup :
      (c : IdempotencyCall) (rows : List StoredIdempotency)
      → is_past (call_time c) r ≡ false
      → lookup r.client_id r.key rows ≡ some r
      → lookup r.client_id r.key (call c rows) ≡ some r
  unfolding check_idempotency record_idempotency
  call-lookup (checking now input) rows valid h =
      let kept = lookup-live r.client_id r.key r now rows valid h in
      elim (checked-rows now input rows) [
        | inl same ↦ ap (lookup r.client_id r.key) same ∙ h
        | inr fewer ↦ ap (lookup r.client_id r.key) fewer ∙ kept
      ]
  call-lookup (recording now o) rows valid h =
      let kept = lookup-live r.client_id r.key r now rows valid h in
      elim (recorded-rows now o rows) [
        | inl same ↦ ap (lookup r.client_id r.key) same ∙ h
        | inr (inl fewer) ↦ ap (lookup r.client_id r.key) fewer ∙ kept
        | inr (inr more) ↦
            ap (lookup r.client_id r.key) more
            ∙ lookup-snoc r.client_id r.key r (live now rows) o kept
      ]

  calls-lookup :
      (cs : List IdempotencyCall) (rows : List StoredIdempotency)
      → All (λ c. is_past (call_time c) r ≡ false) cs
      → lookup r.client_id r.key rows ≡ some r
      → lookup r.client_id r.key (calls cs rows) ≡ some r
  unfolding calls
  calls-lookup [] rows valid h = h
  calls-lookup (c ∷ cs) rows valid h =
      calls-lookup cs (call c rows) valid.1 (call-lookup c rows valid.0 h)

  record-lookup :
      (now : ℕ) (rows : List StoredIdempotency)
      → idempotency_ok (input_of r) ≡ true
      → lookup r.client_id r.key (live now rows) ≡ none
      → lookup r.client_id r.key (record_idempotency now r rows).1 ≡ some r
  unfolding record_idempotency get_idempotency
  record-lookup now rows valid absent =
      rw (valid, absent)
        (lookup-new r.client_id r.key r (live now rows)
          (rw (str_eq_refl r.client_id, str_eq_refl r.key) refl) absent)

  -- A call that is recorded when nothing is stored under its client and key is answered from this
  -- record, whatever else is checked and recorded in between, at times when it is not past: the same
  -- request gets the recorded result, another one under the key a conflict, and one without its
  -- fields is refused.
  pub record_idempotency-check_idempotency :
      (now later : ℕ) (rows : List StoredIdempotency) (cs : List IdempotencyCall)
      (input : IdempotencyInput)
      → idempotency_ok (input_of r) ≡ true
      → lookup r.client_id r.key (live now rows) ≡ none
      → All (λ c. is_past (call_time c) r ≡ false) cs
      → is_past later r ≡ false
      → input.client_id ≡ r.client_id
      → input.key ≡ r.key
      → (check_idempotency later input (calls cs (record_idempotency now r rows).1)).0
        ≡ (if idempotency_ok input then answer r input else err invalid_argument)
  unfolding check_idempotency get_idempotency
  record_idempotency-check_idempotency now later rows cs input named absent valid valid_later client
        key =
      let first = record-lookup now rows named absent in
      let stored = calls cs (record_idempotency now r rows).1 in
      let there = calls-lookup cs (record_idempotency now r rows).1 valid first in
      let found : lookup input.client_id input.key (live later stored) ≡ some r =
        rw (client, key) (lookup-live r.client_id r.key r later stored valid_later there) in
      elim (Bool-cases (idempotency_ok input)) [
        | inl whole ↦
            rw (whole, found) (rolled_back-value stored (live later stored) (answer r input))
        | inr partial ↦ rw partial refl
      ]
