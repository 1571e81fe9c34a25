-- ===== src/Coordination/Samples/Repeats.antt =====
-- A client that repeats a call, and the theorem at it.
use my_pi.Prelude.{◌≡◌, refl, some, none, [], ◌∷◌}
use my_pi.Prelude.Outcome.{ok}
use my_pi.Coordination.Store.Idempotency.{
  StoredIdempotency, input_of, lookup, checking, recording, calls, check_idempotency,
  record_idempotency,
}
use my_pi.Coordination.Store.Idempotency.First.{record_idempotency-check_idempotency}

abbrev claimed : StoredIdempotency
claimed = record {
  client_id = "c";
  key = "k";
  operation_kind = "claim";
  request_digest = "d";
  result_ref = some "w1";
  result_digest = none;
  expires_at = some 100;
}

abbrev other_result : StoredIdempotency
other_result = record claimed { result_ref = some "w2" }

record_idempotency-check_idempotency_example :
    (check_idempotency 20 (input_of claimed) (
      calls
        (checking 10 (input_of claimed) ∷ recording 15 other_result ∷ [])
        (record_idempotency 5 claimed []).1)).0
    ≡ ok (some claimed)
unfolding lookup
record_idempotency-check_idempotency_example =
    record_idempotency-check_idempotency claimed 5 20 []
      (checking 10 (input_of claimed) ∷ recording 15 other_result ∷ []) (input_of claimed) refl refl
      (refl, (refl, tt)) refl refl refl
