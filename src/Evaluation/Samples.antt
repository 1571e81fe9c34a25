-- ===== src/Evaluation/Samples.antt =====
-- A specification with one criterion, a run and two results, and the theorems at them.
use my_pi.Prelude.{ℕ, ◌≡◌, ◌↔◌, String, none, some, List, [], ◌∷◌, true, false, all, any}
use my_pi.Coordination.Model.{
  EvaluationSpec, EvaluationCriterion, EvaluationCriterionKind, EvaluationSeverity, EvaluationRun,
  EvaluationRunState, AcceptanceDecisionKind,
}
use my_pi.Evaluation.Model.{
  EvidenceRef, EvaluationOutcome, EvaluationResult, EvaluationProvenance, StoredEvaluationResult,
  RetryCycle, RetryCycleState,
}
use my_pi.Evaluation.Acceptance.{evaluate_acceptance, trusted_of}
use my_pi.Evaluation.Acceptance.Verdicts.{IsJudged, is_failed, evaluate_acceptance-IsJudged}
use my_pi.Evaluation.Acceptance.Decisions.{
  is_met, evaluate_acceptance-accepted, evaluate_acceptance-rejected,
  evaluate_acceptance-trusted_of,
}
use my_pi.Evaluation.Validation.{ProviderResultInput}

abbrev digest : String → String → List (String × EvaluationOutcome × String) → String
digest spec target outcomes = spec

abbrev criterion : EvaluationCriterion
criterion = record {
  id = "tests";
  kind = EvaluationCriterionKind.test;
  required = true;
  severity = EvaluationSeverity.error;
  evaluator_ref = "runner";
  expected = "null";
}

abbrev spec : EvaluationSpec
spec = record {
  id = "s";
  project_id = "p";
  version = 1;
  name = "gate";
  criteria = criterion ∷ [];
  allow_manual_override = false;
  spec_digest = "d";
  created_at = 0;
}

abbrev evidence : EvidenceRef
evidence = record {
  artifact_id = none;
  provider = "runner";
  digest = "e";
  target_state_ref = "head";
  observed_at = "now";
}

abbrev result : EvaluationOutcome → EvaluationResult
result outcome = record {
  criterion_id = "tests";
  outcome = outcome;
  evidence = evidence ∷ [];
  observed = none;
  reason_code = none;
}

abbrev stored : EvaluationOutcome → EvaluationProvenance → StoredEvaluationResult
stored outcome provenance = record {
  provider_result_id = "r1";
  provider_id = "runner";
  criterion_id = "tests";
  result = result outcome;
  run_id = "r";
  result_digest = "rd";
  recorded_at = 0;
  provenance = provenance;
  declared_provider_id = none;
}

-- The server's runner passes; an outsider says that the criterion fails.
abbrev results : List StoredEvaluationResult
results =
    stored EvaluationOutcome.pass EvaluationProvenance.verified_provider
    ∷ stored EvaluationOutcome.fail EvaluationProvenance.external_unverified
    ∷ []

evaluate_acceptance-IsJudged_example :
    IsJudged "head" results spec (evaluate_acceptance digest spec "head" results)
evaluate_acceptance-IsJudged_example = evaluate_acceptance-IsJudged digest spec "head" results

evaluate_acceptance-accepted_example :
    ((evaluate_acceptance digest spec "head" results).decision ≡ AcceptanceDecisionKind.accepted)
    ↔ (all (is_met "head" results) spec.criteria ≡ true)
evaluate_acceptance-accepted_example = evaluate_acceptance-accepted digest spec "head" results

evaluate_acceptance-rejected_example :
    ((evaluate_acceptance digest spec "head" results).decision ≡ AcceptanceDecisionKind.rejected)
    ↔ (any (is_failed results) spec.criteria ≡ true)
evaluate_acceptance-rejected_example = evaluate_acceptance-rejected digest spec "head" results

evaluate_acceptance-trusted_of_example :
    (evaluate_acceptance digest spec "head" (trusted_of results)).decision
    ≡ (evaluate_acceptance digest spec "head" results).decision
evaluate_acceptance-trusted_of_example = evaluate_acceptance-trusted_of digest spec "head" results

abbrev run : ℕ → EvaluationRun
run attempt = record {
  id = "r";
  spec_id = "s";
  spec_version = 1;
  work_item_id = "w1";
  intent_id = none;
  change_receipt_id = none;
  repository_state_ref = "head";
  attempt = attempt;
  state = EvaluationRunState.running;
  started_at = some 0;
  completed_at = none;
}

-- The third of three attempts.
abbrev last_cycle : RetryCycle
last_cycle = record {
  id = "retry_r_n";
  run_id = "r";
  attempt = 3;
  max_attempts = 3;
  state = RetryCycleState.exhausted;
  reason_codes = [];
  constraints = [];
  next_intent_id = none;
  updated_at = 7;
}

abbrev provided : ProviderResultInput
provided = record {
  provider_result_id = "r1";
  provider_id = "runner";
  criterion_id = "tests";
  result = result EvaluationOutcome.pass;
}
