-- ===== src/Protocol/Scenarios.antt =====
-- A degraded result, checked as internal/ai/protocol/validate.go does it.
use ops_captain.Base.{ℕ, ◌≡◌, ◌↔◌, refl, false, none, some, [], ◌∷◌}
use ops_captain.Protocol.{TaskResult, result_degraded}
use ops_captain.Protocol.Validate.{
  Outside, validate_task_result, validate_evidence, degradation_reason_required,
}
use ops_captain.Protocol.Valid.{IsValid, validate_task_result-IsValid}

abbrev outside : Outside ℕ
outside = record { trim_space = λ t. t; out_of_range = λ n. false }

abbrev result : TaskResult ℕ ℕ
result = record {
  task_id = "t1";
  agent = "logs";
  status = result_degraded;
  summary = "only half of the logs";
  confidence = 1;
  degradation_reason = "timeout";
  evidence =
      record {
        source_type = "log";
        source_id = "1";
        title = "OOM";
        snippet = "";
        score = 1;
        uri = "";
      }
      ∷ [];
  artifact_refs = [];
  next_actions = [];
  metadata = [];
  error = none;
  started_at = 1;
  finished_at = 2;
}

validate_task_result-IsValid_example :
    (validate_task_result outside (some result) ≡ none) ↔ IsValid outside result
validate_task_result-IsValid_example = validate_task_result-IsValid outside result

accepted : validate_task_result outside (some result) ≡ none
unfolding validate_task_result validate_evidence
accepted = refl

unexplained :
    validate_task_result outside (some (record result { degradation_reason = "" }))
    ≡ some degradation_reason_required
unfolding validate_task_result validate_evidence
unexplained = refl
