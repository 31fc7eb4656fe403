-- ===== src/Protocol/Validate.antt =====
-- The check of results of internal/ai/protocol/validate.go, in the source's order.
use Prim.Native.String.{len}
use ops_captain.Base.{
  ℕ, suc, String, Bool, true, false, not, ◌&&◌, Option, none, some, List, [], ◌∷◌, ltb, str_eq,
  if◌then◌else◌, is_some,
}
use ops_captain.Protocol.{
  TaskResult, TaskError, EvidenceItem, ResultStatus, result_failed, result_degraded, other_status,
}

-- The number is the position of the item of evidence.
pub data ValidationError : Type 0 where
  nil_result task_id_required agent_required invalid_status : ValidationError
  summary_required summary_too_long degradation_reason_required : ValidationError
  error_required confidence_out_of_range error_without_text : ValidationError
  source_type_required title_required : ℕ → ValidationError

-- `strings.TrimSpace` and the comparison of a float with the interval from 0 to 1.
pub record Outside (F : Type 0) : Type 0 where
  pub trim_space : String → String
  pub out_of_range : F → Bool

abbrev pub is_known : ResultStatus → Bool
is_known (other_status text) = false
is_known status = true

abbrev pub is_degraded : ResultStatus → Bool
is_degraded result_degraded = true
is_degraded status = false

abbrev pub is_failed : ResultStatus → Bool
is_failed result_failed = true
is_failed status = false

module _ {F : Type 0} (o : Outside F) where
  abbrev pub is_blank : String → Bool
  is_blank text = str_eq (o.trim_space text) ""

  unfoldable pub validate_evidence : ℕ → List (EvidenceItem F) → Option ValidationError
  validate_evidence i [] = none
  validate_evidence i (item ∷ items) =
      let rest = validate_evidence (suc i) items in
      if is_blank item.source_type
      then some (source_type_required i)
      else if is_blank item.title
      then some (title_required i)
      else rest

  unfoldable pub validate_error : Option TaskError → Option ValidationError
  validate_error none = none
  validate_error (some e) =
      if is_blank e.code && is_blank e.message then some error_without_text else none

  unfoldable pub validate_task_result :
      {Any : Type 0} → Option (TaskResult Any F) → Option ValidationError
  unfolding validate_evidence validate_error
  validate_task_result none = some nil_result
  validate_task_result (some r) =
      if is_blank r.task_id
      then some task_id_required
      else if is_blank r.agent
      then some agent_required
      else if not (is_known r.status)
      then some invalid_status
      else if is_blank r.summary
      then some summary_required
      else if ltb 4096 (len r.summary)
      then some summary_too_long
      else if is_degraded r.status && is_blank r.degradation_reason
      then some degradation_reason_required
      else if is_failed r.status && not (is_some r.error)
      then some error_required
      else if o.out_of_range r.confidence
      then some confidence_out_of_range
      else elim (validate_evidence 0 r.evidence) [ some e ↦ some e | none ↦ validate_error r.error ]
