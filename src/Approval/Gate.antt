-- ===== src/Approval/Gate.antt =====
-- The gate of internal/ai/service/approval_gate.go. The regular expressions, `strings.ToLower` and
-- `strings.LastIndex` are parameters; `cut n s` is Go's `s[:n]`, which may end inside a character.
use Prim.Native.String.{◌++◌ as join, len, slice}
use text.Mathlib.Text.{find?}
use ops_captain.Base.{
  ℕ, zero, suc, ◌+◌, ◌⊎◌, inl, inr, String, Bool, true, false, not, ◌&&◌, Option, none, some, List,
  [], ◌∷◌, ltb, if◌then◌else◌,
}
use ops_captain.Approval.Queue.{ApprovalRequest, ApprovalError, Outside, enqueue}

pub record ApprovalDecision : Type 0 where
  pub approved : Bool
  pub queued : Bool
  pub reason : String
  pub approval_request : Option ApprovalRequest

pub record Words : Type 0 where
  pub to_lower : String → String
  pub prefix_matches : String → Bool
  pub scope_matches : String → Bool
  pub last_index : String → String → Option ℕ
  pub cut : ℕ → String → String

abbrev pub high_risk_approval_keywords : List String
high_risk_approval_keywords =
    "delete" ∷ "drop" ∷ "update" ∷ "insert" ∷ "truncate" ∷ "alter" ∷ "rollback" ∷ "restart" ∷ "删除"
    ∷ "修改" ∷ "回滚" ∷ "重启" ∷ "写入" ∷ "变更" ∷ []

abbrev pub explicit_execution_keywords : List String
explicit_execution_keywords =
    "delete" ∷ "drop" ∷ "update" ∷ "insert" ∷ "truncate" ∷ "alter" ∷ "restart" ∷ "execute" ∷ "apply"
    ∷ "perform" ∷ "run rollback" ∷ "rollback " ∷ "执行" ∷ "立即" ∷ "删除" ∷ "修改" ∷ "写入" ∷ "变更" ∷ "重启"
    ∷ "执行回滚" ∷ "立即回滚" ∷ "实际回滚" ∷ "帮我回滚" ∷ []

abbrev pub analysis_only_keywords : List String
analysis_only_keywords =
    "分析" ∷ "排查" ∷ "诊断" ∷ "建议" ∷ "步骤" ∷ "方案" ∷ "如何" ∷ "查询" ∷ "查看" ∷ "说明" ∷ "生成" ∷ "评估" ∷ "给出" ∷ "列出"
    ∷ "总结" ∷ "报告" ∷ "analyze" ∷ "diagnose" ∷ "summarize" ∷ "suggest" ∷ "recommend" ∷ "how to"
    ∷ "steps" ∷ "plan" ∷ []

abbrev pub clause_separators : List String
clause_separators =
    "，" ∷ "," ∷ "。" ∷ ";" ∷ "；" ∷ "\n" ∷ "而是" ∷ "但是" ∷ "但要" ∷ "however" ∷ "but " ∷ []

-- `strings.Contains` of any of the keywords.
unfoldable pub has_any_keyword : String → List String → Bool
has_any_keyword action [] = false
has_any_keyword action (keyword ∷ keywords) = elim (find? action keyword) [
  | none ↦ has_any_keyword action keywords
  | some index ↦ true
]

-- What is left of a text after an occurrence of the keyword at `index`.
abbrev pub rest_after : String → ℕ → String → String
rest_after remaining index keyword = slice remaining (index + len keyword) (len remaining)

-- The decision on a risky action, from what the queue answered.
unfoldable pub queue_decision : String → ApprovalError ⊎ ApprovalRequest → ApprovalDecision
queue_decision reason (inl e) = record {
  approved = false;
  queued = false;
  reason = "high-risk action detected but approval queue is unavailable";
  approval_request = none;
}
queue_decision reason (inr request) = record {
  approved = false;
  queued = true;
  reason = reason;
  approval_request = some request;
}

abbrev pub is_found : Option Bool → Bool
is_found none = false
is_found (some found) = found

module _ (w : Words) where
  -- The loop over the separators, from a start.
  clause_start : String → ℕ → List String → ℕ
  clause_start value start [] = start
  clause_start value start (separator ∷ separators) = elim (w.last_index value separator) [
    | none ↦ clause_start value start separators
    | some index ↦
        clause_start value
          (if ltb start (index + len separator) then index + len separator else start) separators
  ]

  unfoldable pub current_execution_clause : String → String
  unfolding clause_start
  current_execution_clause value = slice value (clause_start value 0 clause_separators) (len value)

  unfoldable pub keyword_is_negated : String → Bool
  unfolding current_execution_clause
  keyword_is_negated before =
      if w.prefix_matches before then true else w.scope_matches (current_execution_clause before)

  -- The inner loop on fuel: an occurrence of the keyword that is not negated; none is the fuel's end.
  unfoldable pub scan : ℕ → String → String → Option Bool
  unfolding keyword_is_negated
  scan zero remaining keyword = none
  scan (suc fuel) remaining keyword = elim (find? remaining keyword) [
    | none ↦ some false
    | some index ↦
        let later = scan fuel (rest_after remaining index keyword) keyword in
        if keyword_is_negated (slice remaining 0 index) then later else some true
  ]

  -- Every round takes a byte away, so the text's length is enough rounds.
  unfoldable pub has_any_unnegated_keyword : String → List String → Bool
  unfolding scan
  has_any_unnegated_keyword action [] = false
  has_any_unnegated_keyword action (keyword ∷ keywords) =
      let others = has_any_unnegated_keyword action keywords in
      if is_found (scan (suc (len action)) action keyword) then true else others

  unfoldable pub requires_approval : String → Bool
  unfolding has_any_unnegated_keyword has_any_keyword
  requires_approval action =
      let execution = has_any_unnegated_keyword action explicit_execution_keywords in
      if not (has_any_unnegated_keyword action high_risk_approval_keywords)
      then false
      else if has_any_keyword action analysis_only_keywords && not execution
      then false
      else execution

  -- `preview` has been trimmed.
  unfoldable pub build_execution_plan : String → List String
  build_execution_plan preview =
      "Review the requested operation scope and affected resources."
      ∷ "Validate safety constraints and available rollback options."
      ∷ join "After approval, execute the original request: "
          (if ltb 160 (len preview) then join (w.cut 160 preview) "..." else preview)
      ∷ []

  module _ {S : Type 0} (o : Outside S) where
    -- The bypass, the session and the user are those of the context.
    unfoldable pub check :
        S
        → (bypass : Bool) (now : ℕ) (uuid : String) (session_id user_id : Option String)
        → (action : String) → S × ApprovalDecision
    unfolding requires_approval build_execution_plan enqueue queue_decision
    check s bypass now uuid session_id user_id action =
        let allow : ApprovalDecision = record {
          approved = true;
          queued = false;
          reason = "";
          approval_request = none;
        } in
        let reason : String = "high-risk action queued for human approval" in
        let plan = build_execution_plan (o.trim_space action) in
        let after = enqueue o s now uuid session_id user_id action reason plan in
        if bypass
        then (s, allow)
        else if not (requires_approval (w.to_lower (o.trim_space action)))
        then (s, allow)
        else (after.0, queue_decision reason after.1)
