-- ===== src/Protocol.antt =====
-- The messages of internal/ai/protocol/types.go. `Any` stands for the values of a `map[string]any`
-- and `F` for the floating-point numbers, which the model does not look into.
pub mod Validate
pub mod Valid
mod Scenarios
use ops_captain.Base.{ℕ, String, Option, List}
use ops_captain.Base.Dict.{Dict}

pub data TaskStatus : Type 0 where
  pending running succeeded failed cancelled : TaskStatus

-- A status of a result, with the text that is none of the three.
pub data ResultStatus : Type 0 where
  result_succeeded result_failed result_degraded : ResultStatus
  other_status : String → ResultStatus

pub record MemoryRef (F : Type 0) : Type 0 where
  pub id : String
  pub kind : String
  pub scope : String
  pub confidence : F
  pub source : String
  pub provenance : String

pub record ArtifactRef : Type 0 where
  pub id : String
  pub kind : String
  pub uri : String

pub record TaskEnvelope (Any F : Type 0) : Type 0 where
  pub task_id : String
  pub parent_task_id : String
  pub session_id : String
  pub trace_id : String
  pub goal : String
  pub assignee : String
  pub creator : String
  pub intent : String
  pub priority : String
  pub status : TaskStatus
  pub input : Dict Any
  pub constraints : Dict Any
  pub memory_refs : List (MemoryRef F)
  pub artifact_refs : List ArtifactRef
  pub created_at : ℕ
  pub updated_at : ℕ
  pub deadline_at : ℕ

pub record TaskError : Type 0 where
  pub code : String
  pub message : String

pub record EvidenceItem (F : Type 0) : Type 0 where
  pub source_type : String
  pub source_id : String
  pub title : String
  pub snippet : String
  pub score : F
  pub uri : String

pub record TaskResult (Any F : Type 0) : Type 0 where
  pub task_id : String
  pub agent : String
  pub status : ResultStatus
  pub summary : String
  pub confidence : F
  pub degradation_reason : String
  pub evidence : List (EvidenceItem F)
  pub artifact_refs : List ArtifactRef
  pub next_actions : List String
  pub metadata : Dict Any
  pub error : Option TaskError
  pub started_at : ℕ
  pub finished_at : ℕ

pub record TaskEvent (Any : Type 0) : Type 0 where
  pub event_id : String
  pub task_id : String
  pub trace_id : String
  pub kind : String
  pub agent : String
  pub message : String
  pub payload : Dict Any
  pub created_at : ℕ
