-- ===== src/Belief/Types.antt =====
-- The data of internal/ai/belief/types.go. `F` stands for the floating-point scores. Levels, steps
-- and limits are numbers; a limit of 0 stands for every limit that is not positive.
use ops_captain.Base.{ℕ, String, Option}
use ops_captain.Base.Dict.{Dict}

pub data NodeType : Type 0 where
  signal evidence hypothesis : NodeType

pub data EdgeType : Type 0 where
  support refute refines causal : EdgeType

pub data NodeStatus : Type 0 where
  active retracted superseded : NodeStatus

-- A value of `Attrs`: a text, a point in time, or any other value of the callers'.
pub data AttrValue : Type 0 where
  text : String → AttrValue
  instant : ℕ → AttrValue
  other_value : ℕ → AttrValue

pub record EvidenceSource (F : Type 0) : Type 0 where
  pub source_type : String
  pub source_id : String
  pub tool_name : String
  pub retrieval_query : String
  pub timestamp : ℕ
  pub summary_snippet : String
  pub artifact_ref : String
  pub relation : String
  pub target_hypothesis_id : String
  pub strength : F

-- A nil `Attrs` and an empty one are read and written alike.
pub record Node (F : Type 0) : Type 0 where
  pub id : String
  pub kind : NodeType
  pub label : String
  pub score : F
  pub status : NodeStatus
  pub level : ℕ
  pub attrs : Dict AttrValue
  pub source : Option (EvidenceSource F)
  pub retracted_by : String
  pub superseded_by : String
  pub retracted_at : Option ℕ
  pub step_id : String

pub record Edge (F : Type 0) : Type 0 where
  pub src : String
  pub dst : String
  pub kind : EdgeType
  pub status : NodeStatus
  pub confidence : F
  pub derivation_type : String
  pub extractor_version : String
  pub step_id : String
  pub retracted_by : String
  pub retracted_at : Option ℕ

pub record Frontier (F : Type 0) : Type 0 where
  pub node_id : String
  pub label : String
  pub why : String
  pub score : F
  pub level : ℕ
  pub supports : ℕ
  pub refutes : ℕ

pub record LevelNode (F : Type 0) : Type 0 where
  pub node_id : String
  pub confidence : F

pub record GraphSnapshot (F : Type 0) : Type 0 where
  pub step_id : String
  pub timestamp : ℕ
  pub action : String
  pub nodes : Dict (Node F)
  pub edges : Dict (Edge F)

pub record GraphDelta (F : Type 0) : Type 0 where
  pub step_id : String
  pub timestamp : ℕ
  pub action : String
  pub upsert_nodes : Dict (Node F)
  pub upsert_edges : Dict (Edge F)

pub record GraphPolicy : Type 0 where
  pub checkpoint_interval : ℕ
  pub max_nodes : ℕ
  pub max_edges : ℕ
  pub max_depth : ℕ
  pub max_snapshots : ℕ
  pub max_deltas : ℕ

pub record GraphResourceLimitError : Type 0 where
  pub resource : String
  pub limit : ℕ
  pub actual : ℕ

pub data FsmState : Type 0 where
  state_drilling state_reporting state_done : FsmState

pub record FsmTransition : Type 0 where
  pub from : FsmState
  pub to : FsmState
  pub from_level : ℕ
  pub to_level : ℕ
  pub reason : String
  pub step_id : String

pub record FsmThresholds (F : Type 0) : Type 0 where
  pub gap_delta : F
  pub min_support : ℕ
  pub max_steps : ℕ
