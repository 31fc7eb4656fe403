-- ===== src/Context/Items.antt =====
-- The profile and the items of internal/ai/contextengine/types.go, and the entries of
-- internal/ai/memory/long_term.go that items are made of. `F` stands for the floating-point numbers.
-- Limits and budgets are numbers; the code's profiles have no negative ones.
use ops_captain.Base.{ℕ, String, Bool, List}

pub record ContextBudget : Type 0 where
  pub max_total_tokens : ℕ
  pub system_tokens : ℕ
  pub history_tokens : ℕ
  pub memory_tokens : ℕ
  pub document_tokens : ℕ
  pub tool_tokens : ℕ
  pub reserved_tokens : ℕ

pub record ContextProfile (F : Type 0) : Type 0 where
  pub name : String
  pub allow_history : Bool
  pub allow_memory : Bool
  pub allow_docs : Bool
  pub allow_tool_results : Bool
  pub staged : Bool
  pub max_history_messages : ℕ
  pub max_memory_items : ℕ
  pub max_tool_items : ℕ
  pub min_memory_confidence : F
  pub allowed_memory_scopes : List String
  pub budget : ContextBudget

pub record ContextItem (F : Type 0) : Type 0 where
  pub id : String
  pub source_type : String
  pub source_id : String
  pub title : String
  pub content : String
  pub score : F
  pub trust_level : String
  pub token_estimate : ℕ
  pub selected : Bool
  pub dropped_reason : String
  pub timestamp : ℕ
  pub freshness_score : F
  pub origin_agent : String
  pub safety_label : String
  pub update_policy : String
  pub conflict_group : String
  pub compression_level : String
  pub scope : String
  pub confidence : F
  pub provenance : String
  pub expires_at : ℕ

pub record MemoryEntry (F : Type 0) : Type 0 where
  pub id : String
  pub session_id : String
  pub kind : String
  pub content : String
  pub source : String
  pub scope : String
  pub scope_id : String
  pub confidence : F
  pub safety_label : String
  pub provenance : String
  pub conflict_group : String
  pub expires_at : ℕ
  pub relevance : F
  pub access_count : ℕ
  pub created_at : ℕ
  pub updated_at : ℕ
  pub last_used : ℕ
