-- ===== src/Context/Scenarios.antt =====
-- Runs of the selections of internal/ai/contextengine, with a token for each letter.
use Prim.Native.String.{count}
use ops_captain.Base.{
  ℕ, ◌+◌, ◌≤◌, ◌≡◌, refl, String, true, false, List, [], ◌∷◌, length, ltb, str_eq,
}
use ops_captain.Context.Items.{ContextProfile, MemoryEntry}
use ops_captain.Context.Memories.{
  Measures, select_memories, select_from, drop_reason, unfit, memory_scope_allowed,
  memory_safety_allowed,
}
use ops_captain.Context.History.{
  Reading, select_history, has_summary_prefix, keep_summary, keep_at, pick_back, pick,
}
use ops_captain.Context.Window.{tokens_of, summary_allowance, select_history-within}

abbrev measures : Measures ℕ
measures = record {
  estimate_tokens = count;
  freshness = λ t. 1;
  below = λ a b. ltb a b;
  zero_score = 0;
  trim_lower = λ s. s;
}

abbrev profile : ContextProfile ℕ
profile = record {
  name = "chat";
  allow_history = true;
  allow_memory = true;
  allow_docs = false;
  allow_tool_results = false;
  staged = false;
  max_history_messages = 2;
  max_memory_items = 3;
  max_tool_items = 0;
  min_memory_confidence = 50;
  allowed_memory_scopes = "session" ∷ "user" ∷ [];
  budget = record {
    max_total_tokens = 100;
    system_tokens = 0;
    history_tokens = 12;
    memory_tokens = 20;
    document_tokens = 0;
    tool_tokens = 0;
    reserved_tokens = 0;
  };
}

abbrev entry : String → String → ℕ → ℕ → MemoryEntry ℕ
entry content scope confidence expires_at = record {
  id = content;
  session_id = "s";
  kind = "fact";
  content = content;
  source = "user";
  scope = scope;
  scope_id = "";
  confidence = confidence;
  safety_label = "";
  provenance = "";
  conflict_group = "";
  expires_at = expires_at;
  relevance = 1;
  access_count = 0;
  created_at = 1;
  updated_at = 2;
  last_used = 3;
}

abbrev entries : List (MemoryEntry ℕ)
entries = entry "db is v15" "user" 80 0 ∷ entry "old" "" 90 5 ∷ entry "vip" "session" 20 0 ∷ []

one_fits : length (select_memories measures entries profile 9).selected ≡ 1
unfolding select_memories select_from drop_reason unfit memory_scope_allowed memory_safety_allowed
one_fits = refl

-- A message is its content.
abbrev reading : Reading String ℕ
reading = record {
  content = λ s. s;
  estimate_tokens = count;
  decimal = λ n. "";
  trim_space = λ s. s;
  has_prefix = λ s p. str_eq s p;
  zero_score = 0;
}

abbrev history : List String
history = "[对话历史摘要]" ∷ "ok" ∷ "a" ∷ "b" ∷ []

select_history-within_example :
    let s = select_history reading history profile in
    (tokens_of reading s.selected ≡ s.used)
    × (s.used ≤ 12)
    × (length s.selected ≤ 2 + summary_allowance reading history)
select_history-within_example = select_history-within reading history profile

-- The summary and its reply come on top of the two messages of the profile.
four_selected : (select_history reading history profile).selected ≡ history
unfolding select_history keep_summary keep_at has_summary_prefix pick_back pick
four_selected = refl
