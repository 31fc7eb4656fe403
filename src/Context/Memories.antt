-- ===== src/Context/Memories.antt =====
-- `selectMemories` of internal/ai/contextengine/assembler_select.go and its helpers in
-- assembler_helpers.go.
use ops_captain.Base.{
  ℕ, suc, ◌+◌, ◌-◌, String, Bool, true, false, ◌&&◌, ◌||◌, not, Option, none, some, List, [], ◌∷◌,
  ltb, leb, ◌==◌, str_eq, if◌then◌else◌, length,
}
use ops_captain.Context.Items.{ContextProfile, ContextItem, MemoryEntry}

-- What the selection takes from elsewhere: the estimate of a text's tokens, the freshness of a point
-- in time, the order of confidences, zero, and a label trimmed and in lower case.
pub record Measures (F : Type 0) : Type 0 where
  pub estimate_tokens : String → ℕ
  pub freshness : ℕ → F
  pub below : F → F → Bool
  pub zero_score : F
  pub trim_lower : String → String

-- The items chosen, the items dropped, and the tokens that the chosen ones take.
pub record Selection (F : Type 0) : Type 0 where
  pub selected : List (ContextItem F)
  pub dropped : List (ContextItem F)
  pub used : ℕ

pub is_one_of : String → List String → Bool
is_one_of s [] = false
is_one_of s (c ∷ cs) = str_eq c s || is_one_of s cs

module _ {F : Type 0} (x : Measures F) where
  -- `newMemoryItem`, with `memoryTrustLevel`
  abbrev pub new_memory_item : MemoryEntry F → ContextItem F
  new_memory_item entry = record {
    id = entry.id;
    source_type = "memory";
    source_id = entry.session_id;
    title = entry.kind;
    content = entry.content;
    score = entry.relevance;
    trust_level = if str_eq entry.safety_label "" then "internal" else entry.safety_label;
    token_estimate = x.estimate_tokens entry.content;
    selected = false;
    dropped_reason = "";
    timestamp = entry.updated_at;
    freshness_score = x.freshness entry.last_used;
    origin_agent = "";
    safety_label = entry.safety_label;
    update_policy = "";
    conflict_group = "";
    compression_level = "";
    scope = entry.scope;
    confidence = entry.confidence;
    provenance = entry.provenance;
    expires_at = entry.expires_at;
  }

  abbrev pub memory_item_expired : ContextItem F → ℕ → Bool
  memory_item_expired item now = ltb 0 item.expires_at && leb item.expires_at now

  unfoldable pub memory_scope_allowed : String → List String → Bool
  unfolding is_one_of
  memory_scope_allowed scope allowed =
      let scope' = if str_eq scope "" then "session" else scope in
      if length allowed == 0 then true else is_one_of scope' allowed

  unfoldable pub memory_safety_allowed : String → Bool
  unfolding is_one_of
  memory_safety_allowed label =
      is_one_of (x.trim_lower label) ("" ∷ "internal" ∷ "trusted_internal" ∷ "safe" ∷ [])

  -- The checks that look at the item alone, in the order of the loop: why it is dropped, if it is.
  unfoldable pub unfit : ContextProfile F → ℕ → ContextItem F → Option String
  unfit profile now item =
      if memory_item_expired item now
      then some "memory_expired"
      else if not (memory_scope_allowed item.scope profile.allowed_memory_scopes)
      then some "memory_scope"
      else if x.below item.confidence profile.min_memory_confidence
      then some "memory_confidence"
      else if not (memory_safety_allowed item.safety_label)
      then some "memory_safety"
      else none

  -- All the checks of one round of the loop.
  unfoldable pub drop_reason :
      ContextProfile F → ℕ → (remaining selected_count : ℕ) → ContextItem F → Option String
  drop_reason profile now remaining selected_count item = elim (unfit profile now item) [
    | some reason ↦ some reason
    | none ↦
        if leb profile.max_memory_items selected_count
        then some "memory_window"
        else if ltb remaining item.token_estimate
        then some "memory_budget"
        else none
  ]

  -- The loop, from the tokens that remain and the number selected so far.
  unfoldable pub select_from :
      ContextProfile F → ℕ → (remaining selected_count : ℕ) → List (MemoryEntry F) → Selection F
  select_from profile now remaining selected_count [] = record {
    selected = [];
    dropped = [];
    used = 0;
  }
  select_from profile now remaining selected_count (entry ∷ entries) =
      let item = new_memory_item entry in
      elim (drop_reason profile now remaining selected_count item) [
        | some reason ↦
            let rest = select_from profile now remaining selected_count entries in
            record rest { dropped = record item { dropped_reason = reason } ∷ rest.dropped }
        | none ↦
            let rest =
              select_from profile now (remaining - item.token_estimate) (suc selected_count)
                entries in
            record rest {
              selected = record item { selected = true } ∷ rest.selected;
              used = item.token_estimate + rest.used;
            }
      ]

  -- `selectMemories`; the notes are left out.
  unfoldable pub select_memories : List (MemoryEntry F) → ContextProfile F → ℕ → Selection F
  select_memories entries profile now =
      if length entries == 0 || profile.max_memory_items == 0 || profile.budget.memory_tokens == 0
      then record { selected = []; dropped = []; used = 0 }
      else select_from profile now profile.budget.memory_tokens 0 entries
