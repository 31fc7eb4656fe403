-- ===== src/Context/History.antt =====
-- `selectHistory` of internal/ai/contextengine/assembler_select.go and its helpers in
-- assembler_helpers.go. `M` stands for the messages of the model library, none of them nil.
use Prim.Native.String.{◌++◌ as join}
use ops_captain.Base.{
  ℕ, zero, suc, ◌+◌, ◌-◌, String, Bool, true, false, ◌&&◌, ◌||◌, not, none, some, List, [], ◌∷◌,
  ◌++◌, ltb, leb, ◌==◌, str_eq, if◌then◌else◌, length, get_elem?,
}
use ops_captain.Context.Items.{ContextProfile, ContextItem}

-- What the selection takes from elsewhere: a message's content, the estimate of its tokens, `%d`,
-- `strings.TrimSpace`, `strings.HasPrefix` and the float 0.
pub record Reading (M F : Type 0) : Type 0 where
  pub content : M → String
  pub estimate_tokens : String → ℕ
  pub decimal : ℕ → String
  pub trim_space : String → String
  pub has_prefix : String → String → Bool
  pub zero_score : F

-- `selectedIdx` by position, and the counters of the loop.
pub record Picked (F : Type 0) : Type 0 where
  pub flags : List Bool
  pub remaining : ℕ
  pub used : ℕ
  pub selected_count : ℕ
  pub dropped : List (ContextItem F)

-- `selectedIdx[idx]`; a missing key reads as false.
abbrev pub flag_at : ℕ → List Bool → Bool
flag_at idx [] = false
flag_at zero (f ∷ fs) = f
flag_at (suc idx) (f ∷ fs) = flag_at idx fs

abbrev pub set_flag : ℕ → List Bool → List Bool
set_flag idx [] = []
set_flag zero (f ∷ fs) = true ∷ fs
set_flag (suc idx) (f ∷ fs) = f ∷ set_flag idx fs

-- The messages whose flag is set.
abbrev pub flagged {ℓ} : {A : Type ℓ} → List Bool → List A → List A
flagged [] ms = []
flagged (f ∷ fs) [] = []
flagged (f ∷ fs) (m ∷ ms) = if f then m ∷ flagged fs ms else flagged fs ms

pub record HistorySelection (M F : Type 0) : Type 0 where
  pub selected : List M
  pub dropped : List (ContextItem F)
  pub used : ℕ

module _ {M F : Type 0} (x : Reading M F) where
  abbrev pub tokens : M → ℕ
  tokens m = x.estimate_tokens (x.content m)

  abbrev pub history_id : ℕ → String
  history_id idx = join "history-" (x.decimal idx)

  unfoldable pub new_dropped_history_item : ℕ → M → String → ContextItem F
  new_dropped_history_item idx m reason = record {
    id = history_id idx;
    source_type = "history";
    source_id = x.decimal idx;
    title = "";
    content = x.content m;
    score = x.zero_score;
    trust_level = "";
    token_estimate = tokens m;
    selected = false;
    dropped_reason = reason;
    timestamp = 0;
    freshness_score = x.zero_score;
    origin_agent = "";
    safety_label = "";
    update_policy = "";
    conflict_group = "";
    compression_level = "";
    scope = "";
    confidence = x.zero_score;
    provenance = "";
    expires_at = 0;
  }

  unfoldable pub contains_dropped_history : List (ContextItem F) → ℕ → Bool
  contains_dropped_history [] idx = false
  contains_dropped_history (item ∷ items) idx =
      str_eq item.id (history_id idx) || contains_dropped_history items idx

  unfoldable pub has_summary_prefix : M → Bool
  has_summary_prefix m = x.has_prefix (x.trim_space (x.content m)) "[对话历史摘要]"

  -- One round of the first loop, at position `idx`.
  unfoldable pub pick : ℕ → ℕ → M → Picked F → Picked F
  unfolding new_dropped_history_item
  pick max_messages idx m p =
      if leb max_messages p.selected_count
      then record p {
        flags = false ∷ p.flags;
        dropped = p.dropped ++ new_dropped_history_item idx m "history_window" ∷ [];
      }
      else if ltb p.remaining (tokens m)
      then record p {
        flags = false ∷ p.flags;
        dropped = p.dropped ++ new_dropped_history_item idx m "history_budget" ∷ [];
      }
      else record p {
        flags = true ∷ p.flags;
        remaining = p.remaining - tokens m;
        used = p.used + tokens m;
        selected_count = suc p.selected_count;
      }

  -- The first loop, from the last message back to the one at `idx`.
  unfoldable pub pick_back : (max_messages budget : ℕ) → ℕ → List M → Picked F
  unfolding pick
  pick_back max_messages budget idx [] = record {
    flags = [];
    remaining = budget;
    used = 0;
    selected_count = 0;
    dropped = [];
  }
  pick_back max_messages budget idx (m ∷ ms) =
      pick max_messages idx m (pick_back max_messages budget (suc idx) ms)

  -- The message at `idx` is selected after all, if it is there, is not selected yet, and fits.
  unfoldable pub keep_at : List M → ℕ → Picked F → Picked F
  keep_at history idx p = elim (get_elem? history idx) [
    | none ↦ p
    | some m ↦ if flag_at idx p.flags || ltb p.remaining (tokens m) then p else record p {
      flags = set_flag idx p.flags;
      remaining = p.remaining - tokens m;
      used = p.used + tokens m;
    }
  ]

  -- A summary at the start is kept if it still fits, and so is the reply to it.
  unfoldable pub keep_summary : List M → Picked F → Picked F
  unfolding keep_at has_summary_prefix
  keep_summary [] p = p
  keep_summary (m ∷ ms) p =
      if has_summary_prefix m && not (flag_at 0 p.flags)
      then keep_at (m ∷ ms) 1 (keep_at (m ∷ ms) 0 p)
      else p

  -- The last loop: what is neither selected nor reported yet is reported.
  unfoldable pub report_rest : ℕ → List M → List Bool → List (ContextItem F) → List (ContextItem F)
  unfolding contains_dropped_history new_dropped_history_item
  report_rest idx [] flags dropped = dropped
  report_rest idx (m ∷ ms) flags dropped = report_rest (suc idx) ms flags (
      if flag_at idx flags || contains_dropped_history dropped idx
      then dropped
      else dropped ++ new_dropped_history_item idx m "history_window" ∷ [])

  -- `selectHistory`; the notes are left out.
  unfoldable pub select_history : List M → ContextProfile F → HistorySelection M F
  unfolding pick_back keep_summary report_rest
  select_history history profile =
      let budget = profile.budget.history_tokens in
      let p = keep_summary history (pick_back profile.max_history_messages budget 0 history) in
      if length history == 0 || profile.max_history_messages == 0 || budget == 0
      then record { selected = []; dropped = []; used = 0 }
      else record {
        selected = flagged p.flags history;
        dropped = report_rest 0 history p.flags p.dropped;
        used = p.used;
      }
