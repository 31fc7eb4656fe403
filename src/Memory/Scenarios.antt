-- ===== src/Memory/Scenarios.antt =====
-- Runs of the memory of internal/ai/memory/long_term.go with room for two entries.
use ops_captain.Base.{ℕ, ◌<◌, String, [], arith, ltb, leb, ◌==◌, length}
use ops_captain.Base.Dict.{lookup}
use ops_captain.Base.Sort.{elem}
use ops_captain.Context.Items.{MemoryEntry}
use ops_captain.Memory.Store.{
  LongTermMemory, MemoryStoreOptions, Outside, Limits, evict_if_needed,
  normalize_memory_store_options,
}
use ops_captain.Memory.Indexed.{IsIndexed}
use ops_captain.Memory.Evicted.{evict_if_needed-below}
use ops_captain.Memory.Writes.{retire_entry, new_entry, store_with_options}
use ops_captain.Memory.Capacity.{IsKept, store_with_options-IsKept}

-- The identifier is the content, and the relevance the number of uses.
abbrev outside : Outside ℕ
outside = record {
  generate_id = λ scope scope_id content. content;
  trim_space = λ t. t;
  relevance = λ now e. e.access_count;
  less = ltb;
  same = λ a b. a == b;
  not_positive = λ n. leb n 0;
  above_one = λ n. ltb 100 n;
  one = 100;
  half = λ n. n;
  default_confidence = λ kind. 50;
}

abbrev two : Limits
two = record { max_entries = 2; max_per_session = 2 }

abbrev about_language : MemoryStoreOptions ℕ
about_language = record {
  scope = "user";
  scope_id = "u";
  confidence = 80;
  safety_label = "";
  provenance = "";
  conflict_group = "language";
  expires_at = 0;
}

abbrev empty : LongTermMemory ℕ
empty = record { entries = []; index = λ session. [] }

abbrev remember : LongTermMemory ℕ → String → ℕ → LongTermMemory ℕ
remember m content now =
    (store_with_options outside two m "s" "preference" content "chat" about_language now).0

empty-IsIndexed : IsIndexed empty
unfolding lookup elem
empty-IsIndexed = record {
  listed = λ id e h. absurd (ground arith);
  held = λ session id h. absurd (ground arith);
  distinct = λ session. tt;
}

remember-IsIndexed :
    (m : LongTermMemory ℕ) (content : String) (now : ℕ)
    → IsIndexed m
    → IsIndexed (remember m content now)
remember-IsIndexed m content now v =
    (store_with_options-IsKept outside two m "s" "preference" content "chat" about_language now
      (omega arith) (omega arith) v).indexed

abbrev both : LongTermMemory ℕ
both = remember (remember empty "answer in English" 1) "answer in French" 2

both-IsIndexed : IsIndexed both
both-IsIndexed =
    remember-IsIndexed (remember empty "answer in English" 1) "answer in French" 2
      (remember-IsIndexed empty "answer in English" 1 empty-IsIndexed)

evict_if_needed-below_example :
    let after = (evict_if_needed outside two 3 "s" both).0 in
    IsIndexed after × (length after.entries < 2) × (length (after.index "s") < 2)
evict_if_needed-below_example =
    evict_if_needed-below outside two 3 "s" both both-IsIndexed (omega arith) (omega arith)

store_with_options-IsKept_example :
    IsKept outside two "s" both
      (store_with_options outside two both "s" "fact" "the api is in Go" "chat" about_language 3).0
store_with_options-IsKept_example =
    store_with_options-IsKept outside two both "s" "fact" "the api is in Go" "chat" about_language 3
      (omega arith) (omega arith) both-IsIndexed

abbrev retired_first : MemoryEntry ℕ
retired_first = retire_entry outside 2 (
    new_entry outside "s" "preference" "answer in English" "chat" "answer in English"
      (normalize_memory_store_options outside "s" "preference" "chat" about_language) 1)
