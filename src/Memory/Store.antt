-- ===== src/Memory/Store.antt =====
-- The long-term memory of internal/ai/memory/long_term.go, long_term_eviction.go and long_term_helpers.go.
-- Every method holds the mutex throughout, and what it hands to the persistent store is its result. A key
-- that the index does not have is one with the empty list.
use ops_captain.Base.{
  ℕ, zero, suc, String, Bool, true, false, ◌&&◌, Option, none, some, List, [], ◌∷◌, ◌++◌, ltb, leb,
  str_eq, if◌then◌else◌, length, map,
}
use ops_captain.Base.Dict.{Dict, lookup, erase}
use ops_captain.Base.Sort.{sort, remove_first}
use ops_captain.Context.Items.{MemoryEntry}

pub record LongTermMemory (F : Type 0) : Type 0 where
  pub entries : Dict (MemoryEntry F)
  pub index : String → List String

pub record MemoryStoreOptions (F : Type 0) : Type 0 where
  pub scope : String
  pub scope_id : String
  pub confidence : F
  pub safety_label : String
  pub provenance : String
  pub conflict_group : String
  pub expires_at : ℕ

pub record PendingChanges (F : Type 0) : Type 0 where
  pub upserts : List (MemoryEntry F)
  pub deletes : List String

-- SHA-256, `strings.TrimSpace` and the operations on floats; `relevance now e` is `computeRelevance`, a
-- float, and `default_confidence` the constant of a type.
pub record Outside (F : Type 0) : Type 0 where
  pub generate_id : (scope scope_id content : String) → String
  pub trim_space : String → String
  pub relevance : ℕ → MemoryEntry F → F
  pub less : F → F → Bool
  pub same : F → F → Bool
  pub not_positive : F → Bool
  pub above_one : F → Bool
  pub one : F
  pub half : F → F
  pub default_confidence : String → F

-- The two limits of the configuration, where positive.
pub record Limits : Type 0 where
  pub max_entries : ℕ
  pub max_per_session : ℕ

abbrev limit_of : Option ℕ → ℕ → ℕ
limit_of none default = default
limit_of (some n) default = if ltb 0 n then n else default

unfoldable pub load_limits : Option ℕ → Option ℕ → Limits
load_limits entries per_session = record {
  max_entries = limit_of entries 1000;
  max_per_session = limit_of per_session 100;
}

abbrev pub put_ids : (String → List String) → String → List String → String → List String
put_ids index session ids other = if str_eq session other then ids else index other

module _ {F : Type 0} where
  unfoldable pub remove_entry : LongTermMemory F → String → LongTermMemory F
  remove_entry m id = elim (lookup id m.entries) [
    | none ↦ m
    | some e ↦ record {
      entries = erase id m.entries;
      index = put_ids m.index e.session_id (remove_first id (m.index e.session_id));
    }
  ]

  -- `evictOneLocked` on candidates that have been sorted.
  unfoldable pub evict_first : LongTermMemory F → List String → LongTermMemory F × List String
  unfolding remove_entry
  evict_first m [] = (m, [])
  evict_first m (id ∷ ids) = (remove_entry m id, if str_eq id "" then [] else id ∷ [])

  abbrev pub keys : Dict (MemoryEntry F) → List String
  keys = map (λ e. e.0)

module _ {F : Type 0} (o : Outside F) where
  unfoldable pub normalize_memory_store_options :
      (session_id kind source : String) → MemoryStoreOptions F → MemoryStoreOptions F
  normalize_memory_store_options session_id kind source opts =
      let scope : String = if str_eq opts.scope "" then "session" else opts.scope in
      let confidence : F =
        if o.not_positive opts.confidence then o.default_confidence kind else opts.confidence in
      record {
        scope = scope;
        scope_id =
            if str_eq (o.trim_space opts.scope_id) ""
            then if str_eq scope "global" then "global" else session_id
            else opts.scope_id;
        confidence = if o.above_one confidence then o.one else confidence;
        safety_label = if str_eq opts.safety_label "" then "internal" else opts.safety_label;
        provenance = if str_eq opts.provenance "" then source else opts.provenance;
        conflict_group = o.trim_space opts.conflict_group;
        expires_at = opts.expires_at;
      }

  unfoldable pub clone_memory_entry : MemoryEntry F → F → MemoryEntry F
  clone_memory_entry e relevance =
      let scope : String = if str_eq e.scope "" then "session" else e.scope in
      record e {
        scope = scope;
        scope_id =
            if str_eq (o.trim_space e.scope_id) ""
            then if str_eq scope "global" then "global" else e.session_id
            else o.trim_space e.scope_id;
        confidence =
            if o.not_positive e.confidence then o.default_confidence e.kind else e.confidence;
        safety_label = if str_eq e.safety_label "" then "internal" else e.safety_label;
        provenance = if str_eq e.provenance "" then e.source else e.provenance;
        relevance = relevance;
      }

  -- The order in which entries are evicted: by relevance, then by last use; missing entries last.
  unfoldable pub evicts_before : ℕ → Dict (MemoryEntry F) → String → String → Bool
  evicts_before now entries left right = elim (lookup left entries) [
    | none ↦ false
    | some l ↦ elim (lookup right entries) [
      | none ↦ true
      | some r ↦
          if o.same (o.relevance now l) (o.relevance now r)
          then ltb l.last_used r.last_used
          else o.less (o.relevance now l) (o.relevance now r)
    ]
  ]

  -- The two loops of `evictIfNeededLocked` on fuel, with the identifiers evicted so far. Sorting the
  -- candidates of a session sorts its list in the index.
  unfoldable pub evict_session :
      ℕ → ℕ → ℕ → String → LongTermMemory F → List String → LongTermMemory F × List String
  unfolding evicts_before evict_first
  evict_session zero limit now session m evicted = (m, evicted)
  evict_session (suc fuel) limit now session m evicted =
      let sorted = sort (evicts_before now m.entries) (m.index session) in
      let after = evict_first (record m { index = put_ids m.index session sorted }) sorted in
      let rest = evict_session fuel limit now session after.0 (evicted ++ after.1) in
      if ltb 0 limit && leb limit (length (m.index session)) then rest else (m, evicted)

  unfoldable pub evict_any :
      ℕ → ℕ → ℕ → LongTermMemory F → List String → LongTermMemory F × List String
  unfolding evicts_before evict_first
  evict_any zero limit now m evicted = (m, evicted)
  evict_any (suc fuel) limit now m evicted =
      let after = evict_first m (sort (evicts_before now m.entries) (keys m.entries)) in
      let rest = evict_any fuel limit now after.0 (evicted ++ after.1) in
      if ltb 0 limit && leb limit (length m.entries) then rest else (m, evicted)

  -- Every round evicts an entry, so there are no more rounds than entries.
  unfoldable pub evict_if_needed :
      Limits → ℕ → String → LongTermMemory F → LongTermMemory F × List String
  unfolding evict_session evict_any
  evict_if_needed limits now session m =
      let fuel = length (m.index session) in
      let after = evict_session fuel limits.max_per_session now session m [] in
      evict_any (length after.0.entries) limits.max_entries now after.0 after.1
