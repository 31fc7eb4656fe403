-- ===== src/Memory/Writes.antt =====
-- The methods of internal/ai/memory/long_term.go that write, with `retireConflictingMemoriesLocked` of
-- long_term_eviction.go.
use ops_captain.Base.{
  ℕ, suc, String, Bool, true, false, not, ◌&&◌, none, some, List, [], ◌∷◌, ◌++◌, ltb, str_eq,
  if◌then◌else◌,
}
use ops_captain.Base.Dict.{Dict, lookup, insert}
use ops_captain.Context.Items.{MemoryEntry}
use ops_captain.Memory.Store.{
  LongTermMemory, MemoryStoreOptions, PendingChanges, Outside, Limits, put_ids, remove_entry,
  normalize_memory_store_options, clone_memory_entry, evict_if_needed,
}

module _ {F : Type 0} (o : Outside F) where
  -- An entry is in conflict with the memory `id` of the kind and options.
  unfoldable pub conflicts : String → String → MemoryStoreOptions F → String → MemoryEntry F → Bool
  conflicts id kind opts key e =
      not (str_eq key id)
      && (str_eq e.kind kind && str_eq e.conflict_group opts.conflict_group)
      && (str_eq e.scope opts.scope && str_eq e.scope_id opts.scope_id)

  unfoldable pub retire_entry : ℕ → MemoryEntry F → MemoryEntry F
  retire_entry now e = record e {
    safety_label = "superseded";
    expires_at = now;
    confidence = o.half e.confidence;
    updated_at = now;
  }

  -- The entries after the loop, and the clones of those that it retired.
  unfoldable pub retire_all :
      String → String → MemoryStoreOptions F → ℕ → Dict (MemoryEntry F) → Dict (MemoryEntry F)
  unfolding conflicts retire_entry
  retire_all id kind opts now [] = []
  retire_all id kind opts now ((key, e) ∷ entries) =
      let others = retire_all id kind opts now entries in
      if conflicts id kind opts key e then (key, retire_entry now e) ∷ others else (key, e) ∷ others

  unfoldable pub retired_clones :
      String → String → MemoryStoreOptions F → ℕ → Dict (MemoryEntry F) → List (MemoryEntry F)
  unfolding conflicts retire_entry clone_memory_entry
  retired_clones id kind opts now [] = []
  retired_clones id kind opts now ((key, e) ∷ entries) =
      let others = retired_clones id kind opts now entries in
      if conflicts id kind opts key e
      then clone_memory_entry o (retire_entry now e) e.relevance ∷ others
      else others

  unfoldable pub retire_conflicting :
      String
      → String
      → MemoryStoreOptions F
      → ℕ
      → LongTermMemory F
      → LongTermMemory F × List (MemoryEntry F)
  unfolding retire_all retired_clones
  retire_conflicting id kind opts now m = if str_eq opts.conflict_group "" then (m, []) else (
    record m { entries = retire_all id kind opts now m.entries },
    retired_clones id kind opts now m.entries,
  )

  -- The memory that is stored again.
  unfoldable pub reinforce : MemoryStoreOptions F → ℕ → MemoryEntry F → MemoryEntry F
  reinforce opts now e =
      let used = record e {
        access_count = suc e.access_count;
        updated_at = now;
        last_used = now;
        scope = opts.scope;
        scope_id = opts.scope_id;
        confidence = if o.less e.confidence opts.confidence then opts.confidence else e.confidence;
        safety_label = opts.safety_label;
        provenance = opts.provenance;
        conflict_group = opts.conflict_group;
        expires_at = if ltb 0 opts.expires_at then opts.expires_at else e.expires_at;
      } in
      record used { relevance = o.relevance now used }

  unfoldable pub new_entry :
      (session_id kind content source id : String) → MemoryStoreOptions F → ℕ → MemoryEntry F
  new_entry session_id kind content source id opts now = record {
    id = id;
    session_id = session_id;
    kind = kind;
    content = content;
    source = source;
    scope = opts.scope;
    scope_id = opts.scope_id;
    confidence = opts.confidence;
    safety_label = opts.safety_label;
    provenance = opts.provenance;
    conflict_group = opts.conflict_group;
    expires_at = opts.expires_at;
    relevance = o.one;
    access_count = 1;
    created_at = now;
    updated_at = now;
    last_used = now;
  }

  -- The identifier that `StoreWithOptions` gives to a memory with normalized options.
  abbrev pub memory_id : MemoryStoreOptions F → String → String
  memory_id opts content = o.generate_id opts.scope opts.scope_id content

  unfoldable pub store_existing :
      MemoryStoreOptions F
      → (id kind : String) → ℕ
      → MemoryEntry F
      → LongTermMemory F
      → LongTermMemory F × PendingChanges F
  unfolding reinforce retire_conflicting clone_memory_entry
  store_existing opts id kind now existing m =
      let e = reinforce opts now existing in
      let after =
        retire_conflicting id kind opts now (record m { entries = insert id e m.entries }) in
      (after.0, record { upserts = clone_memory_entry o e e.relevance ∷ after.1; deletes = [] })

  unfoldable pub store_new :
      Limits
      → MemoryStoreOptions F
      → (session_id id kind : String) → ℕ
      → MemoryEntry F
      → LongTermMemory F
      → LongTermMemory F × PendingChanges F
  unfolding evict_if_needed retire_conflicting clone_memory_entry
  store_new limits opts session_id id kind now e m =
      let evicted = evict_if_needed o limits now session_id m in
      let retired = retire_conflicting id kind opts now evicted.0 in
      (
        record {
          entries = insert id e retired.0.entries;
          index = put_ids retired.0.index session_id (retired.0.index session_id ++ id ∷ []);
        },
        record { upserts = clone_memory_entry o e e.relevance ∷ retired.1; deletes = evicted.1 },
      )

  -- `StoreWithOptions`; the options are normalized first.
  unfoldable pub store_normalized :
      Limits
      → LongTermMemory F
      → (session_id kind content source : String) → MemoryStoreOptions F
      → ℕ
      → LongTermMemory F × PendingChanges F
  unfolding store_existing store_new new_entry
  store_normalized limits m session_id kind content source opts now =
      let id = memory_id opts content in
      let e = new_entry session_id kind content source id opts now in
      elim (lookup id m.entries) [
        | some existing ↦ store_existing opts id kind now existing m
        | none ↦ store_new limits opts session_id id kind now e m
      ]

  unfoldable pub store_with_options :
      Limits
      → LongTermMemory F
      → (session_id kind content source : String) → MemoryStoreOptions F
      → ℕ
      → LongTermMemory F × PendingChanges F
  unfolding store_normalized normalize_memory_store_options
  store_with_options limits m session_id kind content source opts now =
      store_normalized limits m session_id kind content source
        (normalize_memory_store_options o session_id kind source opts) now

  unfoldable pub delete : LongTermMemory F → String → LongTermMemory F × Bool
  unfolding remove_entry
  delete m id = elim (lookup id m.entries) [
    | none ↦ (m, false)
    | some e ↦ (remove_entry m id, true)
  ]

  unfoldable pub disable : LongTermMemory F → String → ℕ → LongTermMemory F × Bool
  disable m id now = elim (lookup id m.entries) [
    | none ↦ (m, false)
    | some e ↦ (
      record m {
        entries =
            insert id (record e { safety_label = "disabled"; expires_at = now; updated_at = now })
              m.entries;
      },
      true,
    )
  ]

  unfoldable pub promoted : (scope scope_id : String) → F → ℕ → MemoryEntry F → MemoryEntry F
  promoted scope scope_id confidence now e =
      let moved : String =
        if str_eq (o.trim_space scope_id) "" then e.scope_id else o.trim_space scope_id in
      record e {
        scope = if str_eq scope "" then e.scope else scope;
        scope_id = if str_eq moved "" then e.session_id else moved;
        confidence =
            if o.not_positive confidence
            then e.confidence
            else if o.above_one confidence
            then o.one
            else confidence;
        safety_label = "internal";
        updated_at = now;
        last_used = now;
      }

  unfoldable pub promote :
      LongTermMemory F → (id scope scope_id : String) → F → ℕ → LongTermMemory F × Bool
  unfolding promoted
  promote m id scope scope_id confidence now = elim (lookup id m.entries) [
    | none ↦ (m, false)
    | some e ↦ (
      record m { entries = insert id (promoted scope scope_id confidence now e) m.entries },
      true,
    )
  ]
