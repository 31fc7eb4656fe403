-- ===== src/Memory/Capacity.antt =====
-- Storing a memory, as internal/ai/memory/long_term.go does it: the index and the limits; and what storing
-- a memory again does to it and to the others of its conflict group.
use ops_captain.Base.{
  ℕ, ◌+◌, ◌≤◌, ◌<◌, ◌≡◌, refl, ◌⊎◌, inl, inr, String, true, false, none, some, [], ◌∷◌, arith,
  length, length-append, Option-cases, eq_iff,
}
use ops_captain.Base.Dict.{lookup, insert, length-insert}
use ops_captain.Context.Items.{MemoryEntry}
use ops_captain.Memory.Store.{
  LongTermMemory, MemoryStoreOptions, Outside, Limits, evict_if_needed,
  normalize_memory_store_options,
}
use ops_captain.Memory.Indexed.{IsIndexed}
use ops_captain.Memory.Evicted.{evict_if_needed-below}
use ops_captain.Memory.Writes.{
  retire_conflicting, reinforce, new_entry, store_existing, store_new, store_normalized,
  store_with_options, memory_id,
}
use ops_captain.Memory.Stored.{evict_if_needed-none}
use ops_captain.Memory.Kept.{
  retire-lookup, retire-index, retire-IsIndexed, replace-IsIndexed, add-IsIndexed,
}

module _ {F : Type 0} (o : Outside F) where
  -- The index agrees, and neither the entries nor those of the session are over their limit, if they were not.
  pub record IsKept (limits : Limits) (session : String) (before after : LongTermMemory F)
      : Type 0 where
    pub indexed : IsIndexed after
    pub total :
        length before.entries ≤ limits.max_entries → length after.entries ≤ limits.max_entries
    pub per_session :
        length (before.index session) ≤ limits.max_per_session
        → length (after.index session) ≤ limits.max_per_session

  existing-IsKept :
      (limits : Limits) (opts : MemoryStoreOptions F) (session id kind : String) (now : ℕ)
      (e : MemoryEntry F) (m : LongTermMemory F)
      → IsIndexed m
      → lookup id m.entries ≡ some e
      → IsKept limits session m (store_existing o opts id kind now e m).0
  unfolding store_existing reinforce
  existing-IsKept limits opts session id kind now e m v found =
      let x = reinforce o opts now e in
      let entered : LongTermMemory F = record m { entries = insert id x m.entries } in
      let (same, size) = retire-index o id kind opts now entered in
      record {
        indexed =
            retire-IsIndexed o id kind opts now entered (replace-IsIndexed o m id e x v found refl);
        total = λ h. ground (arith, h, size, found, length-insert id x m.entries);
        per_session = λ h. ground (arith, h, same);
      }

  new-IsKept :
      (limits : Limits) (opts : MemoryStoreOptions F) (id kind : String) (now : ℕ)
      (x : MemoryEntry F) (m : LongTermMemory F)
      → 0 < limits.max_entries
      → 0 < limits.max_per_session
      → IsIndexed m
      → lookup id m.entries ≡ none
      → IsKept limits x.session_id m (store_new o limits opts x.session_id id kind now x m).0
  unfolding store_new
  new-IsKept limits opts id kind now x m some_entries some_session v fresh =
      let session = x.session_id in
      let evicted = (evict_if_needed o limits now session m).0 in
      let (w, fewer, shorter) =
        evict_if_needed-below o limits now session m v some_entries some_session in
      let retired = (retire_conflicting o id kind opts now evicted).0 in
      let (same, size) = retire-index o id kind opts now evicted in
      let absent : lookup id retired.entries ≡ none = ground (
        arith,
        evict_if_needed-none o limits now session m id fresh,
        retire-lookup o id kind opts now evicted id,
      ) in
      record {
        indexed =
            add-IsIndexed o retired id x (retire-IsIndexed o id kind opts now evicted w) absent;
        total = λ h. ground (arith, fewer, size, length-insert id x retired.entries);
        per_session = λ h. ground (
          arith,
          shorter,
          same,
          length-append (evicted.index session) (id ∷ []),
          eq_iff session session,
        );
      }

  -- Storing a memory, with positive limits and an index that agrees with the entries: the index agrees
  -- again, and neither the number of entries nor that of the session's exceeds its limit, if it did not
  -- before.
  pub store_with_options-IsKept :
      (limits : Limits) (m : LongTermMemory F) (session kind content source : String)
      (opts : MemoryStoreOptions F) (now : ℕ)
      → 0 < limits.max_entries
      → 0 < limits.max_per_session
      → IsIndexed m
      → IsKept limits session m
          (store_with_options o limits m session kind content source opts now).0
  unfolding store_with_options store_normalized new_entry
  store_with_options-IsKept limits m session kind content source given now some_entries some_session
        v =
      let opts = normalize_memory_store_options o session kind source given in
      let id = memory_id o opts content in
      elim (Option-cases (lookup id m.entries)) [
        | inl missing ↦
            rw (missing, store_normalized)
              (new-IsKept limits opts id kind now
                (new_entry o session kind content source id opts now) m some_entries some_session v
                missing)
        | inr (e, found) ↦
            rw (found, store_normalized)
              (existing-IsKept limits opts session id kind now e m v found)
      ]

  -- What storing it again changes in a memory, and what it leaves.
  pub record IsReinforced (opts : MemoryStoreOptions F) (now : ℕ) (e x : MemoryEntry F)
      : Type 0 where
    pub scope : x.scope ≡ opts.scope
    pub scope_id : x.scope_id ≡ opts.scope_id
    pub safety_label : x.safety_label ≡ opts.safety_label
    pub provenance : x.provenance ≡ opts.provenance
    pub conflict_group : x.conflict_group ≡ opts.conflict_group
    pub confidence :
        ((o.less e.confidence opts.confidence ≡ true) × (x.confidence ≡ opts.confidence))
        ⊎ ((o.less e.confidence opts.confidence ≡ false) × (x.confidence ≡ e.confidence))
    pub access_count : x.access_count ≡ e.access_count + 1
    pub updated_at : x.updated_at ≡ now
    pub last_used : x.last_used ≡ now
    pub created_at : x.created_at ≡ e.created_at
    pub content : x.content ≡ e.content
    pub session_id : x.session_id ≡ e.session_id
