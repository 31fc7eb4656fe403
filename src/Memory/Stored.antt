-- ===== src/Memory/Stored.antt =====
-- What `StoreWithOptions` of internal/ai/memory/long_term.go does to the memory.
use ops_captain.Base.{
  ℕ, zero, suc, ◌≡◌, refl, inl, inr, String, none, some, List, [], ◌∷◌, ◌++◌, arith, if◌then◌else◌,
  length, Option-cases, eq_iff,
}
use ops_captain.Base.Dict.{Dict, lookup, lookup-erase}
use ops_captain.Base.Sort.{sort}
use ops_captain.Context.Items.{MemoryEntry}
use ops_captain.Memory.Store.{
  LongTermMemory, MemoryStoreOptions, Outside, Limits, put_ids, keys, remove_entry, evicts_before,
  evict_first, evict_session, evict_any, evict_if_needed,
}
use ops_captain.Memory.Writes.{conflicts, retire_entry, retire_all}

module _ {F : Type 0} (o : Outside F) where
  -- Retiring keeps every key and session.
  pub retire_all-lookup :
      (id kind : String) (opts : MemoryStoreOptions F) (now : ℕ) (entries : Dict (MemoryEntry F))
      (k : String)
      → lookup k (retire_all o id kind opts now entries) ≡ elim (lookup k entries) [
        | none ↦ none
        | some e ↦ some (if conflicts o id kind opts k e then retire_entry o now e else e)
      ]
  unfolding retire_all lookup
  retire_all-lookup id kind opts now [] k = refl
  retire_all-lookup id kind opts now ((key, e) ∷ entries) k =
      ground (arith, retire_all-lookup id kind opts now entries k, eq_iff key k)

  pub retire_all-length :
      (id kind : String) (opts : MemoryStoreOptions F) (now : ℕ) (entries : Dict (MemoryEntry F))
      → length (retire_all o id kind opts now entries) ≡ length entries
  unfolding retire_all
  retire_all-length id kind opts now [] = refl
  retire_all-length id kind opts now ((key, e) ∷ entries) =
      ground (arith, retire_all-length id kind opts now entries)

  -- Nothing is entered by eviction.
  remove_entry-none :
      (m : LongTermMemory F) (id k : String)
      → lookup k m.entries ≡ none
      → lookup k (remove_entry m id).entries ≡ none
  unfolding remove_entry
  remove_entry-none m id k h = elim (Option-cases (lookup id m.entries)) [
    | inl e ↦ ground (arith, e, h)
    | inr (x, e) ↦ ground (arith, e, h, lookup-erase id k m.entries)
  ]

  evict_first-none :
      (m : LongTermMemory F) (ids : List String) (k : String)
      → lookup k m.entries ≡ none
      → lookup k (evict_first m ids).0.entries ≡ none
  unfolding evict_first
  evict_first-none m [] k h = h
  evict_first-none m (id ∷ ids) k h = remove_entry-none m id k h

  evict_session-none :
      (fuel limit now : ℕ) (session : String) (m : LongTermMemory F) (evicted : List String)
      (k : String)
      → lookup k m.entries ≡ none
      → lookup k (evict_session o fuel limit now session m evicted).0.entries ≡ none
  unfolding evict_session
  evict_session-none zero limit now session m evicted k h = h
  evict_session-none (suc fuel) limit now session m evicted k h =
      let sorted = sort (evicts_before o now m.entries) (m.index session) in
      let arranged : LongTermMemory F = record {
        entries = m.entries;
        index = put_ids m.index session sorted;
      } in
      let next = evict_first arranged sorted in
      ground (
        arith,
        h,
        evict_session-none fuel limit now session next.0 (evicted ++ next.1) k
            (evict_first-none arranged sorted k h),
      )

  evict_any-none :
      (fuel limit now : ℕ) (m : LongTermMemory F) (evicted : List String) (k : String)
      → lookup k m.entries ≡ none
      → lookup k (evict_any o fuel limit now m evicted).0.entries ≡ none
  unfolding evict_any
  evict_any-none zero limit now m evicted k h = h
  evict_any-none (suc fuel) limit now m evicted k h =
      let sorted = sort (evicts_before o now m.entries) (keys m.entries) in
      let next = evict_first m sorted in
      ground (
        arith,
        h,
        evict_any-none fuel limit now next.0 (evicted ++ next.1) k (evict_first-none m sorted k h),
      )

  pub evict_if_needed-none :
      (limits : Limits) (now : ℕ) (session : String) (m : LongTermMemory F) (k : String)
      → lookup k m.entries ≡ none
      → lookup k (evict_if_needed o limits now session m).0.entries ≡ none
  unfolding evict_if_needed
  evict_if_needed-none limits now session m k h =
      evict_any-none _ limits.max_entries now _ _ k
        (evict_session-none _ limits.max_per_session now session m [] k h)
