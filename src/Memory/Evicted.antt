-- ===== src/Memory/Evicted.antt =====
-- The eviction of internal/ai/memory/long_term_eviction.go ends, below both limits.
use ops_captain.Base.{
  ℕ, zero, suc, ◌≤◌, ◌<◌, ◌≡◌, refl, sym, ap, ◌∙◌, subst, inl, inr, String, Bool, true, ◌&&◌, List,
  [], ◌∷◌, ◌++◌, arith, ltb, leb, length, length-map, Bool-cases, Option-cases, eq_iff,
}
use ops_captain.Base.Dict.{Dict, lookup, has, length-erase-has}
use ops_captain.Base.Sort.{elem, sort, sort-elem, sort-length, remove_first}
use ops_captain.Context.Items.{MemoryEntry}
use ops_captain.Memory.Store.{
  LongTermMemory, Outside, Limits, put_ids, keys, remove_entry, evicts_before, evict_first,
  evict_session, evict_any, evict_if_needed,
}
use ops_captain.Memory.Indexed.{
  IsIndexed, remove_entry-IsIndexed, sorted-IsIndexed, remove_entry-shorter,
}

-- The first of a sorted list that is not empty.
sort-first :
    (less : String → String → Bool) (xs : List String)
    → 0 < length xs
    → (y : String) × (ys : List String) × (sort less xs ≡ y ∷ ys) × (elem y xs ≡ true)
unfolding elem
sort-first less xs h = first (sort less xs) refl
  where
    first :
        (zs : List String)
        → sort less xs ≡ zs
        → (y : String) × (ys : List String) × (sort less xs ≡ y ∷ ys) × (elem y xs ≡ true)
    first [] e = absurd (ground (arith, h, e, sort-length less xs))
    first (y ∷ ys) e =
        (y, ys, e, sym (sort-elem less y xs) ∙ ap (elem y) e ∙ ground (arith, eq_iff y y))

remove_first-le : (id : String) (xs : List String) → length (remove_first id xs) ≤ length xs
unfolding remove_first
remove_first-le id [] = omega arith
remove_first-le id (x ∷ xs) = ground (arith, remove_first-le id xs)

module _ {F : Type 0} where
  keys-has : (d : Dict (MemoryEntry F)) (k : String) → elem k (keys d) ≡ has k d
  unfolding elem lookup
  keys-has [] k = refl
  keys-has ((j, e) ∷ d) k = ground (arith, keys-has d k)

  -- Removing takes an entry away if it is there, and lengthens no list.
  remove_entry-less :
      (m : LongTermMemory F) (id : String)
      → has id m.entries ≡ true
      → length (remove_entry m id).entries < length m.entries
  unfolding remove_entry
  remove_entry-less m id h = elim (Option-cases (lookup id m.entries)) [
    | inl e ↦ absurd (ground (arith, e))
    | inr (x, e) ↦ ground (arith, e, length-erase-has id m.entries)
  ]

  remove_entry-index :
      (m : LongTermMemory F) (id session : String)
      → length ((remove_entry m id).index session) ≤ length (m.index session)
  unfolding remove_entry
  remove_entry-index m id session = elim (Option-cases (lookup id m.entries)) [
    | inl e ↦ ground (arith, e)
    | inr (x, e) ↦
        ground (arith, e, remove_first-le id (m.index x.session_id), eq_iff x.session_id session)
  ]

  evict_first-removes :
      (m : LongTermMemory F) (id : String) (ids xs : List String)
      → xs ≡ id ∷ ids
      → (evict_first m xs).0 ≡ remove_entry m id
  unfolding evict_first
  evict_first-removes m id ids xs e = ap (λ zs. (evict_first m zs).0) e

module _ {F : Type 0} (o : Outside F) where
  -- Below the limit for one session, with no more entries than before.
  pub record IsBelow (limit : ℕ) (session : String) (before after : LongTermMemory F) : Type 0 where
    pub indexed : IsIndexed after
    pub below : length (after.index session) < limit
    pub fewer : length after.entries ≤ length before.entries

  evict_session-IsBelow :
      (fuel limit now : ℕ) (session : String) (m : LongTermMemory F) (evicted : List String)
      → IsIndexed m
      → 0 < limit
      → length (m.index session) ≤ fuel
      → IsBelow limit session m (evict_session o fuel limit now session m evicted).0
  unfolding evict_session
  evict_session-IsBelow zero limit now session m evicted v pos enough = record {
    indexed = v;
    below = omega (arith, pos, enough);
    fewer = omega arith;
  }
  evict_session-IsBelow (suc fuel) limit now session m evicted v pos enough =
      elim (Bool-cases (ltb 0 limit && leb limit (length (m.index session)))) [
        | inr h ↦
            rw (h, evict_session)
              (record { indexed = v; below = ground (arith, pos, h); fewer = omega arith })
        | inl h ↦
            let order = evicts_before o now m.entries in
            let sorted = sort order (m.index session) in
            let arranged : LongTermMemory F = record {
              entries = m.entries;
              index = put_ids m.index session sorted;
            } in
            let (y, ys, e, there) = sort-first order (m.index session) (ground (arith, h, pos)) in
            let removed = evict_first-removes arranged y ys sorted e in
            let w = sorted-IsIndexed m order session v in
            let shorter = remove_entry-shorter arranged session y w (
              ground (arith, there, sort-elem order y (m.index session), eq_iff session session)) in
            let next = (evict_first arranged sorted).0 in
            let rest =
              evict_session-IsBelow fuel limit now session next
                (evicted ++ (evict_first arranged sorted).1)
                (subst IsIndexed (sym removed) (remove_entry-IsIndexed arranged y w)) pos
                (subst (λ (x : LongTermMemory F). length (x.index session) ≤ fuel) (sym removed)
                  (ground (
                    arith,
                    shorter.0,
                    enough,
                    sort-length order (m.index session),
                    eq_iff session session,
                  ))) in
            rw (h, evict_session)
              (record {
                indexed = rest.indexed;
                below = rest.below;
                fewer = omega (
                  arith,
                  rest.fewer,
                  ap (λ (x : LongTermMemory F). length x.entries) removed,
                  shorter.1,
                );
              })
      ]

  evict_any-IsBelow :
      (fuel limit now : ℕ) (m : LongTermMemory F) (evicted : List String)
      → IsIndexed m
      → 0 < limit
      → length m.entries ≤ fuel
      → let after = (evict_any o fuel limit now m evicted).0 in
        IsIndexed after
        × (length after.entries < limit)
        × ((session : String) → length (after.index session) ≤ length (m.index session))
  unfolding evict_any
  evict_any-IsBelow zero limit now m evicted v pos enough =
      (v, omega (arith, pos, enough), λ session. omega arith)
  evict_any-IsBelow (suc fuel) limit now m evicted v pos enough =
      elim (Bool-cases (ltb 0 limit && leb limit (length m.entries))) [
        | inr h ↦ rw (h, evict_any) (v, ground (arith, pos, h), λ session. omega arith)
        | inl h ↦
            let order = evicts_before o now m.entries in
            let sorted = sort order (keys m.entries) in
            let (y, ys, e, there) = sort-first order (keys m.entries) (
              ground (arith, h, pos, length-map (λ (x : String × MemoryEntry F). x.0) m.entries)) in
            let removed = evict_first-removes m y ys sorted e in
            let less = remove_entry-less m y (sym (keys-has m.entries y) ∙ there) in
            let next = (evict_first m sorted).0 in
            let (indexed, below, shorter) =
              evict_any-IsBelow fuel limit now next (evicted ++ (evict_first m sorted).1)
                (subst IsIndexed (sym removed) (remove_entry-IsIndexed m y v)) pos
                (omega
                  (arith, less, enough, ap (λ (x : LongTermMemory F). length x.entries) removed)) in
            rw (h, evict_any)
              (
                indexed,
                below,
                λ session. omega (
                  arith,
                  shorter session,
                  remove_entry-index m y session,
                  ap (λ (x : LongTermMemory F). length (x.index session)) removed,
                ),
              )
      ]

  -- With positive limits eviction ends with fewer entries than the one and fewer of the session than the
  -- other, in the rounds that the model allows it; the index still agrees with the entries.
  pub evict_if_needed-below :
      (limits : Limits) (now : ℕ) (session : String) (m : LongTermMemory F)
      → IsIndexed m
      → 0 < limits.max_entries
      → 0 < limits.max_per_session
      → let after = (evict_if_needed o limits now session m).0 in
        IsIndexed after
        × (length after.entries < limits.max_entries)
        × (length (after.index session) < limits.max_per_session)
  unfolding evict_if_needed
  evict_if_needed-below limits now session m v some_entries some_session =
      let fuel = length (m.index session) in
      let first = evict_session o fuel limits.max_per_session now session m [] in
      let below =
        evict_session-IsBelow fuel limits.max_per_session now session m [] v some_session
          (omega arith) in
      let (indexed, fewer, shorter) =
        evict_any-IsBelow (length first.0.entries) limits.max_entries now first.0 first.1
          below.indexed some_entries (omega arith) in
      (indexed, fewer, omega (arith, shorter session, below.below))
