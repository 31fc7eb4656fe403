-- ===== src/Memory/Indexed.antt =====
-- The index of internal/ai/memory/long_term.go agrees with the entries, whatever is removed.
use ops_captain.Base.{
  suc, ◌<◌, ◌≡◌, inl, inr, String, Bool, true, some, arith, str_eq, length, Bool-cases,
  Option-cases, eq_iff,
}
use ops_captain.Base.Dict.{lookup, lookup-erase, length-erase-has}
use ops_captain.Base.Sort.{
  elem, Distinct, sort, sort-elem, sort-Distinct, remove_first-elem, remove_first-Distinct,
  remove_first-length,
}
use ops_captain.Context.Items.{MemoryEntry}
use ops_captain.Memory.Store.{LongTermMemory, put_ids, remove_entry}

module _ {F : Type 0} where
  -- Every entry is listed under its session, every identifier that is listed has an entry of that
  -- session, and no list repeats one.
  pub record IsIndexed (m : LongTermMemory F) : Type 0 where
    pub listed :
        (id : String) (e : MemoryEntry F)
        → lookup id m.entries ≡ some e
        → elem id (m.index e.session_id) ≡ true
    pub held :
        (session id : String)
        → elem id (m.index session) ≡ true
        → (e : MemoryEntry F) × (lookup id m.entries ≡ some e) × (e.session_id ≡ session)
    pub distinct : (session : String) → Distinct (m.index session)

  pub remove_entry-IsIndexed :
      (m : LongTermMemory F) (id : String) → IsIndexed m → IsIndexed (remove_entry m id)
  unfolding remove_entry
  remove_entry-IsIndexed m id v = elim (Option-cases (lookup id m.entries)) [
    | inl missing ↦ rw (missing, remove_entry) v
    | inr (e, found) ↦
        rw (found, remove_entry)
          (record {
            listed = λ k x h. ground (
              arith,
              found,
              lookup-erase id k m.entries,
              v.listed k x,
              remove_first-elem id k (m.index e.session_id) (v.distinct e.session_id),
              eq_iff e.session_id x.session_id,
            );
            held = λ session k h. elim (Bool-cases (str_eq e.session_id session)) [
              | inl same ↦
                  let there : elem k (m.index session) ≡ true = ground (
                    arith,
                    h,
                    same,
                    eq_iff e.session_id session,
                    remove_first-elem id k (m.index e.session_id) (v.distinct e.session_id),
                  ) in
                  let (x, has_x, of_x) = v.held session k there in
                  (
                    x,
                    ground (
                      arith,
                      h,
                      same,
                      has_x,
                      lookup-erase id k m.entries,
                      remove_first-elem id k (m.index e.session_id) (v.distinct e.session_id),
                    ),
                    of_x,
                  )
              | inr other ↦
                  let there : elem k (m.index session) ≡ true = ground (arith, h, other) in
                  let (x, has_x, of_x) = v.held session k there in
                  (
                    x,
                    ground (
                      arith,
                      found,
                      other,
                      has_x,
                      of_x,
                      lookup-erase id k m.entries,
                      eq_iff id k,
                      eq_iff e.session_id session,
                    ),
                    of_x,
                  )
            ];
            distinct = λ session. elim (Bool-cases (str_eq e.session_id session)) [
              | inl same ↦
                  rw same
                    (remove_first-Distinct id (m.index e.session_id) (v.distinct e.session_id))
              | inr other ↦ rw other (v.distinct session)
            ];
          })
  ]

  -- Sorting one list of the index.
  pub sorted-IsIndexed :
      (m : LongTermMemory F) (less : String → String → Bool) (session : String)
      → IsIndexed m
      → IsIndexed (record m { index = put_ids m.index session (sort less (m.index session)) })
  sorted-IsIndexed m less session v = record {
    listed = λ id e h.
        ground (
          arith,
          v.listed id e h,
          sort-elem less id (m.index session),
          eq_iff session e.session_id,
        );
    held = λ other id h.
        v.held other id
          (ground (arith, h, sort-elem less id (m.index session), eq_iff session other));
    distinct = λ other. elim (Bool-cases (str_eq session other)) [
      | inl e ↦ rw e (sort-Distinct less (m.index session) (v.distinct session))
      | inr e ↦ rw e (v.distinct other)
    ];
  }

  -- Removing a listed entry takes one identifier off its session's list, and an entry away.
  pub remove_entry-shorter :
      (m : LongTermMemory F) (session id : String)
      → IsIndexed m
      → elem id (m.index session) ≡ true
      → (suc (length ((remove_entry m id).index session)) ≡ length (m.index session))
        × (length (remove_entry m id).entries < length m.entries)
  unfolding remove_entry
  remove_entry-shorter m session id v h =
      let (e, found, of) = v.held session id h in
      (
        ground (
          arith,
          found,
          of,
          h,
          eq_iff e.session_id session,
          remove_first-length id (m.index e.session_id),
        ),
        ground (arith, found, length-erase-has id m.entries),
      )
