-- ===== src/Memory/Kept.antt =====
-- `StoreWithOptions` of internal/ai/memory/long_term.go keeps the index and the limits.
use ops_captain.Base.{
  ℕ, ◌≡◌, sym, ◌∙◌, subst, inl, inr, String, true, false, not, ◌&&◌, none, some, List, [], ◌∷◌,
  ◌++◌, arith, str_eq, if◌then◌else◌, length, Bool-cases, Option-cases, eq_iff,
}
use ops_captain.Base.Dict.{lookup, insert, lookup-insert}
use ops_captain.Base.Sort.{elem, Distinct, elem-snoc, Distinct-snoc}
use ops_captain.Context.Items.{MemoryEntry}
use ops_captain.Memory.Store.{LongTermMemory, MemoryStoreOptions, Outside, put_ids}
use ops_captain.Memory.Indexed.{IsIndexed}
use ops_captain.Memory.Writes.{conflicts, retire_entry, retire_conflicting}
use ops_captain.Memory.Stored.{retire_all-lookup, retire_all-length}

module _ {F : Type 0} (o : Outside F) where
  -- What retiring leaves of one entry.
  abbrev pub after_retiring :
      String → String → MemoryStoreOptions F → ℕ → String → MemoryEntry F → MemoryEntry F
  after_retiring id kind opts now key e =
      if not (str_eq opts.conflict_group "") && conflicts o id kind opts key e
      then retire_entry o now e
      else e

  pub retire-lookup :
      (id kind : String) (opts : MemoryStoreOptions F) (now : ℕ) (m : LongTermMemory F) (k : String)
      → lookup k (retire_conflicting o id kind opts now m).0.entries ≡ elim (lookup k m.entries) [
        | none ↦ none
        | some e ↦ some (after_retiring id kind opts now k e)
      ]
  unfolding retire_conflicting
  retire-lookup id kind opts now m k =
      ground
        (arith, retire_all-lookup o id kind opts now m.entries k, Option-cases (lookup k m.entries))

  after_retiring-session :
      (id kind : String) (opts : MemoryStoreOptions F) (now : ℕ) (k : String) (e : MemoryEntry F)
      → (after_retiring id kind opts now k e).session_id ≡ e.session_id
  unfolding retire_entry
  after_retiring-session id kind opts now k e =
      ground
        (arith, Bool-cases (not (str_eq opts.conflict_group "") && conflicts o id kind opts k e))

  pub retire-index :
      (id kind : String) (opts : MemoryStoreOptions F) (now : ℕ) (m : LongTermMemory F)
      → ((retire_conflicting o id kind opts now m).0.index ≡ m.index)
        × (length (retire_conflicting o id kind opts now m).0.entries ≡ length m.entries)
  unfolding retire_conflicting
  retire-index id kind opts now m =
      (ground arith, ground (arith, retire_all-length o id kind opts now m.entries))

  pub retire-IsIndexed :
      (id kind : String) (opts : MemoryStoreOptions F) (now : ℕ) (m : LongTermMemory F)
      → IsIndexed m
      → IsIndexed (retire_conflicting o id kind opts now m).0
  retire-IsIndexed id kind opts now m v =
      let same = (retire-index id kind opts now m).0 in
      record {
        listed = λ k x h. elim (Option-cases (lookup k m.entries)) [
          | inl e ↦ absurd (ground (arith, h, e, retire-lookup id kind opts now m k))
          | inr (y, e) ↦ ground (
            arith,
            h,
            e,
            same,
            retire-lookup id kind opts now m k,
            after_retiring-session id kind opts now k y,
            v.listed k y e,
          )
        ];
        held = λ session k h.
            let (y, e, of) =
              v.held session k
                (subst (λ (f : String → List String). elem k (f session) ≡ true) same h) in
            (
              after_retiring id kind opts now k y,
              ground (arith, e, retire-lookup id kind opts now m k),
              after_retiring-session id kind opts now k y ∙ of,
            );
        distinct = λ session.
            subst (λ (f : String → List String). Distinct (f session)) (sym same)
              (v.distinct session);
      }

  -- Another value of the same session under a key that is there.
  pub replace-IsIndexed :
      (m : LongTermMemory F) (id : String) (e x : MemoryEntry F)
      → IsIndexed m
      → lookup id m.entries ≡ some e
      → x.session_id ≡ e.session_id
      → IsIndexed (record m { entries = insert id x m.entries })
  replace-IsIndexed m id e x v found same = record {
    listed = λ k y h. ground (
      arith,
      found,
      same,
      h,
      lookup-insert id k x m.entries,
      v.listed k y,
      v.listed id e found,
      eq_iff id k,
    );
    held = λ session k h.
        let (y, has_y, of_y) = v.held session k h in
        elim (Bool-cases (str_eq id k)) [
          | inl here ↦ (
            x,
            ground (arith, here, lookup-insert id k x m.entries),
            ground (arith, here, eq_iff id k, found, same, has_y, of_y),
          )
          | inr other ↦ (y, ground (arith, other, has_y, lookup-insert id k x m.entries), of_y)
        ];
    distinct = v.distinct;
  }

  not_listed :
      (m : LongTermMemory F) (id session : String)
      → IsIndexed m
      → lookup id m.entries ≡ none
      → elem id (m.index session) ≡ false
  not_listed m id session v fresh = elim (Bool-cases (elem id (m.index session))) [
    | inr e ↦ e
    | inl e ↦ let (y, has_y, of_y) = v.held session id e in absurd (ground (arith, fresh, has_y))
  ]

  -- A new entry, listed at the end of its session.
  pub add-IsIndexed :
      (m : LongTermMemory F) (id : String) (x : MemoryEntry F)
      → IsIndexed m
      → lookup id m.entries ≡ none
      → IsIndexed (record {
        entries = insert id x m.entries;
        index = put_ids m.index x.session_id (m.index x.session_id ++ id ∷ []);
      })
  add-IsIndexed m id x v fresh =
      let session = x.session_id in
      record {
        listed = λ k y h. ground (
          arith,
          h,
          fresh,
          lookup-insert id k x m.entries,
          v.listed k y,
          elem-snoc k id (m.index session),
          eq_iff id k,
          eq_iff session y.session_id,
        );
        held = λ other k h. elim (Bool-cases (str_eq id k)) [
          | inl here ↦ (
            x,
            ground (arith, here, lookup-insert id k x m.entries),
            elim (Bool-cases (str_eq session other)) [
              | inl e ↦ (eq_iff session other).0 e
              | inr e ↦
                  let (y, has_y, of_y) = v.held other k (ground (arith, h, e)) in
                  absurd (ground (arith, here, fresh, has_y, eq_iff id k))
            ],
          )
          | inr apart ↦
              let (y, has_y, of_y) = v.held other k (
                ground (arith, h, apart, elem-snoc k id (m.index session), eq_iff session other)) in
              (y, ground (arith, apart, has_y, lookup-insert id k x m.entries), of_y)
        ];
        distinct = λ other. elim (Bool-cases (str_eq session other)) [
          | inl e ↦ rw e (
              Distinct-snoc id (m.index session) (not_listed m id session v fresh)
                (v.distinct session))
          | inr e ↦ rw e (v.distinct other)
        ];
      }
