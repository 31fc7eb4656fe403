-- ===== src/Context/Budget.antt =====
-- What `selectMemories` of internal/ai/contextengine/assembler_select.go chooses.
use ops_captain.Base.{
  ℕ, suc, ◌+◌, ◌-◌, ◌≤◌, ◌<◌, ◌∙◌, ◌≡◌, refl, true, ◌||◌, none, some, List, [], ◌∷◌, arith, ◌==◌,
  length, All, Option-cases, Bool-cases, inl, inr, ap,
}
use ops_captain.Context.Items.{ContextProfile, ContextItem, MemoryEntry}
use ops_captain.Context.Memories.{
  Measures, Selection, new_memory_item, unfit, drop_reason, select_from, select_memories,
}

module _ {F : Type 0} where
  -- The tokens of a list of items.
  abbrev pub tokens_of : List (ContextItem F) → ℕ
  tokens_of [] = 0
  tokens_of (i ∷ is) = i.token_estimate + tokens_of is

module _ {F : Type 0} (x : Measures F) (profile : ContextProfile F) (now : ℕ) where
  -- No check that looks at the item alone fails.
  abbrev pub IsFit : ContextItem F → Type 0
  IsFit item = (unfit x profile now item ≡ none) × (item.selected ≡ true)

  -- A selection from a list within the given room.
  record IsWithin (remaining left : ℕ) (s : Selection F) : Type 0 where
    accounts : tokens_of s.selected ≡ s.used
    affordable : s.used ≤ remaining
    few : length s.selected ≤ left
    fit : All IsFit s.selected

  drop_reason-none :
      (remaining count : ℕ) (item : ContextItem F)
      → drop_reason x profile now remaining count item ≡ none
      → (unfit x profile now item ≡ none)
        × (count < profile.max_memory_items)
        × (item.token_estimate ≤ remaining)
  unfolding drop_reason
  drop_reason-none remaining count item h = ground arith

  chosen : MemoryEntry F → ContextItem F
  chosen entry = record (new_memory_item x entry) { selected = true }

  chosen-IsFit :
      (entry : MemoryEntry F)
      → unfit x profile now (new_memory_item x entry) ≡ none
      → IsFit (chosen entry)
  unfolding unfit chosen
  chosen-IsFit entry h = (h, refl)

  select_from-IsWithin :
      (remaining count : ℕ) (entries : List (MemoryEntry F))
      → IsWithin remaining
          (profile.max_memory_items - count)
          (select_from x profile now remaining count entries)
  unfolding select_from chosen
  select_from-IsWithin remaining count [] = record {
    accounts = refl;
    affordable = omega arith;
    few = omega arith;
    fit = tt;
  }
  select_from-IsWithin remaining count (entry ∷ entries) =
      elim (Option-cases (drop_reason x profile now remaining count (new_memory_item x entry))) [
        | inl e ↦
            let (fit, c, t) = drop_reason-none remaining count (new_memory_item x entry) e in
            let w =
              select_from-IsWithin (remaining - x.estimate_tokens entry.content) (suc count)
                entries in
            rw (e, select_from)
              (record {
                accounts = omega (arith, w.accounts);
                affordable = omega (arith, w.affordable);
                few = omega (arith, w.few);
                fit = (chosen-IsFit entry fit, w.fit);
              })
        | inr (reason, e) ↦
            let w = select_from-IsWithin remaining count entries in
            rw (e, select_from)
              (record {
                accounts = w.accounts;
                affordable = w.affordable;
                few = w.few;
                fit = w.fit;
              })
      ]

  -- The chosen memories take the tokens that are reported, within the budget, are no more than the
  -- profile's limit, and have passed the checks of expiry, scope, confidence and safety.
  pub select_memories-within :
      (entries : List (MemoryEntry F))
      → let s = select_memories x entries profile now in
        (tokens_of s.selected ≡ s.used)
        × (s.used ≤ profile.budget.memory_tokens)
        × (length s.selected ≤ profile.max_memory_items)
        × All IsFit s.selected
  unfolding select_memories
  select_memories-within entries =
      let w = select_from-IsWithin profile.budget.memory_tokens 0 entries in
      elim (Bool-cases (
        length entries == 0
        || profile.max_memory_items == 0
        || profile.budget.memory_tokens == 0)) [
          | inl e ↦ rw (e, select_memories) (refl, omega arith, omega arith, tt)
          | inr e ↦ rw (e, select_memories) (w.accounts, w.affordable, omega (arith, w.few), w.fit)
        ]

  -- The estimates of the entries' texts.
  abbrev pub estimate_of : List (MemoryEntry F) → ℕ
  estimate_of [] = 0
  estimate_of (e ∷ es) = x.estimate_tokens e.content + estimate_of es

  -- The entries that pass every check of the item alone, as chosen items.
  abbrev pub fit_items : List (MemoryEntry F) → List (ContextItem F)
  fit_items [] = []
  fit_items (e ∷ es) = elim (unfit x profile now (new_memory_item x e)) [
    | none ↦ record (new_memory_item x e) { selected = true } ∷ fit_items es
    | some reason ↦ fit_items es
  ]

  drop_reason-room :
      (remaining count : ℕ) (item : ContextItem F)
      → count < profile.max_memory_items
      → item.token_estimate ≤ remaining
      → drop_reason x profile now remaining count item ≡ unfit x profile now item
  unfolding drop_reason
  drop_reason-room remaining count item c t = ground arith

  select_from-keeps :
      (remaining count : ℕ) (entries : List (MemoryEntry F))
      → count + length entries ≤ profile.max_memory_items
      → estimate_of entries ≤ remaining
      → (select_from x profile now remaining count entries).selected ≡ fit_items entries
  unfolding select_from
  select_from-keeps remaining count [] c t = refl
  select_from-keeps remaining count (entry ∷ entries) c t =
      let item = new_memory_item x entry in
      let room = drop_reason-room remaining count item (omega arith) (omega arith) in
      elim (Option-cases (unfit x profile now item)) [
        | inl e ↦
            rw (room ∙ e, select_from)
              (rw (e, fit_items)
                (ap (◌∷◌ (record item { selected = true })) (
                  select_from-keeps (remaining - item.token_estimate) (suc count) entries
                    (omega arith) (omega arith))))
        | inr (reason, e) ↦
            rw (room ∙ e, select_from)
              (rw (e, fit_items)
                (select_from-keeps remaining count entries (omega arith) (omega arith)))
      ]

  -- With a budget that has room for all entries, in number and in tokens, exactly those that pass the
  -- checks of expiry, scope, confidence and safety are chosen, in their order.
  pub select_memories-keeps :
      (entries : List (MemoryEntry F))
      → length entries ≤ profile.max_memory_items
      → estimate_of entries ≤ profile.budget.memory_tokens
      → 0 < profile.budget.memory_tokens
      → (select_memories x entries profile now).selected ≡ fit_items entries
  unfolding select_memories
  select_memories-keeps [] c t p = refl
  select_memories-keeps (entry ∷ entries) c t p =
      ground
        (arith, select_from-keeps profile.budget.memory_tokens 0 (entry ∷ entries) (omega arith) t)
