-- ===== src/Ledger/Retention.antt =====
-- What the ledger of internal/ai/runtime/ledger.go keeps, and what it forgets first.
use ops_captain.Base.{
  ℕ, suc, ◌-◌, ◌≤◌, ◌<◌, ◌≡◌, refl, sym, ap, ◌∙◌, inl, inr, subst, String, false, some, List, [],
  ◌∷◌, ◌++◌, arith, ltb, if◌then◌else◌, length, drop, length-drop, Bool-cases, eq_iff,
}
use ops_captain.Base.Drop.{drop_none, drop_more, drop_nil}
use ops_captain.Base.Dict.{
  Dict, lookup, insert, erase, has, lookup-insert, lookup-insert_self, lookup-erase,
}
use ops_captain.Base.Sort.{elem, Distinct, elem-snoc, Distinct-snoc}
use ops_captain.Ledger.Store.{Kept, prune, enter}

-- The keys of the order are distinct, and are exactly the keys that have an entry.
pub record IsOrdered {ℓ} {V : Type ℓ} (s : Kept V) : Type ℓ where
  pub distinct : Distinct s.order
  pub covers : (k : String) → has k s.items ≡ elem k s.order

module _ {ℓ} {V : Type ℓ} where
  prune-IsOrdered :
      (limit : ℕ) (order : List String) (items : Dict V)
      → IsOrdered (record { items = items; order = order })
      → IsOrdered (prune limit order items)
  unfolding prune elem
  prune-IsOrdered limit [] items o = o
  prune-IsOrdered limit (x ∷ xs) items o = elim (Bool-cases (ltb limit (suc (length xs)))) [
    | inr e ↦ rw (e, prune) o
    | inl e ↦
        rw (e, prune)
          (prune-IsOrdered limit xs (erase x items) (record {
            distinct = o.distinct.1;
            covers =
                λ k. ground (arith, lookup-erase x k items, o.covers k, eq_iff x k, o.distinct.0);
          }))
  ]

  prune-length :
      (limit : ℕ) (order : List String) (items : Dict V)
      → length (prune limit order items).order ≤ limit
  unfolding prune
  prune-length limit [] items = omega arith
  prune-length limit (x ∷ xs) items = ground (arith, prune-length limit xs (erase x items))

  prune-short :
      (limit : ℕ) (order : List String) (items : Dict V)
      → length order ≤ limit
      → prune limit order items ≡ record { items = items; order = order }
  unfolding prune
  prune-short limit [] items h = refl
  prune-short limit (x ∷ xs) items h = ground arith

  -- The newest key survives, with its entry.
  prune-last :
      (limit : ℕ) (order : List String) (k : String) (items : Dict V)
      → 0 < limit
      → elem k order ≡ false
      → lookup k (prune limit (order ++ k ∷ []) items).items ≡ lookup k items
  unfolding prune elem
  prune-last limit [] k items h e = ground arith
  prune-last limit (x ∷ xs) k items h e =
      ground (arith, prune-last limit xs k (erase x items) h, lookup-erase x k items)

  enter-IsOrdered :
      (limit : ℕ) (k : String) (v : V) (s : Kept V) → IsOrdered s → IsOrdered (enter limit k v s)
  unfolding enter
  enter-IsOrdered limit k v s o = elim (Bool-cases (has k s.items)) [
    | inl e ↦
        rw (e, enter)
          (prune-IsOrdered limit s.order (insert k v s.items) (record {
            distinct = o.distinct;
            covers = λ j.
                ground (arith, lookup-insert k j v s.items, o.covers j, o.covers k, eq_iff k j);
          }))
    | inr e ↦
        rw (e, enter)
          (prune-IsOrdered limit (s.order ++ k ∷ []) (insert k v s.items) (record {
            distinct = Distinct-snoc k s.order (sym (o.covers k) ∙ e) o.distinct;
            covers =
                λ j. ground (arith, lookup-insert k j v s.items, o.covers j, elem-snoc j k s.order);
          }))
  ]

  prune-order :
      (limit : ℕ) (order : List String) (items : Dict V)
      → (prune limit order items).order ≡ drop (length order - limit) order
  unfolding prune
  prune-order limit [] items = sym (drop_nil (length {A = String} [] - limit))
  prune-order limit (x ∷ xs) items = elim (Bool-cases (ltb limit (suc (length xs)))) [
    | inr e ↦ rw (e, prune) (drop_none (suc (length xs) - limit) (x ∷ xs) (ground arith))
    | inl e ↦
        rw (e, prune)
          (prune-order limit xs (erase x items)
            ∙ drop_more (suc (length xs) - limit) (length xs - limit) x xs (ground arith))
  ]

  enter-last :
      (limit : ℕ) (k : String) (v : V) (s : Kept V)
      → 0 < limit
      → IsOrdered s
      → length s.order ≤ limit
      → lookup k (enter limit k v s).items ≡ some v
  unfolding enter
  enter-last limit k v s h o b = elim (Bool-cases (has k s.items)) [
    | inl e ↦
        rw (e, enter)
          (rw (prune-short limit s.order (insert k v s.items) b) (lookup-insert_self k v s.items))
    | inr e ↦
        rw (e, enter)
          (prune-last limit s.order k (insert k v s.items) h (sym (o.covers k) ∙ e)
            ∙ lookup-insert_self k v s.items)
  ]

  -- The keys in order of first entry, with a new one at the end.
  abbrev pub entered : String → Kept V → List String
  entered k s = if has k s.items then s.order else s.order ++ k ∷ []

  enter-order :
      (limit : ℕ) (k : String) (v : V) (s : Kept V)
      → (enter limit k v s).order ≡ drop (length (entered k s) - limit) (entered k s)
  unfolding enter
  enter-order limit k v s = prune-order limit (entered k s) (insert k v s.items)

  -- What is kept of one kind, within its limit.
  pub record IsKept (limit : ℕ) (s : Kept V) : Type ℓ where
    pub ordered : IsOrdered s
    pub bounded : length s.order ≤ limit

  -- One entry within a positive limit: the keys stay distinct and exactly those with an entry, at most
  -- `limit` of them; the entry just made is there; and the keys are the newest by first entry.
  pub enter-keeps :
      (limit : ℕ) (k : String) (v : V) (s : Kept V)
      → 0 < limit
      → IsKept limit s
      → IsKept limit (enter limit k v s)
        × (lookup k (enter limit k v s).items ≡ some v)
        × ((enter limit k v s).order ≡ drop (length (entered k s) - limit) (entered k s))
  enter-keeps limit k v s h w = (
    record {
      ordered = enter-IsOrdered limit k v s w.ordered;
      bounded =
          subst (λ n. n ≤ limit) (ap length (sym (enter-order limit k v s)))
            (omega (arith, length-drop (length (entered k s) - limit) (entered k s)));
    },
    enter-last limit k v s h w.ordered w.bounded,
    enter-order limit k v s,
  )
